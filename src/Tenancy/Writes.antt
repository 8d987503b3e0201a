-- ===== src/Tenancy/Writes.antt =====
-- The writes of orders, invoices and the ledger, new rows, and what leaves the process.
use ventura_api.Common.{
  false, ◌≡◌, refl, List, [], ◌∷◌, String, Option, none, some, Uuid, ◌==◌, ◌&&◌, update, update_all,
  suc, Bool-cases, Option-cases, inl, inr, mem,
}
use ventura_api.Common.Keeps.{Keeps}
use ventura_api.Number.{Number}
use ventura_api.Db.{Db, Env}
use ventura_api.Tenancy.{
  Same, Same-refl, Keeps-Same, orders-Same, invoices-Same, appointments-Same, own-update,
  own-update_all,
}
use ventura_api.Resource.Entity.{is_product}
use ventura_api.Resource.Repository as Resources
use ventura_api.Resource.Repository.{
  RecordAdjustment, record_adjustment, apply_adjustment, enough_stock,
}
use ventura_api.Resource.Service.{delete_object}
use ventura_api.Invoice.Lifecycle.{mail_invoice}
use ventura_api.Order.Repository as Orders
use ventura_api.Invoice.Repository as Invoices
use ventura_api.Appointment.Repository as Appointments

module _ {F : Type 0} (b c : Uuid) (apart : (b == c) ≡ false) (old : Db F) where
  pub order_row-Same :
      (env : Env) (id : Uuid) (patch : Orders.UpdateOrder F)
      → Keeps (Same c old) (Orders.update_row env b id patch)
  unfolding Orders.update_row
  order_row-Same env id patch = Keeps-Same c old (Orders.update_row env b id patch) λ db.
      elim (Option-cases (Orders.find_by_id b id db)) [
        | inl missing ↦ rw (missing, Orders.update_row) (Same-refl c db)
        | inr (x, found) ↦
            rw (found, Orders.update_row)
              (elim (Bool-cases env.writes_orders) [
                | inl writes ↦ rw writes (
                    orders-Same c db (update (Orders.at b id) (Orders.apply_patch patch) db.orders)
                      db.drawn
                      (own-update (λ a. a.business_id) b c apart (λ a. a.id == id)
                        (Orders.apply_patch patch) (λ _. refl) db.orders))
                | inr fails ↦ rw fails (Same-refl c db)
              ])
      ]

  among-Same :
      (ids : List Uuid) (f : Option Uuid) (db : Db F)
      → Same c db
          (record db { orders = update_all (Orders.among b ids) (Orders.set_invoice f) db.orders })
  among-Same ids f db = orders-Same c db _ db.drawn (
      own-update_all (λ a. a.business_id) b c apart (λ a. mem a.id ids) (Orders.set_invoice f)
        (λ _. refl) db.orders)

  pub attach_invoice-Same :
      (env : Env) (ids : List Uuid) (i : Uuid)
      → Keeps (Same c old) (Orders.attach_invoice env b ids i)
  unfolding Orders.attach_invoice
  attach_invoice-Same env [] i = Keeps-Same c old (Orders.attach_invoice env b [] i) (Same-refl c)
  attach_invoice-Same env (o ∷ ids) i =
      Keeps-Same c old (Orders.attach_invoice env b (o ∷ ids) i) λ db.
        elim (Bool-cases env.writes_orders) [
          | inl writes ↦ rw (writes, Orders.attach_invoice) (among-Same (o ∷ ids) (some i) db)
          | inr fails ↦ rw (fails, Orders.attach_invoice) (Same-refl c db)
        ]

  pub detach_invoice-Same :
      (env : Env) (ids : List Uuid) → Keeps (Same c old) (Orders.detach_invoice env b ids)
  unfolding Orders.detach_invoice
  detach_invoice-Same env [] = Keeps-Same c old (Orders.detach_invoice env b []) (Same-refl c)
  detach_invoice-Same env (o ∷ ids) = Keeps-Same c old (Orders.detach_invoice env b (o ∷ ids)) λ db.
      elim (Bool-cases env.writes_orders) [
        | inl writes ↦ rw (writes, Orders.detach_invoice) (among-Same (o ∷ ids) none db)
        | inr fails ↦ rw (fails, Orders.detach_invoice) (Same-refl c db)
      ]

-- new rows of a business that is not the other
module _ {F : Type 0} (c : Uuid) (old : Db F) where
  pub order-Same :
      (env : Env) (d : Orders.CreateOrder F)
      → (d.business_id == c) ≡ false
      → Keeps (Same c old) (Orders.create env d)
  unfolding Orders.create
  order-Same env d apart = Keeps-Same c old (Orders.create env d) λ db.
      elim (Bool-cases env.writes_orders) [
        | inl writes ↦
            rw (writes, Orders.create) (orders-Same c db _ (suc db.drawn) (rw apart refl))
        | inr fails ↦ rw (fails, Orders.create) (Same-refl c db)
      ]

  pub appointment-Same :
      (env : Env) (d : Appointments.CreateAppointment)
      → (d.business_id == c) ≡ false
      → Keeps (Same c old) (Appointments.create env d)
  unfolding Appointments.create
  appointment-Same env d apart =
      Keeps-Same c old (Appointments.create env d)
        λ db. appointments-Same c db _ (suc db.drawn) (rw apart refl)

  pub invoice-Same :
      ⦃num : Number F⦄ (env : Env) (d : Invoices.CreateInvoice F)
      → (d.business_id == c) ≡ false
      → Keeps (Same c old) (Invoices.create env d)
  unfolding Invoices.create
  invoice-Same env d apart =
      Keeps-Same c old (Invoices.create env d)
        λ db. invoices-Same c db _ (suc db.drawn) (rw apart refl)

  adjusted-Same :
      (env : Env) (d : RecordAdjustment) (db : Db F)
      → (d.business_id == c) ≡ false
      → Same c db (apply_adjustment env d db).1
  adjusted-Same env d db apart = record {
    resources =
        own-update (λ a. a.business_id) d.business_id c apart (λ a. a.id == d.resource_id)
          (Resources.add_stock d.delta) (λ _. refl) db.resources;
    adjustments = rw apart refl;
    customers = refl;
    orders = refl;
    invoices = refl;
    appointments = refl;
  }

  pub record_adjustment-Same :
      (env : Env) (d : RecordAdjustment)
      → (d.business_id == c) ≡ false
      → Keeps (Same c old) (record_adjustment env d)
  unfolding record_adjustment
  record_adjustment-Same env d apart = Keeps-Same c old (record_adjustment env d) λ db.
      elim (Option-cases (Resources.find_by_id d.business_id d.resource_id db)) [
        | inl missing ↦ rw (missing, record_adjustment) (Same-refl c db)
        | inr (x, found) ↦
            rw (found, record_adjustment)
              (elim (Bool-cases (is_product x.type && enough_stock d.delta x.available_quantity)) [
                | inl enough ↦ rw enough (adjusted-Same env d db apart)
                | inr short ↦ rw short (Same-refl c db)
              ])
      ]

  pub mail_invoice-Same :
      (recipient number : String) → Keeps (Same c old) (mail_invoice recipient number)
  mail_invoice-Same recipient number = Keeps-Same c old (mail_invoice recipient number) λ db.
      record {
        resources = refl;
        adjustments = refl;
        customers = refl;
        orders = refl;
        invoices = refl;
        appointments = refl;
      }

  pub delete_object-Same : (key : String) → Keeps (Same c old) (delete_object key)
  delete_object-Same key = Keeps-Same c old (delete_object key) λ db. record {
    resources = refl;
    adjustments = refl;
    customers = refl;
    orders = refl;
    invoices = refl;
    appointments = refl;
  }
