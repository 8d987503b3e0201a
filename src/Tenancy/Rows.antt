-- ===== src/Tenancy/Rows.antt =====
-- The writes of resources, customers and appointments by the repositories of src/, and of rows of
-- invoices, and the rows of another business.
use ventura_api.Common.{false, ◌≡◌, refl, Uuid, ◌==◌, suc, Bool-cases, Option-cases, inl, inr}
use ventura_api.Common.Keeps.{Keeps}
use ventura_api.Db.{Db, Env}
use ventura_api.Tenancy.{
  Same, Same-refl, Keeps-Same, resources-Same, customers-Same, invoices-Same, appointments-Same,
  own-update, own-remove,
}
use ventura_api.Resource.Repository as Resources
use ventura_api.Resource.Repository.{
  RecordAdjustment, record_adjustment, apply_adjustment, enough_stock,
}
use ventura_api.Customer.Repository as Customers
use ventura_api.Invoice.Repository as Invoices
use ventura_api.Appointment.Repository as Appointments

module _ {F : Type 0} (b c : Uuid) (apart : (b == c) ≡ false) (old : Db F) where
  pub resource_row-Same :
      (id : Uuid) (patch : Resources.UpdateResource F)
      → Keeps (Same c old) (Resources.update_row b id patch)
  unfolding Resources.update_row
  resource_row-Same id patch = Keeps-Same c old (Resources.update_row b id patch) λ db.
      elim (Option-cases (Resources.find_by_id b id db)) [
        | inl missing ↦ rw (missing, Resources.update_row) (Same-refl c db)
        | inr (x, found) ↦
            rw (found, Resources.update_row)
              (resources-Same c db _ db.drawn (
                own-update (λ a. a.business_id) b c apart (λ a. a.id == id)
                  (Resources.apply_patch patch) (λ _. refl) db.resources))
      ]

  pub resource_removed-Same : (id : Uuid) → Keeps (Same c old) (Resources.delete_row b id)
  unfolding Resources.delete_row
  resource_removed-Same id = Keeps-Same c old (Resources.delete_row b id) λ db.
      elim (Option-cases (Resources.find_by_id b id db)) [
        | inl missing ↦ rw (missing, Resources.delete_row) (Same-refl c db)
        | inr (x, found) ↦
            rw (found, Resources.delete_row)
              (resources-Same c db _ db.drawn
                (own-remove (λ a. a.business_id) b c apart (λ a. a.id == id) db.resources))
      ]

  pub customer_row-Same :
      (id : Uuid) (patch : Customers.UpdateCustomer)
      → Keeps (Same c old) (Customers.update_row b id patch)
  unfolding Customers.update_row
  customer_row-Same id patch = Keeps-Same c old (Customers.update_row b id patch) λ db.
      elim (Option-cases (Customers.find_by_id b id db)) [
        | inl missing ↦ rw (missing, Customers.update_row) (Same-refl c db)
        | inr (x, found) ↦
            rw (found, Customers.update_row)
              (customers-Same c db _ db.drawn (
                own-update (λ a. a.business_id) b c apart (λ a. a.id == id)
                  (Customers.apply_patch patch) (λ _. refl) db.customers))
      ]

  pub customer_removed-Same : (id : Uuid) → Keeps (Same c old) (Customers.delete_row b id)
  unfolding Customers.delete_row
  customer_removed-Same id = Keeps-Same c old (Customers.delete_row b id) λ db.
      elim (Option-cases (Customers.find_by_id b id db)) [
        | inl missing ↦ rw (missing, Customers.delete_row) (Same-refl c db)
        | inr (x, found) ↦
            rw (found, Customers.delete_row)
              (customers-Same c db _ db.drawn
                (own-remove (λ a. a.business_id) b c apart (λ a. a.id == id) db.customers))
      ]

  pub invoice_row-Same :
      (id : Uuid) (patch : Invoices.UpdateInvoice F)
      → Keeps (Same c old) (Invoices.update_row b id patch)
  unfolding Invoices.update_row
  invoice_row-Same id patch = Keeps-Same c old (Invoices.update_row b id patch) λ db.
      elim (Option-cases (Invoices.find_by_id b id db)) [
        | inl missing ↦ rw (missing, Invoices.update_row) (Same-refl c db)
        | inr (x, found) ↦
            rw (found, Invoices.update_row)
              (invoices-Same c db _ db.drawn (
                own-update (λ a. a.business_id) b c apart (λ a. a.id == id)
                  (Invoices.apply_patch patch) (λ _. refl) db.invoices))
      ]

  pub appointment_row-Same :
      (id : Uuid) (patch : Appointments.UpdateAppointment)
      → Keeps (Same c old) (Appointments.update_row b id patch)
  unfolding Appointments.update_row
  appointment_row-Same id patch = Keeps-Same c old (Appointments.update_row b id patch) λ db.
      elim (Option-cases (Appointments.find_by_id b id db)) [
        | inl missing ↦ rw (missing, Appointments.update_row) (Same-refl c db)
        | inr (x, found) ↦
            rw (found, Appointments.update_row)
              (appointments-Same c db _ db.drawn (
                own-update (λ a. a.business_id) b c apart (λ a. a.id == id)
                  (Appointments.apply_patch patch) (λ _. refl) db.appointments))
      ]

  pub appointment_removed-Same : (id : Uuid) → Keeps (Same c old) (Appointments.delete_row b id)
  unfolding Appointments.delete_row
  appointment_removed-Same id = Keeps-Same c old (Appointments.delete_row b id) λ db.
      elim (Option-cases (Appointments.find_by_id b id db)) [
        | inl missing ↦ rw (missing, Appointments.delete_row) (Same-refl c db)
        | inr (x, found) ↦
            rw (found, Appointments.delete_row)
              (appointments-Same c db _ db.drawn
                (own-remove (λ a. a.business_id) b c apart (λ a. a.id == id) db.appointments))
      ]

  pub resource-Same :
      (env : Env) (dto : Resources.CreateResource F)
      → Keeps (Same c old) (Resources.create env b dto)
  unfolding Resources.create
  resource-Same env dto =
      Keeps-Same c old (Resources.create env b dto)
        λ db. resources-Same c db _ (suc db.drawn) (rw apart refl)

  pub customer-Same :
      (env : Env) (dto : Customers.CreateCustomer) → Keeps (Same c old) (Customers.create env b dto)
  unfolding Customers.create
  customer-Same env dto = Keeps-Same c old (Customers.create env b dto) λ db.
      elim (Bool-cases (env.writes_customers db.drawn)) [
        | inl writes ↦
            rw (writes, Customers.create) (customers-Same c db _ (suc db.drawn) (rw apart refl))
        | inr fails ↦
            rw (fails, Customers.create) (customers-Same c db db.customers (suc db.drawn) refl)
      ]
