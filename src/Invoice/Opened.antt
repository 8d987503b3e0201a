-- ===== src/Invoice/Opened.antt =====
-- The invariant of payments under `create` of src/invoice/application/invoice.service.ts.
use mathlib.Core.Path.{subst}
use ventura_api.Common.{◌≡◌, sym, ap, not, ◌||◌, false, List, Uuid, All, inl, inr}
use ventura_api.Common.Action.{Result, ok, err}
use ventura_api.Number.{Number, of_nat}
use ventura_api.Db.{Db, Env}
use ventura_api.Order.Entity.{Order}
use ventura_api.Order.Repository as Orders
use ventura_api.Invoice.Entity.{paid, same_status, Invoice}
use ventura_api.Invoice.Tax.{breakdown, sum_orders}
use ventura_api.Invoice.Service.{CreateInvoiceDto, create}
use ventura_api.Invoice.Settled.{IsSettled}
use ventura_api.Invoice.Issue.{Drafted, Issued, create-Issued}

module _ {F : Type 0} ⦃num : Number F⦄ where
  Drafted-IsSettled :
      (b : Uuid) (ids : List Uuid) (orders : List (Order F)) (db : Db F) (i : Invoice F)
      (db' : Db F)
      → Drafted b ids orders db i db'
      → num.gt (of_nat 0) (breakdown (sum_orders (of_nat 0) orders)).total_amount ≡ false
      → All IsSettled db.invoices
      → All IsSettled db'.invoices
  Drafted-IsSettled b ids orders db i db' h positive k = subst (All IsSettled) (sym h.4) (
    record {
      covered = rw (h.2.1, h.3) positive;
      full = ap (λ s. not (same_status s paid) || num.ge i.amount_paid i.total_amount) h.2.0;
    },
    k,
  )

  Issued-IsSettled :
      (env : Env) (b : Uuid) (ids : List Uuid) (orders : List (Order F)) (db : Db F)
      (x : Result (Invoice F) × Db F)
      → Issued env b ids orders db x
      → num.gt (of_nat 0) (breakdown (sum_orders (of_nat 0) orders)).total_amount ≡ false
      → All IsSettled db.invoices
      → All IsSettled x.1.invoices
  Issued-IsSettled env b ids orders db (ok i, db') h positive k =
      Drafted-IsSettled b ids orders db i db' h.0 positive k
  Issued-IsSettled env b ids orders db (err e, db') (inl h) positive k =
      subst (λ s. All IsSettled s.invoices) (sym h.1) k
  Issued-IsSettled env b ids orders db (err e, db') (inr h) positive k =
      Drafted-IsSettled b ids orders db h.1.0 db' h.1.1 positive k

  -- If every invoice is settled (not overpaid, and paid in full if it is PAID) and zero does not
  -- exceed the total that the tax breakdown gives for the orders, then every invoice is settled after
  -- `create` of an invoice, successful or not.
  pub create-IsSettled :
      (env : Env) (b : Uuid) (dto : CreateInvoiceDto) (db : Db F)
      → num.gt
          (of_nat 0)
          (breakdown (sum_orders (of_nat 0) (Orders.find_by_ids b dto.order_ids db))).total_amount
        ≡ false
      → All IsSettled db.invoices
      → All IsSettled (create env b dto db).1.invoices
  create-IsSettled env b dto db positive h =
      Issued-IsSettled env b dto.order_ids (Orders.find_by_ids b dto.order_ids db) db
        (create env b dto db) (create-Issued env b dto db) positive h
