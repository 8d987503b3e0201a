-- ===== src/Invoice/Repository.antt =====
-- src/invoice/infrastructure/postgres-invoice.repository.ts
use ventura_api.Common.{
  ℕ, suc, Bool, true, false, ◌&&◌, Option, none, some, String, List, [], ◌∷◌, Uuid, Time, find,
  filter, update, update_all, count, take, ◌==◌, ltb, leb, if◌then◌else◌, or_default, patched,
}
use ventura_api.Common.Action.{ok}
use ventura_api.Number.{Number, of_nat}
use ventura_api.Db.{Db, Env, Service}
use ventura_api.Invoice.Entity.{
  InvoiceStatus, draft, sent, partially_paid, overdue, InvoiceType, PaymentMethod, Invoice,
}

-- `ICreateInvoice`
pub record CreateInvoice (F : Type 0) : Type 0 where
  pub business_id : Uuid
  pub order_ids : List Uuid
  pub customer_id : Option Uuid
  pub customer_name : Option String
  pub customer_email : Option String
  pub customer_phone : Option String
  pub invoice_type : InvoiceType
  pub subtotal : F
  pub vat_rate : F
  pub vat_amount : F
  pub nhil_rate : F
  pub nhil_amount : F
  pub getfund_rate : F
  pub getfund_amount : F
  pub total_tax : F
  pub total_amount : F
  pub issue_date : Option Time
  pub due_date : Option Time
  pub notes : Option String

-- `IUpdateInvoice`: a field that is `none` is not written
pub record UpdateInvoice (F : Type 0) : Type 0 where
  pub amount_paid : Option F
  pub status : Option InvoiceStatus
  pub payment_method : Option PaymentMethod
  pub payment_date : Option Time
  pub sent_at : Option Time

module _ {F : Type 0} ⦃num : Number F⦄ where
  -- a new row: nothing is paid and the status is DRAFT (postgres.invoice-entity.ts)
  abbrev pub new_row : Env → CreateInvoice F → Db F → Invoice F
  new_row env d db = record {
    id = env.uuid db.drawn;
    invoice_number = env.label db.drawn;
    business_id = d.business_id;
    order_ids = d.order_ids;
    customer_id = d.customer_id;
    customer_name = d.customer_name;
    customer_email = d.customer_email;
    customer_phone = d.customer_phone;
    invoice_type = d.invoice_type;
    subtotal = d.subtotal;
    vat_rate = d.vat_rate;
    vat_amount = d.vat_amount;
    nhil_rate = d.nhil_rate;
    nhil_amount = d.nhil_amount;
    getfund_rate = d.getfund_rate;
    getfund_amount = d.getfund_amount;
    total_tax = d.total_tax;
    total_amount = d.total_amount;
    amount_paid = of_nat 0;
    status = draft;
    payment_method = none;
    payment_date = none;
    issue_date = d.issue_date;
    due_date = d.due_date;
    sent_at = none;
    notes = d.notes;
  }

  -- a new row: nothing is paid and the status is DRAFT (postgres.invoice-entity.ts)
  unfoldable pub create : Env → CreateInvoice F → Service F (Invoice F)
  create env d db =
      let row = new_row env d db in
      (ok row, record db { invoices = row ∷ db.invoices; drawn = suc db.drawn })

-- `dueDate: { $lt: now }`, which a null date never meets
abbrev pub is_due : Time → Option Time → Bool
is_due now none = false
is_due now (some t) = ltb t now

abbrev pub awaits_payment : InvoiceStatus → Bool
awaits_payment sent = true
awaits_payment partially_paid = true
awaits_payment _ = false

module _ {F : Type 0} where
  -- `{ id, businessId }`
  abbrev pub at : Uuid → Uuid → Invoice F → Bool
  at business_id id i = i.id == id && i.business_id == business_id

  abbrev pub find_by_id : Uuid → Uuid → Db F → Option (Invoice F)
  find_by_id business_id id db = find (at business_id id) db.invoices

  abbrev pub apply_patch : UpdateInvoice F → Invoice F → Invoice F
  apply_patch p i = record i {
    amount_paid = or_default p.amount_paid i.amount_paid;
    status = or_default p.status i.status;
    payment_method = patched p.payment_method i.payment_method;
    payment_date = patched p.payment_date i.payment_date;
    sent_at = patched p.sent_at i.sent_at;
  }

  unfoldable pub update_row : Uuid → Uuid → UpdateInvoice F → Service F (Option (Invoice F))
  update_row business_id id patch db = elim (find_by_id business_id id db) [
    | none ↦ (ok none, db)
    | some i ↦ (
      ok (some (apply_patch patch i)),
      record db { invoices = update (at business_id id) (apply_patch patch) db.invoices },
    )
  ]

  abbrev pub is_late : Time → Invoice F → Bool
  is_late now i = awaits_payment i.status && is_due now i.due_date

  abbrev pub set_overdue : Invoice F → Invoice F
  set_overdue i = record i { status = overdue }

  -- every late invoice, of all businesses; the result is how many
  unfoldable pub mark_overdue : Time → Service F ℕ
  mark_overdue now db = (
    ok (count (is_late now) db.invoices),
    record db { invoices = update_all (is_late now) set_overdue db.invoices },
  )

  -- the latest invoices of a business
  unfoldable pub recent : Uuid → ℕ → Db F → List (Invoice F)
  recent business_id limit db = take limit (filter (λ i. i.business_id == business_id) db.invoices)

-- `payment_date >= from`, `payment_date < to`, each if it is given; a null date meets neither
abbrev pub since : Option Time → Option Time → Bool
since none date = true
since (some from) none = false
since (some from) (some t) = leb from t

abbrev pub before : Option Time → Option Time → Bool
before none date = true
before (some to) none = false
before (some to) (some t) = ltb t to

module _ {F : Type 0} ⦃num : Number F⦄ where
  abbrev pub paid_in : Uuid → Option Time → Option Time → Invoice F → Bool
  paid_in business_id from to i =
      i.business_id == business_id
      && num.gt i.amount_paid (of_nat 0)
      && since from i.payment_date
      && before to i.payment_date

  -- the sum that PostgreSQL takes, added from the oldest row
  unfoldable pub sum_paid : Uuid → Option Time → Option Time → List (Invoice F) → F
  sum_paid business_id from to [] = of_nat 0
  sum_paid business_id from to (i ∷ rows) =
      let rest = sum_paid business_id from to rows in
      if paid_in business_id from to i then num.add rest i.amount_paid else rest
