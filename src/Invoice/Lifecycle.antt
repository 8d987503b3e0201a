-- ===== src/Invoice/Lifecycle.antt =====
-- Payments, sending and the status of an invoice, in
-- src/invoice/application/invoice.service.ts and invoice-overdue.task.ts.
use ventura_api.Common.{
  ℕ, Bool, true, false, not, ◌&&◌, Option, none, some, String, List, ◌∷◌, Uuid, Time, if◌then◌else◌,
  or_default,
}
use ventura_api.Common.Text.{truthy, canonical, same_codes}
use ventura_api.Common.Action.{
  ◌>>=◌, ◌>>◌, pure, or_raise, raise_if, modify, not_found, bad_request,
}
use ventura_api.Number.{Number, round2}
use ventura_api.Db.{Env, Service}
use ventura_api.Order.Repository as Orders
use ventura_api.Common.Text.{◌<>◌}
use ventura_api.Invoice.Entity.{
  InvoiceStatus, draft, sent, paid, partially_paid, overdue, cancelled, same_status, PaymentMethod,
  Invoice,
}
use ventura_api.Invoice.Repository
use ventura_api.Invoice.Repository.{UpdateInvoice}
use ventura_api.Invoice.Service.{get_by_id}

-- `RecordPaymentDto`
pub record RecordPaymentDto (F : Type 0) : Type 0 where
  pub amount : F
  pub payment_method : PaymentMethod
  pub payment_date : Option Time

-- `SendInvoiceDto`; the message only goes into the mail
pub record SendInvoiceDto : Type 0 where
  pub email : Option String
  pub message : Option String

module _ {F : Type 0} ⦃num : Number F⦄ where
  -- the status that a payment leaves
  abbrev pub paid_status : F → F → InvoiceStatus
  paid_status new_paid total_amount = if num.ge new_paid total_amount then paid else partially_paid

  abbrev pub payment_patch : Env → RecordPaymentDto F → F → F → UpdateInvoice F
  payment_patch env dto new_paid total_amount = record {
    amount_paid = some new_paid;
    status = some (paid_status new_paid total_amount);
    payment_method = some dto.payment_method;
    payment_date = some (or_default dto.payment_date env.now);
    sent_at = none;
  }

  unfoldable pub record_payment : Env → Uuid → Uuid → RecordPaymentDto F → Service F (Invoice F)
  unfolding round2
  record_payment env business_id invoice_id dto = do
    invoice ← get_by_id business_id invoice_id
    raise_if (same_status invoice.status cancelled) (bad_request "Cannot pay a cancelled invoice.")
    let new_paid = round2 (num.add invoice.amount_paid dto.amount)
    raise_if (num.gt new_paid invoice.total_amount)
        (bad_request "Payment exceeds the invoice total amount.")
    updated ←
        Repository.update_row business_id invoice_id
          (payment_patch env dto new_paid invoice.total_amount)
    pure (or_default updated invoice)

-- the address asked for is not the recipient's
abbrev pub other_address : Option String → String → Bool
other_address email recipient =
    truthy email && not (same_codes (canonical (or_default email "")) (canonical recipient))

abbrev pub sent_status : InvoiceStatus → InvoiceStatus
sent_status draft = sent
sent_status status = status

module _ {F : Type 0} where
  -- `mailService.sendInvoice`
  abbrev pub mail_invoice : String → String → Service F (Unit {0})
  mail_invoice recipient number =
      modify λ db. record db { mailed = (recipient, number) ∷ db.mailed }

  abbrev pub sent_patch : Env → InvoiceStatus → UpdateInvoice F
  sent_patch env status = record {
    amount_paid = none;
    status = some (sent_status status);
    payment_method = none;
    payment_date = none;
    sent_at = some env.now;
  }

  unfoldable pub send : Env → Uuid → Uuid → SendInvoiceDto → Service F (Invoice F)
  send env business_id invoice_id dto = do
    invoice ← get_by_id business_id invoice_id
    raise_if (same_status invoice.status cancelled) (bad_request "Cannot send a cancelled invoice.")
    raise_if (not (truthy invoice.customer_email))
        (bad_request "No recipient email for this invoice.")
    let recipient = or_default invoice.customer_email ""
    raise_if (other_address dto.email recipient) (
        bad_request
          "An invoice can only be sent to its customer's email address. Update the invoice to change the recipient.")
    mail_invoice recipient invoice.invoice_number
    updated ← Repository.update_row business_id invoice_id (sent_patch env invoice.status)
    pure (or_default updated invoice)

-- `INVOICE_TRANSITIONS[from].includes(to)`
unfoldable pub allowed : InvoiceStatus → InvoiceStatus → Bool
allowed draft sent = true
allowed draft cancelled = true
allowed sent overdue = true
allowed sent cancelled = true
allowed partially_paid overdue = true
allowed partially_paid cancelled = true
allowed overdue sent = true
allowed overdue cancelled = true
allowed paid cancelled = true
allowed _ _ = false

abbrev status_text : InvoiceStatus → String
status_text draft = "DRAFT"
status_text sent = "SENT"
status_text paid = "PAID"
status_text partially_paid = "PARTIALLY_PAID"
status_text overdue = "OVERDUE"
status_text cancelled = "CANCELLED"

abbrev pub no_transition : InvoiceStatus → InvoiceStatus → String
no_transition from to =
    "Cannot change invoice status from " <> status_text from <> " to " <> status_text to <> "."

abbrev pub is_payment_status : InvoiceStatus → Bool
is_payment_status paid = true
is_payment_status partially_paid = true
is_payment_status _ = false

module _ {F : Type 0} where
  abbrev pub to_status : InvoiceStatus → UpdateInvoice F
  to_status status = record {
    amount_paid = none;
    status = some status;
    payment_method = none;
    payment_date = none;
    sent_at = none;
  }

  -- a cancelled invoice lets go of its orders
  unfoldable pub release_orders : Env → Uuid → InvoiceStatus → List Uuid → Service F (Unit {0})
  release_orders env business_id cancelled order_ids =
      Orders.detach_invoice env business_id order_ids
  release_orders env business_id _ order_ids = pure tt

  unfoldable pub change_status :
      Env → Uuid → Uuid → Invoice F → InvoiceStatus → Service F (Invoice F)
  change_status env business_id invoice_id invoice status = do
    raise_if (is_payment_status status)
        (bad_request "Payment status is set by recording a payment, not directly.")
    raise_if (not (allowed invoice.status status))
        (bad_request (no_transition invoice.status status))
    found ← Repository.update_row business_id invoice_id (to_status status)
    updated ← or_raise found (not_found "Invoice not found.")
    release_orders env business_id status invoice.order_ids
    pure updated

  unfoldable pub update_status : Env → Uuid → Uuid → InvoiceStatus → Service F (Invoice F)
  update_status env business_id invoice_id status = do
    invoice ← get_by_id business_id invoice_id
    if same_status invoice.status status
        then pure invoice
        else change_status env business_id invoice_id invoice status

  -- the daily task: the number of invoices marked goes to the log
  unfoldable pub overdue_task : Env → Service F ℕ
  overdue_task env = Repository.mark_overdue env.now
