-- ===== src/Tenancy/Bills.antt =====
-- The calls of src/invoice and the rows of another business.
use ventura_api.Common.{false, ◌≡◌, List, [], ◌∷◌, Uuid, ◌==◌}
use ventura_api.Common.Keeps.{Keeps, Keeps-pure, Keeps-raise, keeps_rules}
use ventura_api.Number.{Number}
use ventura_api.Db.{Db, Env}
use ventura_api.Tenancy.{Same}
use ventura_api.Tenancy.Rows.{invoice_row-Same}
use ventura_api.Tenancy.Writes.{
  invoice-Same, attach_invoice-Same, detach_invoice-Same, mail_invoice-Same,
}
use ventura_api.Order.Entity.{Order}
use ventura_api.Order.Service as Orders
use ventura_api.Invoice.Entity.{
  InvoiceStatus, draft, sent, paid, partially_paid, overdue, cancelled,
}
use ventura_api.Invoice.Service.{
  CreateInvoiceDto, create, first_order, check_orders, issue, get_by_id,
}
use ventura_api.Invoice.Lifecycle.{
  RecordPaymentDto, SendInvoiceDto, record_payment, send, release_orders, change_status,
  update_status,
}

module _ {F : Type 0} (b c : Uuid) (apart : (b == c) ≡ false) (old : Db F) where
  first_order-Same : (orders : List (Order F)) → Keeps (Same c old) (first_order orders)
  first_order-Same [] = Keeps-raise _
  first_order-Same (o ∷ orders) = Keeps-pure o

  pub send-Same :
      (env : Env) (id : Uuid) (dto : SendInvoiceDto) → Keeps (Same c old) (send env b id dto)
  unfolding send get_by_id
  send-Same env id dto =
      search (keeps_rules, mail_invoice-Same c old, invoice_row-Same b c apart old) depth 24

  release_orders-Same :
      (env : Env) (status : InvoiceStatus) (ids : List Uuid)
      → Keeps (Same c old) (release_orders {F = F} env b status ids)
  unfolding release_orders
  release_orders-Same env draft ids = Keeps-pure tt
  release_orders-Same env sent ids = Keeps-pure tt
  release_orders-Same env paid ids = Keeps-pure tt
  release_orders-Same env partially_paid ids = Keeps-pure tt
  release_orders-Same env overdue ids = Keeps-pure tt
  release_orders-Same env cancelled ids = detach_invoice-Same b c apart old env ids

  pub invoices_update_status-Same :
      (env : Env) (id : Uuid) (status : InvoiceStatus)
      → Keeps (Same c old) (update_status env b id status)
  unfolding update_status change_status get_by_id
  invoices_update_status-Same env id status =
      search (keeps_rules, invoice_row-Same b c apart old, release_orders-Same) depth 24

module _ {F : Type 0} ⦃num : Number F⦄ (b c : Uuid) (apart : (b == c) ≡ false) (old : Db F) where
  pub record_payment-Same :
      (env : Env) (id : Uuid) (dto : RecordPaymentDto F)
      → Keeps (Same c old) (record_payment env b id dto)
  unfolding record_payment get_by_id
  record_payment-Same env id dto = search (keeps_rules, invoice_row-Same b c apart old) depth 20

  pub invoices_create-Same :
      (env : Env) (dto : CreateInvoiceDto) → Keeps (Same c old) (create env b dto)
  unfolding create check_orders issue Orders.find_by_ids_in_business
  invoices_create-Same env dto =
      search
        (
          keeps_rules,
          first_order-Same b c apart old,
          invoice-Same c old,
          attach_invoice-Same b c apart old,
        )
        depth 24
