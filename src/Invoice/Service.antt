-- ===== src/Invoice/Service.antt =====
-- `create` of src/invoice/application/invoice.service.ts.
use ventura_api.Common.{
  Bool, true, false, not, ◌||◌, Option, some, String, List, [], ◌∷◌, Uuid, Time, length, mem, ◌==◌,
  ltb, if◌then◌else◌, or_default, is_some,
}
use ventura_api.Common.Action.{
  ◌>>=◌, ◌>>◌, pure, raise, gets, or_raise, raise_if, not_found, bad_request, conflict, internal,
}
use ventura_api.Number.{Number, of_nat}
use ventura_api.Db.{Env, Service}
use ventura_api.Order.Entity.{OrderStatus, Order}
use ventura_api.Order.Service.{find_by_ids_in_business}
use ventura_api.Order.Repository as Orders
use ventura_api.Invoice.Entity.{InvoiceType, standard, Invoice}
use ventura_api.Invoice.Repository
use ventura_api.Invoice.Repository.{CreateInvoice}
use ventura_api.Invoice.Tax.{vat_rate, nhil_rate, getfund_rate, Breakdown, breakdown, sum_orders}

-- `CreateInvoiceDto`
pub record CreateInvoiceDto : Type 0 where
  pub order_ids : List Uuid
  pub invoice_type : Option InvoiceType
  pub due_date : Option Time
  pub notes : Option String

abbrev pub is_cancelled : OrderStatus → Bool
is_cancelled OrderStatus.cancelled = true
is_cancelled _ = false

-- `new Set(ids)`
abbrev pub set_of : List Uuid → List Uuid
set_of [] = []
set_of (i ∷ ids) = let rest = set_of ids in if mem i rest then rest else i ∷ rest

module _ {F : Type 0} where
  abbrev pub any_invoiced : List (Order F) → Bool
  any_invoiced [] = false
  any_invoiced (o ∷ orders) = is_some o.invoice_id || any_invoiced orders

  abbrev pub any_cancelled : List (Order F) → Bool
  any_cancelled [] = false
  any_cancelled (o ∷ orders) = is_cancelled o.status || any_cancelled orders

  abbrev pub customer_ids : List (Order F) → List Uuid
  customer_ids [] = []
  customer_ids (o ∷ orders) = o.customer_id ∷ customer_ids orders

  -- the checks of the orders that are to be invoiced
  unfoldable pub check_orders : List Uuid → List (Order F) → Service F (Unit {0})
  check_orders ids orders = do
    raise_if (not (length orders == length ids))
        (not_found "One or more orders were not found in this business.")
    raise_if (any_invoiced orders) (conflict "One or more orders are already on an invoice.")
    raise_if (any_cancelled orders)
        (bad_request "One or more orders are cancelled and cannot be invoiced.")
    raise_if (ltb 1 (length (set_of (customer_ids orders))))
        (bad_request "All orders on an invoice must belong to the same customer.")

  -- `orders[0]`, which is read for its customer
  abbrev pub first_order : List (Order F) → Service F (Order F)
  first_order [] = raise (internal "Cannot read properties of undefined")
  first_order (o ∷ orders) = pure o

module _ {F : Type 0} ⦃num : Number F⦄ where
  abbrev pub new_invoice : Env → Uuid → CreateInvoiceDto → Order F → Breakdown F → CreateInvoice F
  new_invoice env business_id dto first b = record {
    business_id = business_id;
    order_ids = dto.order_ids;
    customer_id = some first.customer_id;
    customer_name = some first.customer_name;
    customer_email = first.customer_email;
    customer_phone = first.customer_phone;
    invoice_type = or_default dto.invoice_type standard;
    subtotal = b.subtotal;
    vat_rate = vat_rate;
    vat_amount = b.vat_amount;
    nhil_rate = nhil_rate;
    nhil_amount = b.nhil_amount;
    getfund_rate = getfund_rate;
    getfund_amount = b.getfund_amount;
    total_tax = b.total_tax;
    total_amount = b.total_amount;
    issue_date = some env.now;
    due_date = dto.due_date;
    notes = dto.notes;
  }

  -- the part of `create` after the orders are checked
  unfoldable pub issue : Env → Uuid → CreateInvoiceDto → List (Order F) → Service F (Invoice F)
  issue env business_id dto orders = do
    first ← first_order orders
    invoice ←
        Repository.create env
          (new_invoice env business_id dto first (breakdown (sum_orders (of_nat 0) orders)))
    Orders.attach_invoice env business_id dto.order_ids invoice.id
    pure invoice

  unfoldable pub create : Env → Uuid → CreateInvoiceDto → Service F (Invoice F)
  create env business_id dto = do
    orders ← find_by_ids_in_business business_id dto.order_ids
    check_orders dto.order_ids orders
    issue env business_id dto orders

module _ {F : Type 0} where
  unfoldable pub get_by_id : Uuid → Uuid → Service F (Invoice F)
  get_by_id business_id invoice_id = do
    invoice ← gets (Repository.find_by_id business_id invoice_id)
    or_raise invoice (not_found "Invoice not found.")
