-- ===== src/Tests/Billing.antt =====
-- The theorems on the status of orders, on invoices and on customers at work on the sample shop.
use ventura_api.Common.{length, true, List, All, ℕ, ◌+◌, ◌*◌, ◌≤◌, ◌≡◌, refl, some, none, [], ◌∷◌}
use ventura_api.Common.Int.{pos}
use ventura_api.Common.Action.{err, conflict}
use ventura_api.Number.Decimal.{Decimal, decimal_number, cents}
use ventura_api.Db.{Db}
use ventura_api.Resource.Stock.{shift}
use ventura_api.Order.Entity.{completed, cancelled}
use ventura_api.Order.Repository as Orders
use ventura_api.Order.Status.{update_status}
use ventura_api.Order.Reserve.{order_amount}
use ventura_api.Order.Conserve.{held}
use ventura_api.Order.Transitions.{Stepped, update_status-Stepped, cancel-unwritten}
use ventura_api.Invoice.Entity.{InvoiceStatus, Invoice}
use ventura_api.Invoice.Repository
use ventura_api.Invoice.Lifecycle as Invoices
use ventura_api.Invoice.Tax.{breakdown}
use ventura_api.Invoice.Tax.Bounds.{breakdown_bounds}
use ventura_api.Invoice.Service.{CreateInvoiceDto, create}
use ventura_api.Invoice.Issue.{Issued, create-Issued}
use ventura_api.Invoice.Cancel.{Cancelled, update_status-Cancelled, create-cancel}
use ventura_api.Customer.Repository.{CreateCustomer, UpdateCustomer}
use ventura_api.Customer.Service as Customers
use ventura_api.Customer.Distinct.{IsDistinct, Imported, bulk_create-Imported}
use ventura_api.Customer.History.{Call, add, import_all, edit, drop, run, run-IsDistinct}
use ventura_api.Db.{Env}
use ventura_api.Samples.{shop, env, broken_env, open_order, billed}

update_status-Stepped_example : Stepped 7 20 open_order (update_status env 7 20 completed shop).1
update_status-Stepped_example = update_status-Stepped env 7 20 completed open_order shop refl

cancel-unwritten_example :
    held 7 1 (update_status broken_env 7 20 cancelled shop).1
    ≡ shift (pos (order_amount 7 1 open_order)) (held 7 1 shop)
cancel-unwritten_example = cancel-unwritten 7 1 broken_env 7 20 open_order shop refl refl refl refl

breakdown_bounds_example :
    let b = breakdown (cents 9_999) in
    (v : ℕ) × (n : ℕ) × (g : ℕ) × (b.subtotal ≡ cents 9_999)
    × (b.nhil_amount ≡ cents n)
    × (b.getfund_amount ≡ cents g)
    × (b.vat_amount ≡ cents v)
    × (b.total_tax ≡ cents (v + n + g))
    × (b.total_amount ≡ cents (9_999 + v + n + g))
    × ((1_000 * n ≤ 25 * 9_999 + 500) × (25 * 9_999 ≤ 1_000 * n + 500))
    × ((1_000 * g ≤ 25 * 9_999 + 500) × (25 * 9_999 ≤ 1_000 * g + 500))
    × ((100 * v ≤ 15 * (9_999 + n + g) + 50) × (15 * (9_999 + n + g) ≤ 100 * v + 50))
    × ((10_000 * (v + n + g) ≤ 2_075 * 9_999 + 16_500)
        × (2_075 * 9_999 ≤ 10_000 * (v + n + g) + 16_500))
breakdown_bounds_example = breakdown_bounds 9_999

abbrev bill : CreateInvoiceDto
bill = record { order_ids = 20 ∷ []; invoice_type = none; due_date = some 2_000; notes = none }

create-Issued_example :
    Issued env 7 (20 ∷ []) (Orders.find_by_ids 7 (20 ∷ []) shop) shop (create env 7 bill shop)
create-Issued_example = create-Issued env 7 bill shop

update_status-Cancelled_example :
    Cancelled true 7 30
      (billed 30 InvoiceStatus.sent 5_000)
      shop
      (Invoices.update_status env 7 30 InvoiceStatus.cancelled shop)
update_status-Cancelled_example =
    update_status-Cancelled env 7 30 (billed 30 InvoiceStatus.sent 5_000) shop refl refl

-- The invoice that could not be linked stays in the table.
unlinked_invoice :
    let x = create broken_env 7 bill shop in (length x.1.invoices ≡ 3) × (x.1.orders ≡ shop.orders)
unfolding create ventura_api.Order.Service.find_by_ids_in_business
    ventura_api.Invoice.Service.check_orders ventura_api.Invoice.Service.issue Repository.create
    Orders.attach_invoice
unlinked_invoice = (refl, refl)

abbrev issued : Invoice Decimal
issued = record (billed 100 InvoiceStatus.draft 0) {
  invoice_number = "NUM";
  order_ids = 20 ∷ [];
  issue_date = some 1_000;
  due_date = some 2_000;
}

abbrev issued_shop : Db Decimal
issued_shop = record shop {
  orders = record open_order { invoice_id = some 100 } ∷ [];
  invoices = issued ∷ shop.invoices;
  drawn = 1;
}

create-cancel_example :
    (Invoices.update_status env 7 100 InvoiceStatus.cancelled issued_shop).1.orders ≡ shop.orders
unfolding create ventura_api.Order.Service.find_by_ids_in_business
    ventura_api.Invoice.Service.check_orders ventura_api.Invoice.Service.issue Repository.create
    Orders.attach_invoice breakdown ventura_api.Number.round2 ventura_api.Invoice.Tax.sum_orders
create-cancel_example = create-cancel env env 7 bill issued shop issued_shop refl refl

abbrev kofi : CreateCustomer
kofi = record { name = "Kofi"; email = some "kofi@shop.gh"; phone = none; notes = none }

-- Ama again, in capitals
abbrev ama_again : CreateCustomer
ama_again = record { name = "Ama"; email = some "AMA@shop.gh"; phone = none; notes = none }

abbrev capitals : UpdateCustomer
capitals = record { name = none; email = some (some "AMA@shop.gh"); phone = none; notes = none }

abbrev changes : List (Env × Call)
changes =
    (env, add 7 kofi)
    ∷ (env, edit 7 5 capitals)
    ∷ (env, import_all 7 (kofi ∷ kofi ∷ []))
    ∷ (env, drop 7 5)
    ∷ []

run-IsDistinct_example : IsDistinct (run changes shop).customers
run-IsDistinct_example = run-IsDistinct changes shop (refl, tt)

-- The customer's own address is taken, up to case.
capitals-refused :
    (Customers.update 7 5 capitals shop).0
    ≡ err (conflict "A customer with this email already exists.")
unfolding Customers.update Customers.get_by_id ventura_api.Common.Like.ilike
    ventura_api.Common.Like.escape_like
capitals-refused = refl

bulk_create-Imported_example :
    Imported 3 (Customers.bulk_create env 7 (kofi ∷ ama_again ∷ kofi ∷ []) shop)
bulk_create-Imported_example =
    bulk_create-Imported env 7 (kofi ∷ ama_again ∷ kofi ∷ []) shop (refl, tt)
