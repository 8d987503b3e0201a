-- ===== src/Tests.antt =====
-- The theorems at work on the sample shop, and runs of the operations on it.
mod Accounts
mod Billing
mod Calendar
mod Files
mod Lists
mod Orders
mod Reports
mod Requests
mod Setup
use Prim.Native.Nat.{min}
use ventura_api.Common.{
  ℕ, suc, ◌<◌, ◌+◌, ◌-◌, ◌*◌, ◌/◌, ◌%◌, ◌≤◌, ◌≡◌, refl, true, false, none, some, List, [], ◌∷◌, All,
  arith, get_elem?, length,
}
use ventura_api.Common.Int.{pos, negsuc, ◌-ℤ◌}
use ventura_api.Common.Action.{ok}
use ventura_api.Number.Decimal.{Decimal, decimal_number, cents}
use ventura_api.Paging.{normalize_paging, paged}
use ventura_api.Paging.Laws.{normalize_paging_bounds, paged_lem, row_on_page}
use ventura_api.Resource.Entity.{restock}
use ventura_api.Resource.Repository.{RecordAdjustment, record_adjustment, increment_stock}
use ventura_api.Resource.Stock.{stock_of, if_product, Shifts}
use ventura_api.Resource.Adjust.{Adjusted, record_adjustment-Adjusted, increment_stock-ok}
use ventura_api.Resource.Nonneg.{IsStocked, record_adjustment-IsStocked}
use ventura_api.Order.Entity.{cancelled}
use ventura_api.Order.Service.{create, build_items}
use ventura_api.Order.Status.{update_status}
use ventura_api.Order.Create.{Created, create-Created}
use ventura_api.Order.Conserve.{held, create-held, update_status-held}
use ventura_api.Invoice.Entity.{cash, overdue}
use ventura_api.Invoice.Lifecycle.{
  RecordPaymentDto, SendInvoiceDto, record_payment, send, overdue_task,
}
use ventura_api.Invoice.Lifecycle as Invoices
use ventura_api.Invoice.Settled.{IsSettled, record_payment-IsSettled, send-IsSettled}
use ventura_api.Invoice.Status.{update_status-IsSettled, overdue_task-IsSettled}
use ventura_api.Samples.{shop, env, broken_env, basket, big_basket}

create-Created_example : Created 7 1 7 shop (create env 7 basket shop)
create-Created_example = create-Created 7 1 env 7 basket shop

abbrev delivery : RecordAdjustment
delivery = record {
  business_id = 7;
  resource_id = 1;
  delta = pos 12;
  reason = restock;
  note = none;
  created_by = some 9;
}

record_adjustment-Adjusted_example :
    Adjusted 7 1 delivery shop (record_adjustment env delivery shop)
record_adjustment-Adjusted_example = record_adjustment-Adjusted 7 1 env delivery shop

abbrev seven : List ℕ
seven = 1 ∷ 2 ∷ 3 ∷ 4 ∷ 5 ∷ 6 ∷ 7 ∷ []

paged_lem_example :
    let r = paged (some (pos 2)) (some (pos 3)) seven in
    (r.meta.total ≡ length seven)
    × (r.meta.total ≤ r.meta.total_pages * r.meta.limit)
    × (r.meta.total_pages * r.meta.limit < r.meta.total + r.meta.limit)
    × (length r.rows ≡ min r.meta.limit (r.meta.total - (r.meta.page - 1) * r.meta.limit))
paged_lem_example = paged_lem (some (pos 2)) (some (pos 3)) seven

-- The order takes 12 + 2 bottles; the one that is too big gives the 12 back; cancelling does too.
basket_stock :
    let db = (create env 7 basket shop).1 in
    let back = (create env 7 big_basket shop).1 in
    let undone = (update_status env 7 20 cancelled shop).1 in
    (stock_of 7 1 db ≡ some (pos 18))
    × (stock_of 7 2 db ≡ some (pos 2))
    × (stock_of 7 1 back ≡ some (pos 30))
    × (stock_of 7 1 undone ≡ some (pos 42))
unfolding ventura_api.Common.Int.◌+ℤ◌ ◌-ℤ◌ update_status ventura_api.Order.Service.get_by_id
    ventura_api.Order.Status.change_status ventura_api.Order.Status.allowed
    ventura_api.Order.Status.release ventura_api.Order.Service.restore_stock
    ventura_api.Order.Status.product_lines increment_stock record_adjustment
    ventura_api.Order.Repository.update_row create ventura_api.Customer.Service.get_by_id
    build_items ventura_api.Order.Service.build_item ventura_api.Resource.Service.get_by_id
    ventura_api.Order.Service.resolve_unit ventura_api.Order.Service.place
    ventura_api.Order.Service.reserve ventura_api.Order.Service.reserve_line
    ventura_api.Resource.Repository.decrement_stock ventura_api.Order.Service.store_order
    ventura_api.Order.Repository.create
basket_stock = (refl, refl, refl, refl)

-- If the status cannot be written, the stock of the order has been given back all the same.
broken_cancel :
    let db = (update_status broken_env 7 20 cancelled shop).1 in
    (held 7 1 shop ≡ some (pos 42)) × (held 7 1 db ≡ some (pos 54))
unfolding ventura_api.Common.Int.◌+ℤ◌ update_status ventura_api.Order.Service.get_by_id
    ventura_api.Order.Status.change_status ventura_api.Order.Status.allowed
    ventura_api.Order.Status.release ventura_api.Order.Service.restore_stock
    ventura_api.Order.Status.product_lines increment_stock record_adjustment
    ventura_api.Order.Repository.update_row
broken_cancel = (refl, refl)
