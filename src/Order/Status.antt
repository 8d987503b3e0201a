-- ===== src/Order/Status.antt =====
-- `updateStatus` of src/order/application/order.service.ts.

use ventura_api.Common.{
  Bool, true, false, not, none, some, String, List, [], ◌∷◌, Uuid, if◌then◌else◌, or_default,
  is_some,
}
use ventura_api.Common.Action.{◌>>=◌, ◌>>◌, pure, raise_if, bad_request}
use ventura_api.Db.{Env, Service}
use ventura_api.Resource.Entity.{is_product}
use ventura_api.Order.Entity.{
  OrderStatus, pending, completed, cancelled, same_status, OrderItem, Order,
}
use ventura_api.Order.Repository
use ventura_api.Order.Repository.{UpdateOrder}
use ventura_api.Common.Text.{◌<>◌}
use ventura_api.Order.Service.{Taken, base_units, restore_stock, get_by_id}

-- `ORDER_TRANSITIONS[from].includes(to)`
unfoldable pub allowed : OrderStatus → OrderStatus → Bool
allowed pending completed = true
allowed pending cancelled = true
allowed completed cancelled = true
allowed _ _ = false

abbrev status_text : OrderStatus → String
status_text pending = "pending"
status_text completed = "completed"
status_text cancelled = "cancelled"

abbrev pub no_transition : OrderStatus → OrderStatus → String
no_transition from to =
    "Cannot change order status from " <> status_text from <> " to " <> status_text to <> "."

module _ {F : Type 0} where
  -- the product lines of an order, in base units
  unfoldable pub product_lines : List (OrderItem F) → List Taken
  product_lines [] = []
  product_lines (item ∷ items) =
      let rest = product_lines items in
      if is_product item.type
      then record { resource_id = item.resource_id; quantity = base_units item } ∷ rest
      else rest

  -- what cancelling does before the status is written
  unfoldable pub release : Env → Uuid → Order F → OrderStatus → Service F (Unit {0})
  release env business_id order cancelled = do
    raise_if (is_some order.invoice_id)
        (bad_request "Cannot cancel an order that is on an invoice; cancel the invoice first.")
    restore_stock env business_id (product_lines order.items)
  release env business_id order _ = pure tt

  abbrev pub to_status : OrderStatus → UpdateOrder F
  to_status status = record {
    status = some status;
    items = none;
    total_amount = none;
    invoice_id = none;
  }

  unfoldable pub change_status : Env → Uuid → Uuid → Order F → OrderStatus → Service F (Order F)
  change_status env business_id order_id order status = do
    raise_if (not (allowed order.status status)) (bad_request (no_transition order.status status))
    release env business_id order status
    updated ← Repository.update_row env business_id order_id (to_status status)
    pure (or_default updated order)

  unfoldable pub update_status : Env → Uuid → Uuid → OrderStatus → Service F (Order F)
  update_status env business_id order_id status = do
    order ← get_by_id business_id order_id
    if same_status order.status status
        then pure order
        else change_status env business_id order_id order status
