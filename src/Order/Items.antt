-- ===== src/Order/Items.antt =====
-- `updateItems` of src/order/application/order.service.ts: the lines of a pending order are replaced
-- and the reserved stock follows by the difference.
use ventura_api.Common.{
  ℕ, zero, suc, ◌-◌, Bool, true, false, not, ◌&&◌, none, some, String, List, [], ◌∷◌, ◌++◌, Uuid,
  ltb, if◌then◌else◌, or_default, is_some,
}
use ventura_api.Common.Int.{pos, negsuc, ◌-ℤ◌}
use ventura_api.Common.Action.{◌>>=◌, ◌>>◌, pure, raise, raise_if, catch, bad_request, conflict}
use ventura_api.Number.{Number}
use ventura_api.Db.{Env, Service}
use ventura_api.Resource.Entity.{is_product}
use ventura_api.Resource.Repository.{decrement_stock, increment_stock}
use ventura_api.Order.Entity.{OrderStatus, pending, OrderItem, Order}
use ventura_api.Order.Quantities.{Map, get, set, keys, quantity_of, add_quantity, union}
use ventura_api.Order.Repository
use ventura_api.Order.Service.{
  CreateOrderItem, Applied, base_units, insufficient_stock, build_items, total, get_by_id,
}

abbrev pub is_pending : OrderStatus → Bool
is_pending pending = true
is_pending _ = false

module _ {F : Type 0} where
  -- the reserved product stock of an order's lines, by product
  unfoldable pub quantities_from : Map ℕ → List (OrderItem F) → Map ℕ
  quantities_from m [] = m
  quantities_from m (item ∷ items) =
      quantities_from
        (if is_product item.type then add_quantity item.resource_id (base_units item) m else m)
        items

  -- names for the error message: the last one among the new lines
  unfoldable pub names_from : Map String → List (OrderItem F) → Map String
  names_from m [] = m
  names_from m (item ∷ items) =
      names_from (if is_product item.type then set item.resource_id item.name m else m) items

  -- or else the first one among the old lines
  unfoldable pub more_names : Map String → List (OrderItem F) → Map String
  more_names m [] = m
  more_names m (item ∷ items) =
      more_names
        (if is_product item.type && not (is_some (get item.resource_id m))
          then set item.resource_id item.name m
          else m)
        items

  unfoldable pub undo : Env → Uuid → Applied → Service F (Unit {0})
  undo env business_id a = elim a.quantity [
    | pos zero ↦ decrement_stock env business_id a.resource_id 0 >> pure tt
    | pos (suc n) ↦ increment_stock env business_id a.resource_id (suc n)
    | negsuc n ↦ decrement_stock env business_id a.resource_id (suc n) >> pure tt
  ]

  unfoldable pub rollback : Env → Uuid → List Applied → Service F (Unit {0})
  rollback env business_id [] = pure tt
  rollback env business_id (a ∷ applied) = do
    undo env business_id a
    rollback env business_id applied

  abbrev pub rejected : Env → Uuid → List Applied → String → Service F (List Applied)
  rejected env business_id applied name = do
    rollback env business_id applied
    raise (conflict (insufficient_stock name))

  -- one round of the loop of `updateItems`: takes or gives back the difference
  unfoldable pub reconcile_one :
      Env → Uuid → Map String → Map ℕ → Map ℕ → Uuid → List Applied → Service F (List Applied)
  reconcile_one env business_id names old new resource_id applied =
      let before = quantity_of resource_id old in
      let after = quantity_of resource_id new in
      if ltb before after
      then (do
        enough ← decrement_stock env business_id resource_id (after - before)
        if enough
            then pure (
                applied
                ++ record { resource_id = resource_id; quantity = pos after -ℤ pos before } ∷ [])
            else rejected env business_id applied (or_default (get resource_id names) ""))
      else (if ltb after before
          then (do
            increment_stock env business_id resource_id (before - after)
            pure (
                applied
                ++ record { resource_id = resource_id; quantity = pos after -ℤ pos before } ∷ []))
          else pure applied)

  unfoldable pub reconcile :
      Env → Uuid → Map String → Map ℕ → Map ℕ → List Uuid → List Applied → Service F (List Applied)
  reconcile env business_id names old new [] applied = pure applied
  reconcile env business_id names old new (r ∷ ids) applied = do
    applied' ← reconcile_one env business_id names old new r applied
    reconcile env business_id names old new ids applied'

module _ {F : Type 0} ⦃num : Number F⦄ where
  -- the part of `updateItems` after the lines are validated
  unfoldable pub replace_items :
      Env → Uuid → Uuid → Order F → List (OrderItem F) → Service F (Order F)
  replace_items env business_id order_id order items = do
    let old = quantities_from [] order.items
    let new = quantities_from [] items
    let names = more_names (names_from [] items) order.items
    applied ← reconcile env business_id names old new (union (keys old) (keys new)) []
    catch
        (do
          updated ← Repository.update_row env business_id order_id (record {
            status = none;
            items = some items;
            total_amount = some (total items);
            invoice_id = none;
          })
          pure (or_default updated order))
        (λ e. rollback env business_id applied >> raise e)

  unfoldable pub update_items : Env → Uuid → Uuid → List CreateOrderItem → Service F (Order F)
  update_items env business_id order_id lines = do
    order ← get_by_id business_id order_id
    raise_if (not (is_pending order.status)) (bad_request "Only pending orders can be edited.")
    items ← build_items business_id lines
    replace_items env business_id order_id order items
