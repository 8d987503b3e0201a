-- ===== src/Order/Service.antt =====
-- src/order/application/order.service.ts
use ventura_api.Common.Text.{◌<>◌}
use ventura_api.Common.{
  ℕ, Bool, true, false, ◌*◌, not, ◌||◌, Option, none, some, String, List, [], ◌∷◌, ◌++◌, Uuid, find,
  if◌then◌else◌, or_default, str_eq,
}
use ventura_api.Common.Int.{ℤ}
use ventura_api.Common.Text.{truthy, is_text}
use ventura_api.Common.Action.{
  ◌>>=◌, ◌>>◌, pure, raise, gets, or_raise, catch, not_found, bad_request, conflict,
}
use ventura_api.Number.{Number, of_nat}
use ventura_api.Db.{Env, Service}
use ventura_api.Resource.Entity.{is_product, Resource}
use ventura_api.Resource.Repository.{decrement_stock, increment_stock}
use ventura_api.Resource.Service as Resources
use ventura_api.Customer.Service as Customers
use ventura_api.Customer.Entity.{Customer}
use ventura_api.Order.Entity.{pending, OrderItem, Order}
use ventura_api.Order.Repository
use ventura_api.Order.Repository.{CreateOrder, UpdateOrder}

-- `CreateOrderItemDto`
pub record CreateOrderItem : Type 0 where
  pub resource_id : Uuid
  pub quantity : ℕ
  pub unit : Option String

-- `CreateOrderDto`
pub record CreateOrderDto : Type 0 where
  pub customer_id : Uuid
  pub items : List CreateOrderItem

-- the unit that a line is sold in
pub record SellUnit (F : Type 0) : Type 0 where
  pub unit : String
  pub factor : ℕ
  pub price : F

-- stock taken from a product, in base units
pub record Taken : Type 0 where
  pub resource_id : Uuid
  pub quantity : ℕ

-- a change of a product's reserved stock, in base units
pub record Applied : Type 0 where
  pub resource_id : Uuid
  pub quantity : ℤ

abbrev unknown_unit : String → String → String
unknown_unit unit name = "Unknown unit \"" <> unit <> "\" for \"" <> name <> "\"."

abbrev pub insufficient_stock : String → String
insufficient_stock name = "Insufficient stock for \"" <> name <> "\"."

module _ {F : Type 0} where
  unfoldable pub resolve_unit : Resource F → Option String → Service F (SellUnit F)
  resolve_unit resource unit_name =
      if not (truthy unit_name) || is_text resource.base_unit (or_default unit_name "")
      then pure (record {
        unit = or_default resource.base_unit "unit";
        factor = 1;
        price = resource.price;
      })
      else elim (find (λ u. str_eq u.name (or_default unit_name "")) resource.units) [
        | none ↦ raise (bad_request (unknown_unit (or_default unit_name "") resource.name))
        | some u ↦ pure (record { unit = u.name; factor = u.factor; price = u.price })
      ]

  -- base units of a line
  abbrev pub base_units : OrderItem F → ℕ
  base_units item = item.quantity * item.unit_factor

module _ {F : Type 0} ⦃num : Number F⦄ where
  abbrev snapshot : Resource F → SellUnit F → ℕ → OrderItem F
  snapshot resource u quantity = record {
    resource_id = resource.id;
    type = resource.type;
    name = resource.name;
    price = u.price;
    quantity = quantity;
    unit = u.unit;
    unit_factor = u.factor;
    sub_total = num.mul u.price (of_nat quantity);
  }

  -- a line's resource and unit are resolved, and its snapshot is taken
  unfoldable pub build_item : Uuid → CreateOrderItem → Service F (OrderItem F)
  build_item business_id line = do
    resource ← Resources.get_by_id business_id line.resource_id
    u ← resolve_unit resource line.unit
    pure (snapshot resource u line.quantity)

  unfoldable pub build_items : Uuid → List CreateOrderItem → Service F (List (OrderItem F))
  build_items business_id [] = pure []
  build_items business_id (line ∷ lines) = do
    item ← build_item business_id line
    items ← build_items business_id lines
    pure (item ∷ items)

  unfoldable pub sum_from : F → List (OrderItem F) → F
  sum_from acc [] = acc
  sum_from acc (i ∷ items) = sum_from (num.add acc i.sub_total) items

  -- `items.reduce((sum, i) => sum + i.subTotal, 0)`
  unfoldable pub total : List (OrderItem F) → F
  unfolding sum_from
  total items = sum_from (of_nat 0) items

module _ {F : Type 0} where
  unfoldable pub restore_stock : Env → Uuid → List Taken → Service F (Unit {0})
  restore_stock env business_id [] = pure tt
  restore_stock env business_id (t ∷ taken) = do
    increment_stock env business_id t.resource_id t.quantity
    restore_stock env business_id taken

  -- the rest of the round, once the stock of a product line was asked for
  abbrev pub taken_or_failed : Env → Uuid → OrderItem F → List Taken → Bool → Service F (List Taken)
  taken_or_failed env business_id item decremented true =
      pure
        (decremented ++ record { resource_id = item.resource_id; quantity = base_units item } ∷ [])
  taken_or_failed env business_id item decremented false = do
    restore_stock env business_id decremented
    raise (conflict (insufficient_stock item.name))

  -- one round of the loop that reserves stock in `create`
  unfoldable pub reserve_line : Env → Uuid → OrderItem F → List Taken → Service F (List Taken)
  reserve_line env business_id item decremented =
      if is_product item.type
      then (do
        enough ← decrement_stock env business_id item.resource_id (base_units item)
        taken_or_failed env business_id item decremented enough)
      else pure decremented

  unfoldable pub reserve : Env → Uuid → List (OrderItem F) → List Taken → Service F (List Taken)
  reserve env business_id [] decremented = pure decremented
  reserve env business_id (item ∷ items) decremented = do
    decremented' ← reserve_line env business_id item decremented
    reserve env business_id items decremented'

module _ {F : Type 0} ⦃num : Number F⦄ where
  -- the order is written; if that fails, the stock taken for it is given back
  unfoldable pub store_order :
      Env → Uuid → Uuid → Customer → List (OrderItem F) → List Taken → Service F (Order F)
  store_order env business_id customer_id customer items decremented =
      catch
        (Repository.create env (record {
          business_id = business_id;
          customer_id = customer_id;
          customer_name = customer.name;
          customer_email = customer.email;
          customer_phone = customer.phone;
          items = items;
          total_amount = total items;
          status = pending;
        }))
        (λ e. restore_stock env business_id decremented >> raise e)

  -- the part of `create` after the customer and the lines are validated
  unfoldable pub place : Env → Uuid → Uuid → Customer → List (OrderItem F) → Service F (Order F)
  place env business_id customer_id customer items = do
    decremented ← reserve env business_id items []
    store_order env business_id customer_id customer items decremented

  unfoldable pub create : Env → Uuid → CreateOrderDto → Service F (Order F)
  create env business_id dto = do
    customer ← Customers.get_by_id business_id dto.customer_id
    items ← build_items business_id dto.items
    place env business_id dto.customer_id customer items

module _ {F : Type 0} where
  unfoldable pub get_by_id : Uuid → Uuid → Service F (Order F)
  get_by_id business_id order_id = do
    order ← gets (Repository.find_by_id business_id order_id)
    or_raise order (not_found "Order not found.")

  unfoldable pub find_by_ids_in_business : Uuid → List Uuid → Service F (List (Order F))
  find_by_ids_in_business business_id order_ids =
      gets (Repository.find_by_ids business_id order_ids)
