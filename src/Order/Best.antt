-- ===== src/Order/Best.antt =====
-- `topProducts` of src/order/infrastructure/postgres-order.repository.ts. The order of products that
-- sold as many units, which the query leaves open, is that of their first sale.
use ventura_api.Common.{
  ℕ, ◌+◌, not, ◌&&◌, String, List, [], ◌∷◌, Uuid, take, leb, ◌==◌, if◌then◌else◌,
}
use ventura_api.Db.{Db}
use ventura_api.Resource.Entity.{is_product}
use ventura_api.Order.Entity.{OrderItem, Order}
use ventura_api.Order.Reserve.{is_cancelled}

pub record TopProduct : Type 0 where
  pub resource_id : Uuid
  pub name : String
  pub units_sold : ℕ

-- a row of a group: the sum grows, and the name stays that of the first row
unfoldable pub add_sale : Uuid → String → ℕ → List TopProduct → List TopProduct
add_sale id name n [] = record { resource_id = id; name = name; units_sold = n } ∷ []
add_sale id name n (t ∷ groups) =
    let rest = add_sale id name n groups in
    if t.resource_id == id then record t { units_sold = t.units_sold + n } ∷ groups else t ∷ rest

-- `order by "unitsSold" desc`
unfoldable pub insert_by_units : TopProduct → List TopProduct → List TopProduct
insert_by_units t [] = t ∷ []
insert_by_units t (u ∷ us) =
    let rest = insert_by_units t us in
    if leb u.units_sold t.units_sold then t ∷ u ∷ us else u ∷ rest

unfoldable pub sort_by_units : List TopProduct → List TopProduct
unfolding insert_by_units
sort_by_units [] = []
sort_by_units (t ∷ ts) = insert_by_units t (sort_by_units ts)

module _ {F : Type 0} where
  -- the product lines of an order, added to the groups
  unfoldable pub add_items : List (OrderItem F) → List TopProduct → List TopProduct
  unfolding add_sale
  add_items [] groups = groups
  add_items (item ∷ items) groups = add_items items (
      if is_product item.type
      then add_sale item.resource_id item.name item.quantity groups
      else groups)

  -- the groups, from the oldest order on
  unfoldable pub sales_of : Uuid → List (Order F) → List TopProduct
  unfolding add_items
  sales_of business_id [] = []
  sales_of business_id (o ∷ orders) =
      let older = sales_of business_id orders in
      if o.business_id == business_id && not (is_cancelled o.status)
      then add_items o.items older
      else older

  unfoldable pub top_products : Uuid → ℕ → Db F → List TopProduct
  unfolding sales_of sort_by_units
  top_products business_id limit db = take limit (sort_by_units (sales_of business_id db.orders))
