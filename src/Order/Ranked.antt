-- ===== src/Order/Ranked.antt =====
-- What `topProducts` of src/order/infrastructure/postgres-order.repository.ts lists.
use ventura_api.Common.{
  ℕ, ◌+◌, ◌≤◌, ◌≡◌, refl, ◌∙◌, not, ◌&&◌, List, [], ◌∷◌, Uuid, sum_by, zero, suc, take, drop,
  length, length-take-drop, ◌==◌, if◌then◌else◌, arith, Bool-cases, inl, inr, All,
}
use mathlib.Core.Path.{subst}
use ventura_api.Db.{Db}
use ventura_api.Resource.Entity.{is_product}
use ventura_api.Order.Entity.{OrderItem, Order}
use ventura_api.Order.Reserve.{is_cancelled}
use ventura_api.Order.Best.{TopProduct, add_sale, sort_by_units, add_items, sales_of, top_products}
use ventura_api.Order.Falling.{
  units_of, rows_for, line_sales, order_sales, units-add_sale, rows-add_sale, sum-sort,
  units_absent, Falls, Falling, sort-Falling, Falls-Falling, Falls-drop, take-Falling,
  sum-take-drop,
}

module _ (r : Uuid) where
  units_bound :
      (m : ℕ) (ts : List TopProduct)
      → Falls m ts
      → sum_by (rows_for r) ts ≤ 1
      → sum_by (units_of r) ts ≤ m
  units_bound m [] h once = omega arith
  units_bound m (t ∷ ts) (first, rest) once = elim (Bool-cases (t.resource_id == r)) [
    | inl same ↦
        let k : 1 + sum_by (rows_for r) ts ≤ 1 = rw same at once in
        rw same (omega (arith, units_absent r ts (omega arith)))
    | inr other ↦
        let k : 0 + sum_by (rows_for r) ts ≤ 1 = rw other at once in
        rw other (omega (arith, units_bound t.units_sold ts rest (omega arith)))
  ]

  -- what is left out has at most as many units as each row that is listed
  left_out :
      (n : ℕ) (ts : List TopProduct)
      → Falling ts
      → sum_by (rows_for r) ts ≤ 1
      → All (λ t. sum_by (units_of r) (drop n ts) ≤ t.units_sold) (take n ts)
  left_out zero ts h once = tt
  left_out (suc n) [] h once = tt
  left_out (suc n) (t ∷ ts) h once = (
    units_bound t.units_sold (drop n ts) (Falls-drop t.units_sold n ts h)
        (omega (arith, sum-take-drop (rows_for r) n ts)),
    left_out n ts (Falls-Falling t.units_sold ts h) (omega arith),
  )

module _ {F : Type 0} (r : Uuid) where
  units-add_items :
      (items : List (OrderItem F)) (groups : List TopProduct)
      → sum_by (units_of r) (add_items items groups)
        ≡ sum_by (units_of r) groups + sum_by (line_sales r) items
  unfolding add_items
  units-add_items [] groups = omega arith
  units-add_items (item ∷ items) groups = elim (Bool-cases (is_product item.type)) [
    | inl good ↦ rw good (
        units-add_items items (add_sale item.resource_id item.name item.quantity groups)
        ∙ omega (arith, units-add_sale r item.resource_id item.name item.quantity groups))
    | inr other ↦ rw other (omega (arith, units-add_items items groups))
  ]

  rows-add_items :
      (items : List (OrderItem F)) (groups : List TopProduct)
      → sum_by (rows_for r) groups ≤ 1
      → sum_by (rows_for r) (add_items items groups) ≤ 1
  unfolding add_items
  rows-add_items [] groups h = h
  rows-add_items (item ∷ items) groups h = elim (Bool-cases (is_product item.type)) [
    | inl good ↦ rw good (
        rows-add_items items (add_sale item.resource_id item.name item.quantity groups)
          (ground (arith, rows-add_sale r item.resource_id item.name item.quantity groups)))
    | inr other ↦ rw other (rows-add_items items groups h)
  ]

  units-sales_of :
      (b : Uuid) (orders : List (Order F))
      → sum_by (units_of r) (sales_of b orders) ≡ sum_by (order_sales b r) orders
  unfolding sales_of
  units-sales_of b [] = refl
  units-sales_of b (o ∷ orders) =
      elim (Bool-cases (o.business_id == b && not (is_cancelled o.status))) [
        | inl counted ↦
            rw counted
              (units-add_items o.items (sales_of b orders) ∙ omega (arith, units-sales_of b orders))
        | inr other ↦ rw other (omega (arith, units-sales_of b orders))
      ]

  rows-sales_of : (b : Uuid) (orders : List (Order F)) → sum_by (rows_for r) (sales_of b orders) ≤ 1
  unfolding sales_of
  rows-sales_of b [] = omega arith
  rows-sales_of b (o ∷ orders) =
      elim (Bool-cases (o.business_id == b && not (is_cancelled o.status))) [
        | inl counted ↦
            rw counted (rows-add_items o.items (sales_of b orders) (rows-sales_of b orders))
        | inr other ↦ rw other (rows-sales_of b orders)
      ]

  -- How a product stands in a ranking: it has one row at most, which lists its units exactly, and if
  -- it has none, every row lists at least as many units as it sold.
  abbrev pub Ranked : Uuid → Db F → List TopProduct → Type 0
  Ranked b db top =
      (sum_by (rows_for r) top ≤ 1)
      × (sum_by (units_of r) top
          ≡ (if sum_by (rows_for r) top == 0 then 0 else sum_by (order_sales b r) db.orders))
      × (sum_by (rows_for r) top ≡ 0
          → All (λ t. sum_by (order_sales b r) db.orders ≤ t.units_sold) top)

  top_products-Ranked : (b : Uuid) (n : ℕ) (db : Db F) → Ranked b db (top_products b n db)
  unfolding top_products
  top_products-Ranked b n db =
      let sales = sort_by_units (sales_of b db.orders) in
      let units = sum-sort r (units_of r) (sales_of b db.orders) ∙ units-sales_of b db.orders in
      let once : sum_by (rows_for r) sales ≤ 1 =
        omega (arith, sum-sort r (rows_for r) (sales_of b db.orders), rows-sales_of b db.orders) in
      let u = sum-take-drop (units_of r) n sales in
      let k = sum-take-drop (rows_for r) n sales in
      (
        omega arith,
        elim (Bool-cases (sum_by (rows_for r) (take n sales) == 0)) [
          | inl absent ↦ rw absent (units_absent r (take n sales) (ground arith))
          | inr listed ↦
              let rest : sum_by (rows_for r) (drop n sales) ≡ 0 = ground arith in
              rw listed (omega (arith, units, units_absent r (drop n sales) rest))
        ],
        λ absent.
            subst (λ m. All (λ t. m ≤ t.units_sold) (take n sales))
              (omega (arith, units, units_absent r (take n sales) absent))
              (left_out r n sales (sort-Falling (sales_of b db.orders)) once),
      )

-- `topProducts` lists at most as many products as it is asked for, by falling units. For every product:
-- it is listed once at most, with exactly the units that the product lines of the business's orders
-- which are not cancelled name of it; if it is not listed, each product that is listed sold at least
-- as many units.
pub top_products_lem :
    {F : Type 0} (b : Uuid) (n : ℕ) (db : Db F)
    → (length (top_products b n db) ≤ n)
      × Falling (top_products b n db)
      × ((r : Uuid) → Ranked r b db (top_products b n db))
unfolding top_products
top_products_lem b n db = (
  omega (arith, length-take-drop {0} n 0 (sort_by_units (sales_of b db.orders))),
  take-Falling n (sort_by_units (sales_of b db.orders)) (sort-Falling (sales_of b db.orders)),
  λ r. top_products-Ranked r b n db,
)
