-- ===== src/Order/Falling.antt =====
-- The groups and the order of `topProducts` in
-- src/order/infrastructure/postgres-order.repository.ts.
use ventura_api.Common.{
  ℕ, ◌+◌, ◌≤◌, ◌≡◌, refl, ap, ◌∙◌, not, ◌&&◌, String, List, [], ◌∷◌, Uuid, sum_by, zero, suc, take,
  drop, leb, ◌==◌, if◌then◌else◌, arith, Bool-cases, inl, inr,
}
use ventura_api.Resource.Entity.{is_product}
use ventura_api.Order.Entity.{OrderItem, Order}
use ventura_api.Order.Reserve.{is_cancelled}
use ventura_api.Order.Best.{TopProduct, add_sale, insert_by_units, sort_by_units}

-- units that a row lists of a product
abbrev pub units_of : Uuid → TopProduct → ℕ
units_of r t = if t.resource_id == r then t.units_sold else 0

-- how many rows a product has
abbrev pub rows_for : Uuid → TopProduct → ℕ
rows_for r t = if t.resource_id == r then 1 else 0

module _ {F : Type 0} where
  -- units of the product that an order sold
  abbrev pub line_sales : Uuid → OrderItem F → ℕ
  line_sales r item = if is_product item.type && item.resource_id == r then item.quantity else 0

  abbrev pub order_sales : Uuid → Uuid → Order F → ℕ
  order_sales b r o =
      if o.business_id == b && not (is_cancelled o.status) then sum_by (line_sales r) o.items else 0

module _ (r : Uuid) where
  pub units-add_sale :
      (id : Uuid) (name : String) (n : ℕ) (groups : List TopProduct)
      → sum_by (units_of r) (add_sale id name n groups)
        ≡ sum_by (units_of r) groups + (if id == r then n else 0)
  unfolding add_sale
  units-add_sale id name n [] = omega arith
  units-add_sale id name n (t ∷ groups) = ground (arith, units-add_sale id name n groups)

  pub rows-add_sale :
      (id : Uuid) (name : String) (n : ℕ) (groups : List TopProduct)
      → sum_by (rows_for r) (add_sale id name n groups)
        ≡ (if id == r && sum_by (rows_for r) groups == 0 then 1 else sum_by (rows_for r) groups)
  unfolding add_sale
  rows-add_sale id name n [] = ground arith
  rows-add_sale id name n (t ∷ groups) = elim (Bool-cases (t.resource_id == id)) [
    | inl same ↦ rw same (ground arith)
    | inr other ↦ rw other (ground (arith, rows-add_sale id name n groups))
  ]

  sum-insert :
      (f : TopProduct → ℕ) (t : TopProduct) (ts : List TopProduct)
      → sum_by f (insert_by_units t ts) ≡ f t + sum_by f ts
  unfolding insert_by_units
  sum-insert f t [] = refl
  sum-insert f t (u ∷ us) = ground (arith, sum-insert f t us)

  pub sum-sort :
      (f : TopProduct → ℕ) (ts : List TopProduct) → sum_by f (sort_by_units ts) ≡ sum_by f ts
  unfolding sort_by_units
  sum-sort f [] = refl
  sum-sort f (t ∷ ts) = sum-insert f t (sort_by_units ts) ∙ ap (λ n. f t + n) (sum-sort f ts)

  -- a product without a row has no units
  pub units_absent :
      (ts : List TopProduct) → sum_by (rows_for r) ts ≡ 0 → sum_by (units_of r) ts ≡ 0
  units_absent [] h = refl
  units_absent (t ∷ ts) h = ground (arith, units_absent ts)

-- rows with at most `m` units, each with at most as many as the one before
abbrev pub Falls : ℕ → List TopProduct → Type 0
Falls m [] = Unit
Falls m (t ∷ ts) = (t.units_sold ≤ m) × Falls t.units_sold ts

abbrev pub Falling : List TopProduct → Type 0
Falling [] = Unit
Falling (t ∷ ts) = Falls t.units_sold ts

pub Falls-weaker : (m n : ℕ) (ts : List TopProduct) → m ≤ n → Falls m ts → Falls n ts
Falls-weaker m n [] h k = tt
Falls-weaker m n (t ∷ ts) h (first, rest) = (omega arith, rest)

insert-Falls :
    (m : ℕ) (t : TopProduct) (ts : List TopProduct)
    → t.units_sold ≤ m
    → Falls m ts
    → Falls m (insert_by_units t ts)
unfolding insert_by_units
insert-Falls m t [] h k = (h, tt)
insert-Falls m t (u ∷ us) h (first, rest) = elim (Bool-cases (leb u.units_sold t.units_sold)) [
  | inl lower ↦ rw lower (h, (ground arith, rest))
  | inr higher ↦ rw higher (first, insert-Falls u.units_sold t us (ground arith) rest)
]

insert-Falling :
    (t : TopProduct) (ts : List TopProduct) → Falling ts → Falling (insert_by_units t ts)
unfolding insert_by_units
insert-Falling t [] h = tt
insert-Falling t (u ∷ us) h = elim (Bool-cases (leb u.units_sold t.units_sold)) [
  | inl lower ↦ rw lower (ground arith, h)
  | inr higher ↦ rw higher (insert-Falls u.units_sold t us (ground arith) h)
]

pub sort-Falling : (ts : List TopProduct) → Falling (sort_by_units ts)
unfolding sort_by_units
sort-Falling [] = tt
sort-Falling (t ∷ ts) = insert-Falling t (sort_by_units ts) (sort-Falling ts)

pub Falls-Falling : (m : ℕ) (ts : List TopProduct) → Falls m ts → Falling ts
Falls-Falling m [] h = tt
Falls-Falling m (t ∷ ts) (first, rest) = rest

pub Falls-drop : (m n : ℕ) (ts : List TopProduct) → Falls m ts → Falls m (drop n ts)
Falls-drop m zero ts h = h
Falls-drop m (suc n) [] h = tt
Falls-drop m (suc n) (t ∷ ts) (first, rest) =
    Falls-drop m n ts (Falls-weaker t.units_sold m ts first rest)

Falls-take : (m n : ℕ) (ts : List TopProduct) → Falls m ts → Falls m (take n ts)
Falls-take m zero ts h = tt
Falls-take m (suc n) [] h = tt
Falls-take m (suc n) (t ∷ ts) (first, rest) = (first, Falls-take t.units_sold n ts rest)

pub take-Falling : (n : ℕ) (ts : List TopProduct) → Falling ts → Falling (take n ts)
take-Falling zero ts h = tt
take-Falling (suc n) [] h = tt
take-Falling (suc n) (t ∷ ts) h = Falls-take t.units_sold n ts h

pub sum-take-drop :
    (f : TopProduct → ℕ) (n : ℕ) (ts : List TopProduct)
    → sum_by f (take n ts) + sum_by f (drop n ts) ≡ sum_by f ts
sum-take-drop f zero ts = omega arith
sum-take-drop f (suc n) [] = refl
sum-take-drop f (suc n) (t ∷ ts) = omega (arith, sum-take-drop f n ts)
