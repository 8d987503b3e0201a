-- ===== src/Order/Tally.antt =====
-- The maps and sets of `updateItems` in src/order/application/order.service.ts: what is found under
-- a key, and how often a key is listed.
use ventura_api.Common.{
  ℕ, ◌+◌, ◌≤◌, ◌≡◌, refl, ap, not, ◌&&◌, List, [], ◌∷◌, ◌++◌, Uuid, filter, count, mem, sum_by,
  ◌==◌, if◌then◌else◌, arith, Bool-cases, inl, inr, ==_iff,
}
use ventura_api.Order.Entity.{OrderItem}
use ventura_api.Resource.Entity.{is_product}
use ventura_api.Order.Quantities.{Map, set, keys, quantity_of, add_quantity, union}
use ventura_api.Order.Service.{base_units}
use ventura_api.Order.Items.{quantities_from}

-- how often a key is listed
abbrev pub times : Uuid → List Uuid → ℕ
times r = count (λ s. s == r)

quantity_of-set :
    (r k v : ℕ) (m : Map ℕ) → quantity_of r (set k v m) ≡ (if k == r then v else quantity_of r m)
quantity_of-set r k v [] = ground arith
quantity_of-set r k v ((j, w) ∷ m) = ground (arith, quantity_of-set r k v m)

times-set :
    (r k v : ℕ) (m : Map ℕ)
    → times r (keys (set k v m)) ≡ (if k == r && times r (keys m) == 0 then 1 else times r (keys m))
times-set r k v [] = ground arith
times-set r k v ((j, w) ∷ m) = elim (Bool-cases (j == k)) [
  | inl here ↦ rw here (ground arith)
  | inr later ↦ rw later (ground (arith, times-set r k v m))
]

pub times_absent : (r : ℕ) (m : Map ℕ) → times r (keys m) ≡ 0 → quantity_of r m ≡ 0
times_absent r [] h = refl
times_absent r ((j, w) ∷ m) h = ground (arith, times_absent r m)

times-append : (r : ℕ) (a b : List Uuid) → times r (a ++ b) ≡ times r a + times r b
times-append r [] b = omega arith
times-append r (x ∷ a) b = ground (arith, times-append r a b)

mem-times : (r : ℕ) (a : List Uuid) → mem r a ≡ not (times r a == 0)
mem-times r [] = refl
mem-times r (x ∷ a) = ground (arith, mem-times r a)

times-filter :
    (r : ℕ) (a b : List Uuid)
    → times r (filter (λ k. not (mem k a)) b) ≡ (if mem r a then 0 else times r b)
times-filter r a [] = ground arith
times-filter r a (x ∷ b) = elim (Bool-cases (x == r)) [
  | inl same ↦
      let e : mem x a ≡ mem r a = ap (λ k. mem k a) ((==_iff x r).0 same) in
      rw e (elim (Bool-cases (mem r a)) [
        | inl listed ↦ rw listed (rw listed at (times-filter r a b))
        | inr fresh ↦
            rw (fresh, same)
              (omega (
                arith,
                let k : times r (filter (λ k. not (mem k a)) b) ≡ times r b =
                      rw fresh at (times-filter r a b) in
                    k,
              ))
      ])
  | inr other ↦ elim (Bool-cases (mem x a)) [
    | inl listed ↦ rw (listed, other) (ground (arith, times-filter r a b))
    | inr fresh ↦ rw (fresh, other) (ground (arith, times-filter r a b))
  ]
]

-- a key of either list is listed once, if neither list repeats it
pub times-union :
    (r : ℕ) (a b : List Uuid)
    → times r a ≤ 1
    → times r b ≤ 1
    → times r (union a b) ≡ (if times r a + times r b == 0 then 0 else 1)
times-union r a b h k =
    ground
      (arith, times-append r a (filter (λ k. not (mem k a)) b), times-filter r a b, mem-times r a)

module _ {F : Type 0} (r : Uuid) where
  -- base units of the product in a line
  abbrev pub line_units : OrderItem F → ℕ
  line_units item = if is_product item.type && item.resource_id == r then base_units item else 0

  pub quantities_from_lem :
      (m : Map ℕ) (items : List (OrderItem F))
      → quantity_of r (quantities_from m items) ≡ quantity_of r m + sum_by line_units items
  unfolding quantities_from
  quantities_from_lem m [] = omega arith
  quantities_from_lem m (item ∷ items) = elim (Bool-cases (is_product item.type)) [
    | inl good ↦ rw good (
        ground (
          arith,
          quantities_from_lem (add_quantity item.resource_id (base_units item) m) items,
          quantity_of-set r item.resource_id (quantity_of item.resource_id m + base_units item) m,
        ))
    | inr other ↦ rw other (omega (arith, quantities_from_lem m items))
  ]

  pub times-quantities_from :
      (m : Map ℕ) (items : List (OrderItem F))
      → times r (keys m) ≤ 1
      → times r (keys (quantities_from m items)) ≤ 1
  unfolding quantities_from
  times-quantities_from m [] h = h
  times-quantities_from m (item ∷ items) h = elim (Bool-cases (is_product item.type)) [
    | inl good ↦ rw good (
        times-quantities_from (add_quantity item.resource_id (base_units item) m) items (
          ground (
            arith,
            times-set r item.resource_id (quantity_of item.resource_id m + base_units item) m,
          )))
    | inr other ↦ rw other (times-quantities_from m items h)
  ]
