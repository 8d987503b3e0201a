-- ===== src/Order/Reserve.antt =====
-- The stock that orders hold, and how `reserve` and `restoreStock` of order.service.ts move it.
use ventura_api.Common.{
  ℕ, ◌+◌, ◌≡◌, refl, sym, ◌∙◌, Bool, true, false, ◌&&◌, List, [], ◌∷◌, Uuid, sum_by, sum_by-append,
  ◌==◌, if◌then◌else◌, arith, Bool-cases, inl, inr,
}
use mathlib.Core.Path.{subst}
use native.Mathlib.Nat.{add-zero, add_assoc}
use ventura_api.Common.Int.{ℤ, pos, ◌+ℤ◌, ◌-ℤ◌, int_laws}
use ventura_api.Common.Action.{Result, ok, err, conflict, raise, >>=-ok}
use ventura_api.Db.{Db, Env}
use ventura_api.Resource.Entity.{is_product}
use ventura_api.Resource.Repository.{decrement_stock, increment_stock}
use ventura_api.Resource.Stock.{if_product, Shifts, Shifts-refl, Shifts-trans}
use ventura_api.Resource.Adjust.{Decremented, decrement_stock-Decremented, increment_stock-ok}
use ventura_api.Order.Entity.{OrderStatus, cancelled, OrderItem, Order}
use ventura_api.Order.Service.{
  Taken, base_units, insufficient_stock, taken_or_failed, restore_stock, reserve_line, reserve,
}

abbrev pub is_cancelled : OrderStatus → Bool
is_cancelled cancelled = true
is_cancelled _ = false

if_product_pos :
    (b r c s : Uuid) (n : ℕ) → if_product b r c s (pos n) ≡ pos (if s == r && c == b then n else 0)
if_product_pos b r c s n = ground arith

module _ {F : Type 0} (b r : Uuid) where
  pub Shifts-cast : (d e : ℤ) (db db' : Db F) → d ≡ e → Shifts b r d db db' → Shifts b r e db db'
  Shifts-cast d e db db' p = subst (λ x. Shifts b r x db db') p

  -- base units of the product in a line of an order of business `c`
  abbrev pub item_amount : Uuid → OrderItem F → ℕ
  item_amount c item =
      if is_product item.type && (item.resource_id == r && c == b) then base_units item else 0

  abbrev pub items_amount : Uuid → List (OrderItem F) → ℕ
  items_amount c = sum_by (item_amount c)

  -- what an order holds of the product's stock: nothing once it is cancelled
  abbrev pub order_amount : Order F → ℕ
  order_amount o = if is_cancelled o.status then 0 else items_amount o.business_id o.items

  abbrev pub reserved : List (Order F) → ℕ
  reserved = sum_by order_amount

-- units of the product among those taken by business `c`
abbrev pub taken_by : Uuid → Uuid → Uuid → Taken → ℕ
taken_by b r c t = if t.resource_id == r && c == b then t.quantity else 0

abbrev pub taken_amount : Uuid → Uuid → Uuid → List Taken → ℕ
taken_amount b r c = sum_by (taken_by b r c)

if_product_add :
    (b r c : Uuid) (t : Taken) (n : ℕ)
    → if_product b r c t.resource_id (pos t.quantity) +ℤ pos n ≡ pos (taken_by b r c t + n)
if_product_add b r c t n = rw (if_product_pos b r c t.resource_id t.quantity) (omega int_laws)

if_product_sub :
    (b r c s : Uuid) (m n : ℕ)
    → pos 0 -ℤ pos n +ℤ if_product b r c s (pos 0 -ℤ pos m)
      ≡ pos 0 -ℤ pos (n + (if s == r && c == b then m else 0))
if_product_sub b r c s m n = elim (Bool-cases (s == r && c == b)) [
  | inl same ↦ rw same (omega int_laws)
  | inr other ↦ rw other (omega int_laws)
]

module _ {F : Type 0} (b r : Uuid) where
  -- Giving back a list of takings puts back their sum.
  pub restore_stock-ok :
      (env : Env) (c : Uuid) (taken : List Taken) (db : Db F)
      → ((restore_stock env c taken db).0 ≡ ok tt)
        × Shifts b r (pos (taken_amount b r c taken)) db (restore_stock env c taken db).1
  unfolding restore_stock
  restore_stock-ok env c [] db = (refl, Shifts-refl b r db)
  restore_stock-ok env c (t ∷ taken) db =
      let (e, h) = increment_stock-ok b r env c t.resource_id t.quantity db in
      let db' = (increment_stock env c t.resource_id t.quantity db).1 in
      let (e', h') = restore_stock-ok env c taken db' in
      rw
        (>>=-ok (increment_stock env c t.resource_id t.quantity) (λ _. restore_stock env c taken) db
          tt e)
        (
          e',
          Shifts-cast b r _ _ db _ (if_product_add b r c t (taken_amount b r c taken))
              (Shifts-trans b r _ _ h h'),
        )

  -- What reserving has done so far, from the state `db₀` on: it ended with the takings recorded and
  -- out of stock, or it failed and the stock is as it was.
  abbrev pub Reserving : Uuid → Db F → ℕ → Result (List Taken) × Db F → Type 0
  Reserving c db₀ n (ok taken, db) =
      (taken_amount b r c taken ≡ n) × Shifts b r (pos 0 -ℤ pos n) db₀ db
  Reserving c db₀ n (err e, db) = Shifts b r (pos 0) db₀ db

  taken_or_failed-Reserving :
      (env : Env) (c : Uuid) (item : OrderItem F) (taken : List Taken) (n : ℕ) (db₀ db : Db F)
      → Reserving c db₀ n (ok taken, db)
      → (x : Result Bool × Db F) → Decremented b r c item.resource_id (base_units item) db x
      → Reserving c db₀ (n + (if item.resource_id == r && c == b then base_units item else 0)) (
          let (res, db') = x in
          elim res [ ok a ↦ taken_or_failed env c item taken a db' | err e ↦ raise e db' ])
  taken_or_failed-Reserving env c item taken n db₀ db (same, moved) (ok true, db') h = (
    sum_by-append (taken_by b r c) taken _ ∙ omega (arith, same),
    Shifts-cast b r _ _ db₀ db' (if_product_sub b r c item.resource_id (base_units item) n)
        (Shifts-trans b r _ _ moved h.0),
  )
  taken_or_failed-Reserving env c item taken n db₀ db (same, moved) (ok false, db') h =
      let (e, back) = restore_stock-ok env c taken db' in
      rw
        (>>=-ok (restore_stock env c taken) (λ _. raise (conflict (insufficient_stock item.name)))
          db' tt e)
        (Shifts-cast b r _ _ db₀ _ (rw same (omega int_laws)) (
          Shifts-trans b r (pos 0 -ℤ pos n) _
            (subst (λ x. Shifts b r (pos 0 -ℤ pos n) db₀ x) (sym h.0) moved) back))
  taken_or_failed-Reserving env c item taken n db₀ db (same, moved) (err e, db') h = elim h [ ]

  reserve_line-Reserving :
      (env : Env) (c : Uuid) (item : OrderItem F) (taken : List Taken) (n : ℕ) (db₀ db : Db F)
      → Reserving c db₀ n (ok taken, db)
      → Reserving c db₀ (n + item_amount b r c item) (reserve_line env c item taken db)
  unfolding reserve_line
  reserve_line-Reserving env c item taken n db₀ db h = elim (Bool-cases (is_product item.type)) [
    | inl good ↦ rw good (
        taken_or_failed-Reserving env c item taken n db₀ db h
          (decrement_stock env c item.resource_id (base_units item) db)
          (decrement_stock-Decremented b r env c item.resource_id (base_units item) db))
    | inr no_good ↦ rw (no_good, add-zero) h
  ]

  pub reserve-Reserving :
      (env : Env) (c : Uuid) (items : List (OrderItem F)) (taken : List Taken) (n : ℕ)
      (db₀ db : Db F)
      → Reserving c db₀ n (ok taken, db)
      → Reserving c db₀ (n + items_amount b r c items) (reserve env c items taken db)
  unfolding reserve
  reserve-Reserving env c [] taken n db₀ db h = rw add-zero h
  reserve-Reserving env c (item ∷ items) taken n db₀ db h =
      rw (← add_assoc n (item_amount b r c item) (items_amount b r c items)) (
        next
          (λ taken' db' k.
            reserve-Reserving env c items taken' (n + item_amount b r c item) db₀ db' k)
          (reserve_line env c item taken db) (reserve_line-Reserving env c item taken n db₀ db h))
    where
      total_units : ℕ
      total_units = n + item_amount b r c item + items_amount b r c items

      next :
          ((taken' : List Taken) (db' : Db F)
            → Reserving c db₀ (n + item_amount b r c item) (ok taken', db')
            → Reserving c db₀ total_units (reserve env c items taken' db'))
          → (x : Result (List Taken) × Db F) → Reserving c db₀ (n + item_amount b r c item) x
          → Reserving c db₀ total_units (
              let (res, db') = x in
              elim res [ ok a ↦ reserve env c items a db' | err e ↦ raise e db' ])
      next rest (ok taken', db') k = rest taken' db' k
      next rest (err e, db') k = k
