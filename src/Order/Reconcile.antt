-- ===== src/Order/Reconcile.antt =====
-- The loop of `updateItems` in src/order/application/order.service.ts: what it does to the stock of a
-- product as a whole.
use ventura_api.Common.{
  ℕ, ◌+◌, ◌≤◌, ◌<◌, ◌≡◌, refl, sym, ap, ◌∙◌, Bool, true, false, ◌&&◌, String, List, [], ◌∷◌, Uuid,
  sum_by, ◌==◌, if◌then◌else◌, arith, Bool-cases, inl, inr, ==_iff,
}
use mathlib.Core.Path.{subst}
use mathlib.Core.Bool.{and-eq-true_iff}
use native.Mathlib.Nat.{zero-add}
use ventura_api.Common.Int.{ℤ, pos, ◌+ℤ◌, ◌-ℤ◌, int_laws, +ℤ-zero, +ℤ_assoc, zero-+ℤ}
use ventura_api.Common.Action.{Result, ok, err, and_then}
use ventura_api.Db.{Db, Env}
use ventura_api.Order.Service.{Applied}
use ventura_api.Order.Quantities.{Map, quantity_of, keys, union}
use ventura_api.Order.Items.{reconcile_one, reconcile, quantities_from}
use ventura_api.Order.Tally.{
  times, times_absent, times-union, line_units, quantities_from_lem, times-quantities_from,
}
use ventura_api.Order.Entity.{OrderItem}
use ventura_api.Order.Reserve.{items_amount}
use ventura_api.Order.Round.{change, retakes, Reconciling, Stepped, reconcile_one-Stepped}

times_here :
    (r s : Uuid) (ids : List Uuid) (t : Bool) → (s == r && t) ≡ true → 0 < times r (s ∷ ids)
times_here r s ids t h = rw ((and-eq-true_iff (s == r) t).0 h).0 (omega arith)

-- a product that comes later has not been met
times_later :
    (r s : Uuid) (ids : List Uuid) (t : Bool)
    → times r (s ∷ ids) ≤ 1
    → 0 < times r ids
    → ((s == r && t) ≡ false) × (0 < times r (s ∷ ids))
times_later r s ids t once later = elim (Bool-cases (s == r)) [
  | inl here ↦ let k : 1 + times r ids ≤ 1 = rw here at once in absurd (omega arith)
  | inr other ↦ rw other (refl, omega arith)
]

-- what the loop moves
abbrev pub changes : Uuid → Uuid → Uuid → Map ℕ → Map ℕ → List Uuid → ℤ
changes b r c old new [] = pos 0
changes b r c old new (s ∷ ids) = change b r c old new s +ℤ changes b r c old new ids

module _ {F : Type 0} (b r c : Uuid) where
  pub reconcile-Reconciling :
      (env : Env) (names : Map String) (old new : Map ℕ) (ids : List Uuid) (applied : List Applied)
      (d : ℤ) (db₀ db : Db F)
      → times r ids ≤ 1
      → (0 < times r ids → retakes b r c applied ≡ 0)
      → Reconciling b r c db₀ d (ok applied, db)
      → Reconciling b r c db₀
          (d +ℤ changes b r c old new ids)
          (reconcile env c names old new ids applied db)
  unfolding reconcile
  reconcile-Reconciling env names old new [] applied d db₀ db once fresh h =
      subst (λ x. Reconciling b r c db₀ x (ok applied, db)) (sym (+ℤ-zero d)) h
  reconcile-Reconciling env names old new (s ∷ ids) applied d db₀ db once fresh h =
      let d' = d +ℤ change b r c old new s in
      rw (← +ℤ_assoc d (change b r c old new s) (changes b r c old new ids)) (
        next
          (λ applied' db' k same.
            reconcile-Reconciling env names old new ids applied' d' db₀ db'
              (let o : times r ids ≤ 1 = omega arith in o)
              (λ again.
                let (other, some_left) = times_later r s ids (c == b) once again in
                same other ∙ fresh some_left)
              k)
          (reconcile_one env c names old new s applied db)
          (reconcile_one-Stepped b r c env names old new s applied d db₀ db
            (λ same. fresh (times_here r s ids (c == b) same)) h))
    where
      next :
          ((applied' : List Applied) (db' : Db F)
            → Reconciling b r c db₀ (d +ℤ change b r c old new s) (ok applied', db')
            → ((s == r && c == b) ≡ false → retakes b r c applied' ≡ retakes b r c applied)
            → Reconciling b r c db₀
                (d +ℤ change b r c old new s +ℤ changes b r c old new ids)
                (reconcile env c names old new ids applied' db'))
          → (x : Result (List Applied) × Db F)
          → Stepped b r c s applied db₀ (d +ℤ change b r c old new s) x
          → Reconciling b r c db₀
              (d +ℤ change b r c old new s +ℤ changes b r c old new ids)
              (and_then x λ applied'. reconcile env c names old new ids applied')
      next rest (ok applied', db') (k, same) = rest applied' db' k same
      next rest (err e, db') k = k

changes_lem :
    (b r c : Uuid) (old new : Map ℕ) (ids : List Uuid)
    → times r ids ≤ 1
    → changes b r c old new ids ≡ (
        if times r ids == 0
        then pos 0
        else (if c == b then pos (quantity_of r old) -ℤ pos (quantity_of r new) else pos 0))
changes_lem b r c old new [] once = refl
changes_lem b r c old new (s ∷ ids) once = elim (Bool-cases (s == r)) [
  | inl same ↦
      let z : times r ids ≡ 0 = (let k : 1 + times r ids ≤ 1 = rw same at once in omega arith) in
      let rest : changes b r c old new ids ≡ pos 0 =
        rw z at (changes_lem b r c old new ids (omega arith)) in
      rw (same, z, rest)
        (+ℤ-zero _
          ∙ ap (λ x. if c == b then pos (quantity_of x old) -ℤ pos (quantity_of x new) else pos 0)
              ((==_iff s r).0 same))
  | inr other ↦
      let k : times r ids ≤ 1 = (let k : 0 + times r ids ≤ 1 = rw other at once in omega arith) in
      rw (other, zero-add) (zero-+ℤ (changes b r c old new ids) ∙ changes_lem b r c old new ids k)
]

items_amount-line_units :
    {F : Type 0} (b r c : Uuid) (items : List (OrderItem F))
    → items_amount b r c items ≡ (if c == b then sum_by (line_units r) items else 0)
items_amount-line_units b r c [] = ground arith
items_amount-line_units b r c (item ∷ items) = elim (Bool-cases (c == b)) [
  | inl same ↦
      let k : items_amount b r c items ≡ sum_by (line_units r) items =
        rw same at (items_amount-line_units b r c items) in
      ground arith
  | inr other ↦
      let k : items_amount b r c items ≡ 0 = rw other at (items_amount-line_units b r c items) in
      ground arith
]

zero_if : (t : Bool) → pos 0 ≡ (if t then pos 0 -ℤ pos 0 else pos 0)
zero_if true = omega int_laws
zero_if false = refl

diff_if :
    (t : Bool) (m n : ℕ)
    → (if t then pos (0 + m) -ℤ pos (0 + n) else pos 0)
      ≡ pos (if t then m else 0) -ℤ pos (if t then n else 0)
diff_if true m n = omega int_laws
diff_if false m n = omega int_laws

-- no product of either list is left out
union_total :
    (b r c : Uuid) (old new : Map ℕ)
    → times r (keys old) ≤ 1
    → times r (keys new) ≤ 1
    → changes b r c old new (union (keys old) (keys new))
      ≡ (if c == b then pos (quantity_of r old) -ℤ pos (quantity_of r new) else pos 0)
union_total b r c old new h k =
    let t = times-union r (keys old) (keys new) h k in
    elim (Bool-cases (times r (keys old) + times r (keys new) == 0)) [
      | inl absent ↦
          let z : times r (union (keys old) (keys new)) ≡ 0 = rw absent at t in
          let p : quantity_of r old ≡ 0 = times_absent r old (ground arith) in
          let q : quantity_of r new ≡ 0 = times_absent r new (ground arith) in
          let e : changes b r c old new (union (keys old) (keys new)) ≡ pos 0 =
            rw z at (changes_lem b r c old new (union (keys old) (keys new)) (omega arith)) in
          rw (e, p, q) (zero_if (c == b))
      | inr listed ↦
          let z : times r (union (keys old) (keys new)) ≡ 1 = rw listed at t in
          rw z at (changes_lem b r c old new (union (keys old) (keys new)) (omega arith))
    ]

-- The loop over the products of both lists of lines moves the stock of each by the difference.
pub changes-union :
    {F : Type 0} (b r c : Uuid) (before after : List (OrderItem F))
    → let old = quantities_from [] before in
      let new = quantities_from [] after in
      changes b r c old new (union (keys old) (keys new))
      ≡ pos (items_amount b r c before) -ℤ pos (items_amount b r c after)
changes-union b r c before after =
    let old = quantities_from [] before in
    let new = quantities_from [] after in
    let p = quantities_from_lem r [] before in
    let q = quantities_from_lem r [] after in
    union_total b r c old new (times-quantities_from r [] before (omega arith))
      (times-quantities_from r [] after (omega arith))
    ∙ rw (items_amount-line_units b r c before, items_amount-line_units b r c after, p, q)
        (diff_if (c == b) _ _)
