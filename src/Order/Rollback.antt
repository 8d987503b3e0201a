-- ===== src/Order/Rollback.antt =====
-- The rollback of `updateItems` in src/order/application/order.service.ts.
use ventura_api.Common.{
  ℕ, zero, suc, ◌+◌, ◌≡◌, refl, ap, ◌∙◌, Bool, true, false, ◌&&◌, Option, none, some, List, [], ◌∷◌,
  Uuid, sum_by, ◌==◌, if◌then◌else◌, arith, Bool-cases, inl, inr, ==_iff,
}
use mathlib.Core.Path.{subst}
use mathlib.Core.Bool.{and-eq-true_iff}
use ventura_api.Common.Int.{ℤ, pos, negsuc, pos_part, neg_part, ◌+ℤ◌, ◌-ℤ◌, ◌≤ℤ◌, int_laws}
use ventura_api.Common.Action.{Result, ok, err, pure, ◌>>◌, and_then, >>=-ok}
use ventura_api.Db.{Db, Env}
use ventura_api.Resource.Repository.{decrement_stock}
use ventura_api.Resource.Stock.{
  stock_of, shift, if_product, Short, Shifts, Shifts-refl, Shifts-trans,
}
use ventura_api.Resource.Adjust.{
  Decremented, decrement_stock-Decremented, increment_stock-ok, Shifts-of_absent,
}
use ventura_api.Order.Service.{Applied}
use ventura_api.Order.Items.{undo, rollback}
use ventura_api.Order.Reserve.{Shifts-cast}

-- a stock, if there is one, of at least `n` units
abbrev pub Enough : ℕ → Option ℤ → Type 0
Enough n none = Unit
Enough n (some q) = pos n ≤ℤ q

pub Enough-shift :
    (m n : ℕ) (d : ℤ) (o : Option ℤ) → pos n ≤ℤ pos m +ℤ d → Enough m o → Enough n (shift d o)
Enough-shift m n d none h k = tt
Enough-shift m n d (some q) h k = omega int_laws

not-Short : (n : ℕ) (o : Option ℤ) → Enough n o → Short (pos 0 -ℤ pos n) o → o ≡ none
not-Short n none h k = refl
not-Short n (some q) h (_, k) = absurd (omega int_laws)

covered_rest : (m n k : ℕ) (d : ℤ) → d ≡ pos k -ℤ pos m → pos n ≤ℤ pos (m + n) +ℤ d
covered_rest m n k d e = rw e (omega int_laws)

pub sum_parts :
    (k m k' m' : ℕ) (d : ℤ)
    → d ≡ pos k -ℤ pos m
    → d +ℤ (pos k' -ℤ pos m') ≡ pos (k + k') -ℤ pos (m + m')
sum_parts k m k' m' d e = rw e (omega int_laws)

module _ (b r : Uuid) where
  -- units of the product that undoing takes, and gives back
  abbrev pub retaken : Uuid → Applied → ℕ
  retaken c a = if a.resource_id == r && c == b then neg_part a.quantity else 0

  abbrev pub returned : Uuid → Applied → ℕ
  returned c a = if a.resource_id == r && c == b then pos_part a.quantity else 0

  if_product_parts :
      (c : Uuid) (a : Applied)
      → if_product b r c a.resource_id a.quantity ≡ pos (returned c a) -ℤ pos (retaken c a)
  if_product_parts c a = elim (Bool-cases (a.resource_id == r && c == b)) [
    | inl same ↦ rw same (omega int_laws)
    | inr other ↦ rw other (omega int_laws)
  ]

  Enough-of_retaken :
      (c : Uuid) (a : Applied) (n : ℕ) (o : Option ℤ)
      → Enough (retaken c a + n) o
      → (a.resource_id == r && c == b) ≡ true
      → Enough (neg_part a.quantity) o
  Enough-of_retaken c a n none h same = tt
  Enough-of_retaken c a n (some q) h same =
      let k : Enough ((if true then neg_part a.quantity else 0) + n) (some q) = rw same at h in
      omega (arith, k)

module _ {F : Type 0} (b r : Uuid) where
  -- the same product, under its two names
  pub stock_of_same :
      (c s : Uuid) (db : Db F) → (s == r && c == b) ≡ true → stock_of c s db ≡ stock_of b r db
  stock_of_same c s db h =
      let k = (and-eq-true_iff _ _).0 h in
      ap (λ x. stock_of x s db) ((==_iff c b).0 k.1)
      ∙ ap (λ x. stock_of b x db) ((==_iff s r).0 k.0)

  refused :
      (c s : Uuid) (n : ℕ) (db : Db F)
      → ((s == r && c == b) ≡ true → Enough n (stock_of b r db))
      → Short (pos 0 -ℤ pos n) (stock_of c s db)
      → Shifts b r (if_product b r c s (pos 0 -ℤ pos n)) db db
  refused c s n db h k = elim (Bool-cases (s == r && c == b)) [
    | inl same ↦
        let e = stock_of_same c s db same in
        Shifts-of_absent b r c s (pos 0 -ℤ pos n) db
          (e ∙ not-Short n (stock_of b r db) (h same) (rw (← e) k))
    | inr other ↦ rw other (Shifts-refl b r db)
  ]

  -- Taking units that are there, whatever comes back.
  pub retake-ok :
      (env : Env) (c s : Uuid) (n : ℕ) (db : Db F)
      → ((s == r && c == b) ≡ true → Enough n (stock_of b r db))
      → let x = (decrement_stock env c s n >> pure tt) db in
        (x.0 ≡ ok tt) × Shifts b r (if_product b r c s (pos 0 -ℤ pos n)) db x.1
  retake-ok env c s n db h =
      go (decrement_stock env c s n db) (decrement_stock-Decremented b r env c s n db)
    where
      go :
          (x : Result Bool × Db F)
          → Decremented b r c s n db x
          → let y : Result (Unit {0}) × Db F = and_then x (λ _. pure tt) in
            (y.0 ≡ ok tt) × Shifts b r (if_product b r c s (pos 0 -ℤ pos n)) db y.1
      go (ok true, db') k = (refl, k.0)
      go (ok false, db') k = (refl, rw k.0 (refused c s n db h k.1))
      go (err e, db') k = elim k [ ]

  undo_quantity :
      (env : Env) (c s : Uuid) (q : ℤ) (db : Db F)
      → ((s == r && c == b) ≡ true → Enough (neg_part q) (stock_of b r db))
      → let x = undo env c (record { resource_id = s; quantity = q }) db in
        (x.0 ≡ ok tt) × Shifts b r (if_product b r c s q) db x.1
  unfolding undo
  undo_quantity env c s (pos zero) db h =
      subst
        (λ q.
          let x = (decrement_stock env c s 0 >> pure tt) db in
          (x.0 ≡ ok tt) × Shifts b r (if_product b r c s q) db x.1)
        (let e : pos 0 -ℤ pos 0 ≡ pos 0 = omega int_laws in e) (retake-ok env c s 0 db h)
  undo_quantity env c s (pos (suc n)) db h = increment_stock-ok b r env c s (suc n) db
  undo_quantity env c s (negsuc n) db h =
      subst
        (λ q.
          let x = (decrement_stock env c s (suc n) >> pure tt) db in
          (x.0 ≡ ok tt) × Shifts b r (if_product b r c s q) db x.1)
        (let e : pos 0 -ℤ pos (suc n) ≡ negsuc n = omega int_laws in e)
        (retake-ok env c s (suc n) db h)

  -- Undoing the changes of a product's reserved stock, in the order in which they were made, moves
  -- its stock by their sum, if what has to be taken again is there.
  pub rollback-ok :
      (env : Env) (c : Uuid) (applied : List Applied) (db : Db F)
      → Enough (sum_by (retaken b r c) applied) (stock_of b r db)
      → ((rollback env c applied db).0 ≡ ok tt)
        × Shifts b r
            (pos (sum_by (returned b r c) applied) -ℤ pos (sum_by (retaken b r c) applied))
            db
            (rollback env c applied db).1
  unfolding rollback
  rollback-ok env c [] db h =
      (refl, Shifts-cast b r (pos 0) _ db db (omega int_laws) (Shifts-refl b r db))
  rollback-ok env c (a ∷ applied) db h =
      let (e, k) =
        undo_quantity env c a.resource_id a.quantity db
          (Enough-of_retaken b r c a (sum_by (retaken b r c) applied) (stock_of b r db) h) in
      let p = if_product_parts b r c a in
      let db' = (undo env c a db).1 in
      let (e', k') = rollback-ok env c applied db' (
        rw k.stock (
          Enough-shift _ _ (if_product b r c a.resource_id a.quantity) (stock_of b r db)
            (covered_rest _ _ _ _ p) h)) in
      rw (>>=-ok (undo env c a) (λ _. rollback env c applied) db tt e)
        (e', Shifts-cast b r _ _ db _ (sum_parts _ _ _ _ _ p) (Shifts-trans b r _ _ k k'))
