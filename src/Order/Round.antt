-- ===== src/Order/Round.antt =====
-- A round of the loop of `updateItems` in src/order/application/order.service.ts: what it does to the stock of a
-- product, and what it has recorded for its rollback.
use ventura_api.Common.{
  ℕ, ◌+◌, ◌-◌, ◌<◌, ◌≡◌, refl, Bool, true, false, ◌&&◌, Option, none, some, String, List, [], ◌∷◌,
  ◌++◌, Uuid, sum_by, sum_by-append, ◌==◌, ltb, if◌then◌else◌, or_default, arith, Bool-cases, inl,
  inr,
}
use mathlib.Core.Path.{subst}
use native.Mathlib.Nat.{add-zero}
use ventura_api.Common.Int.{ℤ, pos, neg_part, ◌+ℤ◌, ◌-ℤ◌, int_laws}
use ventura_api.Common.Action.{Result, ok, err, conflict, raise, pure, and_then, >>=-ok}
use ventura_api.Db.{Db, Env}
use ventura_api.Resource.Repository.{decrement_stock, increment_stock}
use ventura_api.Resource.Stock.{stock_of, shift, if_product, Covers, Shifts, Shifts-trans}
use ventura_api.Resource.Adjust.{Decremented, decrement_stock-Decremented, increment_stock-ok}
use ventura_api.Order.Service.{Applied, insufficient_stock}
use ventura_api.Order.Quantities.{Map, get, quantity_of}
use ventura_api.Order.Items.{rollback, rejected, reconcile_one}
use ventura_api.Order.Reserve.{Shifts-cast}
use ventura_api.Order.Rollback.{Enough, Enough-shift, retaken, returned, rollback-ok, stock_of_same}

module _ (b r c : Uuid) where
  abbrev pub retakes : List Applied → ℕ
  retakes = sum_by (retaken b r c)

  abbrev pub returns : List Applied → ℕ
  returns = sum_by (returned b r c)

  abbrev applied_one : Uuid → ℤ → List Applied
  applied_one s q = record { resource_id = s; quantity = q } ∷ []

  -- a change of the stock and its record
  added :
      (applied : List Applied) (s : Uuid) (q e d : ℤ)
      → q ≡ pos 0 -ℤ e
      → d ≡ pos (retakes applied) -ℤ pos (returns applied)
      → d +ℤ if_product b r c s e
        ≡ pos (retakes (applied ++ applied_one s q)) -ℤ pos (returns (applied ++ applied_one s q))
  added applied s q e d h k =
      rw
        (
          sum_by-append (retaken b r c) applied (applied_one s q),
          sum_by-append (returned b r c) applied (applied_one s q),
          h,
          k,
        )
        (elim (Bool-cases (s == r && c == b)) [
          | inl same ↦ rw same (omega int_laws)
          | inr other ↦ rw other (omega int_laws)
        ])

  -- what a round moves
  abbrev pub change : Map ℕ → Map ℕ → Uuid → ℤ
  change old new s = if_product b r c s (pos (quantity_of s old) -ℤ pos (quantity_of s new))

  unchanged :
      (s : Uuid) (d : ℤ) (m n : ℕ)
      → ltb m n ≡ false
      → ltb n m ≡ false
      → d ≡ d +ℤ if_product b r c s (pos m -ℤ pos n)
  unchanged s d m n h k =
      let e : m ≡ n = ground arith in
      elim (Bool-cases (s == r && c == b)) [
        | inl same ↦ rw same (omega int_laws)
        | inr other ↦ rw other (omega int_laws)
      ]

  retakes_other :
      (applied : List Applied) (s : Uuid) (q : ℤ)
      → (s == r && c == b) ≡ false
      → retakes (applied ++ applied_one s q) ≡ retakes applied
  retakes_other applied s q h =
      rw (sum_by-append (retaken b r c) applied (applied_one s q), h) (omega arith)

neg_part-sub : (n k : ℕ) → neg_part (pos n -ℤ pos k) ≡ k - n
unfolding ◌-ℤ◌
neg_part-sub n k = ground arith

-- what is left once the guard has let a fall pass
left_over :
    (n m k : ℕ) (o : Option ℤ)
    → k < n
    → m ≡ 0
    → Covers (pos 0 -ℤ pos (n - k)) o
    → Enough (m + neg_part (pos n -ℤ pos k)) (shift (pos 0 -ℤ pos (n - k)) o)
left_over n m k none h e cover = tt
left_over n m k (some q) h e (inl rise) = absurd (omega int_laws)
left_over n m k (some q) h e (inr enough) = omega (int_laws, neg_part-sub n k)

module _ {F : Type 0} (b r c : Uuid) where
  -- What the loop has done so far, from the state `db₀` on: the stock has moved by `d`, the recorded
  -- changes amount to that, and what a rollback has to take again is there; or the loop has failed
  -- and the stock is as it was.
  abbrev pub Reconciling : Db F → ℤ → Result (List Applied) × Db F → Type 0
  Reconciling db₀ d (ok applied, db) =
      Shifts b r d db₀ db
      × (d ≡ pos (retakes b r c applied) -ℤ pos (returns b r c applied))
      × Enough (retakes b r c applied) (stock_of b r db)
  Reconciling db₀ d (err e, db) = Shifts b r (pos 0) db₀ db

  -- one more change, recorded
  recorded :
      (applied : List Applied) (s : Uuid) (q e d : ℤ) (db₀ db db' : Db F)
      → q ≡ pos 0 -ℤ e
      → Reconciling db₀ d (ok applied, db)
      → Shifts b r (if_product b r c s e) db db'
      → Enough
          (retakes b r c applied + retaken b r c (record { resource_id = s; quantity = q }))
          (stock_of b r db')
      → Reconciling db₀ (d +ℤ if_product b r c s e) (ok (applied ++ applied_one b r c s q), db')
  recorded applied s q e d db₀ db db' h (moved, same, there) k enough = (
    Shifts-trans b r d _ moved k,
    added b r c applied s q e d h same,
    rw (sum_by-append (retaken b r c) applied (applied_one b r c s q)) (rw add-zero enough),
  )

  -- what one round has done; the units to take again change for its own product only
  abbrev pub Stepped : Uuid → List Applied → Db F → ℤ → Result (List Applied) × Db F → Type 0
  Stepped s applied db₀ d (ok applied', db) =
      Reconciling db₀ d (ok applied', db)
      × ((s == r && c == b) ≡ false → retakes b r c applied' ≡ retakes b r c applied)
  Stepped s applied db₀ d (err e, db) = Shifts b r (pos 0) db₀ db

  -- a product without enough stock ends the loop
  rejected-Stepped :
      (env : Env) (s : Uuid) (applied : List Applied) (name : String) (d d' : ℤ) (db₀ db : Db F)
      → Reconciling db₀ d (ok applied, db)
      → Stepped s applied db₀ d' (rejected env c applied name db)
  rejected-Stepped env s applied name d d' db₀ db (moved, same, there) =
      let (e, back) = rollback-ok b r env c applied db there in
      rw (>>=-ok (rollback env c applied) (λ _. raise (conflict (insufficient_stock name))) db tt e)
        (Shifts-cast b r _ _ db₀ _ (rw same (omega int_laws)) (Shifts-trans b r d _ moved back))

  -- the round of a product of which more is wanted
  take_more :
      (env : Env) (s : Uuid) (name : String) (before after : ℕ) (applied : List Applied) (d : ℤ)
      (db₀ db : Db F)
      → before < after
      → ((s == r && c == b) ≡ true → retakes b r c applied ≡ 0)
      → Reconciling db₀ d (ok applied, db)
      → (x : Result Bool × Db F) → Decremented b r c s (after - before) db x
      → Stepped s applied db₀ (d +ℤ if_product b r c s (pos before -ℤ pos after)) (
          and_then x λ enough.
            if enough
            then pure (applied ++ applied_one b r c s (pos after -ℤ pos before))
            else rejected env c applied name)
  take_more env s name before after applied d db₀ db more fresh h (ok true, db') (k, cover) =
      let e : pos 0 -ℤ pos (after - before) ≡ pos before -ℤ pos after = omega int_laws in
      (
        rw (← e) (
            recorded applied s (pos after -ℤ pos before) (pos 0 -ℤ pos (after - before)) d db₀ db
              db' (omega int_laws) h k
              (rw k.stock (elim (Bool-cases (s == r && c == b)) [
                | inl same ↦ rw same (
                    left_over after (retakes b r c applied) before (stock_of b r db) more
                      (fresh same) (rw (← stock_of_same b r c s db same) cover))
                | inr other ↦ rw other (
                    Enough-shift (retakes b r c applied) _ (pos 0) (stock_of b r db)
                      (omega int_laws) h.2)
              ]))),
        retakes_other b r c applied s (pos after -ℤ pos before),
      )
  take_more env s name before after applied d db₀ db more fresh h (ok false, db') (k, short) =
      rw k (rejected-Stepped env s applied name d _ db₀ db h)
  take_more env s name before after applied d db₀ db more fresh h (err e, db') k = elim k [ ]

  -- the round of a product of which less is wanted
  give_back :
      (env : Env) (s : Uuid) (before after : ℕ) (applied : List Applied) (d : ℤ) (db₀ db : Db F)
      → after < before
      → Reconciling db₀ d (ok applied, db)
      → (x : Result (Unit {0}) × Db F) → x.0 ≡ ok tt
      → Shifts b r (if_product b r c s (pos (before - after))) db x.1
      → Stepped s applied db₀
          (d +ℤ if_product b r c s (pos before -ℤ pos after))
          (and_then x λ _. pure (applied ++ applied_one b r c s (pos after -ℤ pos before)))
  give_back env s before after applied d db₀ db less h (ok _, db') e k =
      let p : pos (before - after) ≡ pos before -ℤ pos after = omega int_laws in
      (
        rw (← p) (
            recorded applied s (pos after -ℤ pos before) (pos (before - after)) d db₀ db db'
              (omega int_laws) h k
              (rw k.stock (elim (Bool-cases (s == r && c == b)) [
                | inl same ↦ rw same (
                    Enough-shift (retakes b r c applied) _ (pos (before - after)) (stock_of b r db)
                      (omega (int_laws, neg_part-sub after before)) h.2)
                | inr other ↦ rw other (
                    Enough-shift (retakes b r c applied) _ (pos 0) (stock_of b r db)
                      (omega int_laws) h.2)
              ]))),
        retakes_other b r c applied s (pos after -ℤ pos before),
      )
  give_back env s before after applied d db₀ db less h (err x, db') e k = cc

  pub reconcile_one-Stepped :
      (env : Env) (names : Map String) (old new : Map ℕ) (s : Uuid) (applied : List Applied) (d : ℤ)
      (db₀ db : Db F)
      → ((s == r && c == b) ≡ true → retakes b r c applied ≡ 0)
      → Reconciling db₀ d (ok applied, db)
      → Stepped s applied db₀
          (d +ℤ change b r c old new s)
          (reconcile_one env c names old new s applied db)
  unfolding reconcile_one
  reconcile_one-Stepped env names old new s applied d db₀ db fresh h =
      let before = quantity_of s old in
      let after = quantity_of s new in
      elim (Bool-cases (ltb before after)) [
        | inl more ↦ rw more (
            take_more env s (or_default (get s names) "") before after applied d db₀ db
              (let k : before < after = ground arith in k) fresh h
              (decrement_stock env c s (after - before) db)
              (decrement_stock-Decremented b r env c s (after - before) db))
        | inr no_more ↦ rw no_more (elim (Bool-cases (ltb after before)) [
          | inl less ↦
              let (e, k) = increment_stock-ok b r env c s (before - after) db in
              rw less (
                give_back env s before after applied d db₀ db
                  (let k : after < before = ground arith in k) h
                  (increment_stock env c s (before - after) db) e k)
          | inr same ↦ rw same (
            subst (λ x. Reconciling db₀ x (ok applied, db))
                (unchanged b r c s d before after no_more same) h,
            λ other. refl,
          )
        ])
      ]
