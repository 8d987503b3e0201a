-- ===== src/Resource/Counter.antt =====
-- What the stock operations of src/resource/infrastructure/postgres-resource.repository.ts promise to
-- their callers: counters that are asked before they fall.
use ventura_api.Common.{
  ℕ, ◌≡◌, refl, ap, ◌∙◌, Bool, true, false, not, ◌&&◌, Option, none, some, List, [], ◌∷◌, Uuid,
  if◌then◌else◌, arith, is_some, inl, inr,
}
use mathlib.Core.Path.{fun_ext}
use ventura_api.Common.Int.{ℤ, pos, ◌+ℤ◌, ◌-ℤ◌, ltb_ℤ, +ℤ_parts}
use ventura_api.Common.Action.{Result, ok, err}
use ventura_api.Db.{Db, Env}
use ventura_api.Resource.Entity.{StockAdjustment}
use ventura_api.Resource.Repository.{
  RecordAdjustment, record_adjustment, decrement_stock, increment_stock,
}
use ventura_api.Resource.Stock.{stock_of, shift, if_product, Covers, Short, Shifts}
use ventura_api.Resource.Adjust.{
  Adjusted, record_adjustment-Adjusted, Decremented, decrement_stock-Decremented,
  increment_stock-ok,
}

-- the stock of each product of each business, if it is listed
abbrev pub Counters : Type 0
Counters = Uuid → Uuid → Option ℤ

pub data Call : Type 0 where
  take give : Uuid → Uuid → ℕ → Call
  adjust : RecordAdjustment → Call

-- a listed product covers a rise, and a fall that leaves at least nothing
abbrev pub covers : ℤ → Option ℤ → Bool
covers d none = false
covers d (some q) = not (ltb_ℤ d (pos 0) && ltb_ℤ (q +ℤ d) (pos 0))

abbrev pub move : Uuid → Uuid → ℤ → Counters → Counters
move c s d counters b r = shift (if_product b r c s d) (counters b r)

-- a change that is refused where it is not covered, and whether it was made
abbrev pub ask : Uuid → Uuid → ℤ → Counters → Bool × Counters
ask c s d counters =
    if covers d (counters c s) then (true, move c s d counters) else (false, counters)

-- the calls on the counters
abbrev pub promise : Call → Counters → Bool × Counters
promise (take c s n) counters = ask c s (pos 0 -ℤ pos n) counters
promise (give c s n) counters = (true, move c s (pos n) counters)
promise (adjust d) counters = ask d.business_id d.resource_id d.delta counters

covers_of-Covers : (d : ℤ) (o : Option ℤ) → Covers d o → covers d o ≡ true
covers_of-Covers d none h = elim h [ ]
covers_of-Covers d (some q) (inl rise) = ground arith
covers_of-Covers d (some q) (inr enough) = ground arith

covers_of-Short : (d : ℤ) (o : Option ℤ) → Short d o → covers d o ≡ false
covers_of-Short d none h = refl
covers_of-Short d (some q) (falls, lacks) =
    ground (arith, +ℤ_parts d (pos 1), +ℤ_parts (q +ℤ d) (pos 1))

module _ {F : Type 0} where
  abbrev pub counters_of : Db F → Counters
  counters_of db b r = stock_of b r db

  abbrev accepted : {A : Type 0} → (A → Bool) → Result A × Db F → Bool × Db F
  accepted f (ok a, db) = (f a, db)
  accepted f (err e, db) = (false, db)

  -- the calls on the tables
  abbrev pub perform : Env → Call → Db F → Bool × Db F
  perform env (take c s n) db = accepted (λ enough. enough) (decrement_stock env c s n db)
  perform env (give c s n) db = accepted (λ _. true) (increment_stock env c s n db)
  perform env (adjust d) db = accepted is_some (record_adjustment env d db)

  -- the answers of the calls, and what is left
  abbrev pub answers : List (Env × Call) → Db F → List Bool × Db F
  answers [] db = ([], db)
  answers ((env, call) ∷ calls) db =
      let (answer, db') = perform env call db in
      let (rest, last) = answers calls db' in (answer ∷ rest, last)

abbrev pub promised : {E : Type 0} → List (E × Call) → Counters → List Bool × Counters
promised [] counters = ([], counters)
promised ((_, call) ∷ calls) counters =
    let (answer, counters') = promise call counters in
    let (rest, last) = promised calls counters' in (answer ∷ rest, last)

module _ {F : Type 0} where
  -- the product is asked for the change, and has it or not
  asked_true :
      (c s : Uuid) (d : ℤ) (db db' : Db F)
      → Covers d (stock_of c s db)
      → ((b r : Uuid) → Shifts b r (if_product b r c s d) db db')
      → (true, counters_of db') ≡ ask c s d (counters_of db)
  asked_true c s d db db' covered h =
      rw (covers_of-Covers d (stock_of c s db) covered)
        (ap (λ k. (true, k)) (fun_ext λ b. fun_ext λ r. (h b r).stock))

  asked_false :
      (c s : Uuid) (d : ℤ) (db db' : Db F)
      → Short d (stock_of c s db)
      → db' ≡ db
      → (false, counters_of db') ≡ ask c s d (counters_of db)
  asked_false c s d db db' short same =
      rw (covers_of-Short d (stock_of c s db) short) (ap (λ x. (false, counters_of x)) same)

  -- an answer, with the counters that are left
  abbrev seen : Bool × Db F → Bool × Counters
  seen (answer, db) = (answer, counters_of db)

  perform-promise :
      (env : Env) (call : Call) (db : Db F)
      → seen (perform env call db) ≡ promise call (counters_of db)
  perform-promise env (take c s n) db =
      go (decrement_stock env c s n db) (λ b r. decrement_stock-Decremented b r env c s n db)
    where
      go :
          (x : Result Bool × Db F)
          → ((b r : Uuid) → Decremented b r c s n db x)
          → seen (accepted (λ enough. enough) x) ≡ ask c s (pos 0 -ℤ pos n) (counters_of db)
      go (ok true, db') h = asked_true c s (pos 0 -ℤ pos n) db db' (h 0 0).1 (λ b r. (h b r).0)
      go (ok false, db') h = asked_false c s (pos 0 -ℤ pos n) db db' (h 0 0).1 (h 0 0).0
      go (err e, db') h = absurd (h 0 0)
  perform-promise env (give c s n) db =
      go (increment_stock env c s n db) (increment_stock-ok 0 0 env c s n db).0
        (λ b r. (increment_stock-ok b r env c s n db).1)
    where
      go :
          (x : Result (Unit {0}) × Db F)
          → x.0 ≡ ok tt
          → ((b r : Uuid) → Shifts b r (if_product b r c s (pos n)) db x.1)
          → seen (accepted (λ _. true) x) ≡ (true, move c s (pos n) (counters_of db))
      go (ok _, db') e h = ap (λ k. (true, k)) (fun_ext λ b. fun_ext λ r. (h b r).stock)
      go (err x, db') e h = cc
  perform-promise env (adjust d) db =
      go (record_adjustment env d db) (λ b r. record_adjustment-Adjusted b r env d db)
    where
      go :
          (x : Result (Option StockAdjustment) × Db F)
          → ((b r : Uuid) → Adjusted b r d db x)
          → seen (accepted is_some x) ≡ ask d.business_id d.resource_id d.delta (counters_of db)
      go (ok (some row), db') h =
          asked_true d.business_id d.resource_id d.delta db db' (h 0 0).1 (λ b r. (h b r).0)
      go (ok none, db') h =
          asked_false d.business_id d.resource_id d.delta db db' (h 0 0).1 (h 0 0).0
      go (err e, db') h = absurd (h 0 0)

  abbrev pub all_seen : List Bool × Db F → List Bool × Counters
  all_seen (rest, db) = (rest, counters_of db)

  -- Any sequence of `decrementStock`, `incrementStock` and `recordAdjustment`, of any products and with
  -- whatever is drawn for the ledger rows, answers and leaves the stock exactly as one counter for each
  -- listed product does, which refuses a fall below zero, makes every other change of it as a whole, and
  -- leaves other counters alone.
  pub answers-promised :
      (calls : List (Env × Call)) (db : Db F)
      → all_seen (answers calls db) ≡ promised calls (counters_of db)
  answers-promised [] db = refl
  answers-promised ((env, call) ∷ calls) db =
      let (answer, db') = perform env call db in
      ap (λ rest. (answer ∷ rest.0, rest.1)) (answers-promised calls db')
      ∙ ap (λ x. (x.0 ∷ (promised calls x.1).0, (promised calls x.1).1))
          (perform-promise env call db)
