-- ===== src/Resource/Adjust.antt =====
-- What the stock operations of src/resource/infrastructure/postgres-resource.repository.ts do to the
-- stock of one product and to its ledger.
use ventura_api.Common.{
  ℕ, ◌≡◌, refl, ap, ◌∙◌, Bool, true, false, ◌&&◌, Option, none, some, ◌∷◌, Uuid, is_some, ◌==◌,
  Option-cases, Bool-cases, ==_iff, inl, inr,
}
use mathlib.Core.Path.{subst}
use mathlib.Core.Bool.{and-eq-true_iff}
use ventura_api.Common.Int.{ℤ, pos, ◌+ℤ◌, ◌-ℤ◌}
use ventura_api.Common.Action.{Result, ok, err, pure, raise}
use ventura_api.Db.{Db, Env}
use ventura_api.Resource.Entity.{is_product, order, order_cancel, StockAdjustment}
use ventura_api.Resource.Repository.{
  RecordAdjustment, find_by_id, apply_adjustment, enough_stock, record_adjustment, decrement_stock,
  increment_stock,
}
use ventura_api.Resource.Stock.{
  shift, stock_of, ledger, if_product, unexplained-shift, Covers, Short, Short-of_pos,
  Short-of_missing, Short-of_test, Covers-of_test, stock-balance, stock-update, Shifts, Shifts-refl,
}

module _ {F : Type 0} (b r : Uuid) where
  pub apply_adjustment-Shifts :
      (env : Env) (d : RecordAdjustment) (db : Db F)
      → Shifts b r
          (if_product b r d.business_id d.resource_id d.delta)
          db
          (apply_adjustment env d db).1
  apply_adjustment-Shifts env d db =
      let moved = stock-update b r d.business_id d.resource_id d.delta db.resources in
      record {
        stock = moved;
        explained =
            ap
              (shift (
                pos 0
                -ℤ (if_product b r d.business_id d.resource_id d.delta
                    +ℤ ledger b r db.adjustments)))
              moved
            ∙ unexplained-shift (if_product b r d.business_id d.resource_id d.delta)
                (ledger b r db.adjustments) (stock_of b r db);
        orders = refl;
        invoices = refl;
        customers = refl;
      }

  -- what `record_adjustment` has done, by what it returned
  abbrev pub Adjusted : RecordAdjustment → Db F → Result (Option StockAdjustment) × Db F → Type 0
  Adjusted d db (ok (some row), db') =
      Shifts b r (if_product b r d.business_id d.resource_id d.delta) db db'
      × Covers d.delta (stock_of d.business_id d.resource_id db)
      × (stock_of d.business_id d.resource_id db' ≡ some row.balance_after)
      × (db'.adjustments ≡ row ∷ db.adjustments)
  Adjusted d db (ok none, db') =
      (db' ≡ db) × Short d.delta (stock_of d.business_id d.resource_id db)
  Adjusted d db (err e, db') = ⊥

  -- `recordAdjustment` returns a ledger row exactly if the product is listed and its stock covers the
  -- change (it is a rise, or the stock does not fall below zero). Then the stock of that product has moved by the change and that of others has not, the
  -- row heads the ledger and carries the resulting stock, the ledger explains the stock of every
  -- product as far as before, and orders, invoices and customers are untouched. If it returns no
  -- row, nothing has changed.
  pub record_adjustment-Adjusted :
      (env : Env) (d : RecordAdjustment) (db : Db F) → Adjusted d db (record_adjustment env d db)
  unfolding record_adjustment
  record_adjustment-Adjusted env d db =
      elim (Option-cases (find_by_id d.business_id d.resource_id db)) [
        | inl missing ↦ rw (missing, record_adjustment) (refl, Short-of_missing d.delta _ missing)
        | inr (row, found) ↦
            elim (Bool-cases (is_product row.type && enough_stock d.delta row.available_quantity)) [
              | inl fits ↦
                  rw (found, record_adjustment, fits)
                    (
                      apply_adjustment-Shifts env d db,
                      Covers-of_test d.delta _ row found fits,
                      stock-balance d.business_id d.resource_id d.delta db.resources row found
                          ((and-eq-true_iff _ _).0 fits).0,
                      refl,
                    )
              | inr short ↦
                  rw (found, record_adjustment, short)
                    (refl, Short-of_test d.delta _ row found short)
            ]
      ]

  -- what taking `n` units of product `s` has done
  abbrev pub Decremented : Uuid → Uuid → ℕ → Db F → Result Bool × Db F → Type 0
  Decremented c s n db (ok true, db') =
      Shifts b r (if_product b r c s (pos 0 -ℤ pos n)) db db'
      × Covers (pos 0 -ℤ pos n) (stock_of c s db)
  Decremented c s n db (ok false, db') = (db' ≡ db) × Short (pos 0 -ℤ pos n) (stock_of c s db)
  Decremented c s n db (err e, db') = ⊥

  pub decrement_stock-Decremented :
      (env : Env) (c s : Uuid) (n : ℕ) (db : Db F)
      → Decremented c s n db (decrement_stock env c s n db)
  unfolding decrement_stock
  decrement_stock-Decremented env c s n db =
      go (record_adjustment env d db) (record_adjustment-Adjusted env d db)
    where
      d : RecordAdjustment
      d = record {
        business_id = c;
        resource_id = s;
        delta = pos 0 -ℤ pos n;
        reason = order;
        note = none;
        created_by = none;
      }

      go :
          (x : Result (Option StockAdjustment) × Db F)
          → Adjusted d db x
          → Decremented c s n db
              (let (res, db') = x in elim res [ ok a ↦ pure (is_some a) db' | err e ↦ raise e db' ])
      go (ok (some row), db') h = (h.0, h.1)
      go (ok none, db') h = h
      go (err e, db') h = elim h [ ]

  -- a product that is not listed has no stock to move
  pub Shifts-of_absent :
      (c s : Uuid) (d : ℤ) (db : Db F)
      → stock_of c s db ≡ none
      → Shifts b r (if_product b r c s d) db db
  Shifts-of_absent c s d db e = elim (Bool-cases (s == r && c == b)) [
    | inl same ↦
        let k = (and-eq-true_iff _ _).0 same in
        let at_b : stock_of b s db ≡ none =
          subst (λ x. stock_of x s db ≡ none) ((==_iff c b).0 k.1) e in
        let at_r : stock_of b r db ≡ none =
          subst (λ x. stock_of b x db ≡ none) ((==_iff s r).0 k.0) at_b in
        record {
          stock = rw at_r;
          explained = refl;
          orders = refl;
          invoices = refl;
          customers = refl;
        }
    | inr other ↦ rw other (Shifts-refl b r db)
  ]

  -- `incrementStock` never fails. The stock of the product, if it is listed, rises by the quantity,
  -- that of others stays, the ledger explains the stock of every product as far as before, and
  -- orders, invoices and customers are untouched.
  pub increment_stock-ok :
      (env : Env) (c s : Uuid) (n : ℕ) (db : Db F)
      → ((increment_stock env c s n db).0 ≡ ok tt)
        × Shifts b r (if_product b r c s (pos n)) db (increment_stock env c s n db).1
  unfolding increment_stock
  increment_stock-ok env c s n db =
      go (record_adjustment env d db) (record_adjustment-Adjusted env d db)
    where
      d : RecordAdjustment
      d = record {
        business_id = c;
        resource_id = s;
        delta = pos n;
        reason = order_cancel;
        note = none;
        created_by = none;
      }

      after : Result (Option StockAdjustment) × Db F → Result (Unit {0}) × Db F
      after (res, db') = elim res [ ok a ↦ pure tt db' | err e ↦ raise e db' ]

      go :
          (x : Result (Option StockAdjustment) × Db F)
          → Adjusted d db x
          → ((after x).0 ≡ ok tt) × Shifts b r (if_product b r c s (pos n)) db (after x).1
      go (ok (some row), db') h = (refl, h.0)
      go (ok none, db') h =
          (refl, rw h.0 (Shifts-of_absent c s (pos n) db (Short-of_pos n (stock_of c s db) h.1)))
      go (err e, db') h = elim h [ ]
