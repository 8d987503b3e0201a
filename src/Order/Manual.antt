-- ===== src/Order/Manual.antt =====
-- `adjustStock` of src/resource/application/resource.service.ts, as the orders see it.
use ventura_api.Common.{
  ◌≡◌, refl, ap, sym, ◌∙◌, ◌&&◌, Option, none, some, Uuid, Bool-cases, Option-cases, inl, inr,
  if◌then◌else◌,
}
use ventura_api.Common.Int.{ℤ, pos, ◌+ℤ◌, leb_ℤ, int_laws}
use ventura_api.Common.Action.{Result, ok, err, or_raise, and_then, conflict}
use ventura_api.Common.Keeps.{is_ok}
use ventura_api.Db.{Db, Env}
use ventura_api.Resource.Entity.{is_product, StockAdjustment}
use ventura_api.Resource.Repository.{RecordAdjustment, find_by_id, record_adjustment}
use ventura_api.Resource.Service.{StockAdjustmentDto, get_by_id, adjust_stock}
use ventura_api.Resource.Stock.{stock_of, shift, shift-shift, shift_zero, if_product, Shifts}
use ventura_api.Resource.Adjust.{Adjusted, record_adjustment-Adjusted}
use ventura_api.Order.Reserve.{reserved}
use ventura_api.Order.Conserve.{held}

module _ {F : Type 0} (b r : Uuid) where
  -- what a manual adjustment of product `s` by `d` has done
  abbrev Moved : Uuid → Uuid → ℤ → Db F → Result StockAdjustment × Db F → Type 0
  Moved c s d db (ok row, db') = Shifts b r (if_product b r c s d) db db'
  Moved c s d db (err e, db') = db' ≡ db

  adjust_stock-Moved :
      (env : Env) (c s : Uuid) (dto : StockAdjustmentDto) (by : Uuid) (db : Db F)
      → Moved c s dto.delta db (adjust_stock env c s dto by db)
  unfolding adjust_stock get_by_id
  adjust_stock-Moved env c s dto by db =
      elim (Bool-cases (leb_ℤ dto.delta (pos 0) && leb_ℤ (pos 0) dto.delta)) [
        | inl still ↦ rw still refl
        | inr moves ↦ rw moves (elim (Option-cases (find_by_id c s db)) [
          | inl missing ↦ rw (missing, or_raise) refl
          | inr (x, found) ↦
              rw (found, or_raise)
                (elim (Bool-cases (is_product x.type)) [
                  | inl good ↦
                      rw good
                        (go (record_adjustment env d db) (record_adjustment-Adjusted b r env d db))
                  | inr other ↦ rw other refl
                ])
        ])
      ]
    where
      d : RecordAdjustment
      d = record {
        business_id = c;
        resource_id = s;
        delta = dto.delta;
        reason = dto.reason;
        note = dto.note;
        created_by = some by;
      }

      go :
          (x : Result (Option StockAdjustment) × Db F)
          → Adjusted b r d db x
          → Moved c s dto.delta db
              (and_then x λ a. or_raise a (conflict "Insufficient stock for this adjustment."))
      go (ok (some row), db') h = h.0
      go (ok none, db') h = h.0
      go (err e, db') h = elim h [ ]

  -- the units of a product that a manual adjustment brings or takes, if it is accepted
  abbrev pub adjusted : Env → Uuid → Uuid → StockAdjustmentDto → Uuid → Db F → ℤ
  adjusted env c s dto by db =
      if is_ok (adjust_stock env c s dto by db).0 then if_product b r c s dto.delta else pos 0

  held_moved : (d : ℤ) (db db' : Db F) → Shifts b r d db db' → held b r db' ≡ shift d (held b r db)
  held_moved d db db' h =
      ap (λ l. shift (pos (reserved b r l)) (stock_of b r db')) h.orders
      ∙ ap (shift (pos (reserved b r db.orders))) h.stock
      ∙ shift-shift d (pos (reserved b r db.orders)) (stock_of b r db)
      ∙ ap (λ x. shift x (stock_of b r db))
          (let e : d +ℤ pos (reserved b r db.orders) ≡ pos (reserved b r db.orders) +ℤ d =
              omega int_laws in
            e)
      ∙ sym (shift-shift (pos (reserved b r db.orders)) d (stock_of b r db))

  pub adjust_stock-held :
      (env : Env) (c s : Uuid) (dto : StockAdjustmentDto) (by : Uuid) (db : Db F)
      → held b r (adjust_stock env c s dto by db).1
        ≡ shift (adjusted env c s dto by db) (held b r db)
  adjust_stock-held env c s dto by db =
      go (adjust_stock env c s dto by db) (adjust_stock-Moved env c s dto by db)
    where
      go :
          (x : Result StockAdjustment × Db F)
          → Moved c s dto.delta db x
          → held b r x.1
            ≡ shift (if is_ok x.0 then if_product b r c s dto.delta else pos 0) (held b r db)
      go (ok row, db') h = held_moved (if_product b r c s dto.delta) db db' h
      go (err e, db') h = ap (held b r) h ∙ sym (shift_zero (held b r db))
