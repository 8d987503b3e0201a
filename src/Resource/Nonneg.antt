-- ===== src/Resource/Nonneg.antt =====
-- Stock and zero in `recordAdjustment` of src/resource/infrastructure/postgres-resource.repository.ts.
use ventura_api.Common.{
  ◌≡◌, ◌&&◌, true, some, All, All-find, All-update, Bool-cases, Option-cases, inl, inr,
}
use mathlib.Core.Bool.{and-eq-true_iff}
use ventura_api.Common.Int.{ℤ, pos, ◌+ℤ◌, ◌≤ℤ◌, int_laws}
use ventura_api.Db.{Db, Env}
use ventura_api.Resource.Entity.{is_product, Resource}
use ventura_api.Resource.Repository.{
  RecordAdjustment, at, find_by_id, add_stock, enough_stock, record_adjustment,
}
use ventura_api.Resource.Stock.{enough-Covers}

covered : (d q : ℤ) → enough_stock d q ≡ true → pos 0 ≤ℤ q → pos 0 ≤ℤ q +ℤ d
covered d q h k = elim (enough-Covers d q h) [ inl rise ↦ omega int_laws | inr enough ↦ enough ]

module _ {F : Type 0} where
  abbrev pub IsStocked : Resource F → Type 0
  IsStocked x = pos 0 ≤ℤ x.available_quantity

  -- where the row that is found is stocked
  find-IsStocked :
      (d : RecordAdjustment) (x : Resource F) (db : Db F)
      → All IsStocked db.resources
      → find_by_id d.business_id d.resource_id db ≡ some x
      → IsStocked x
  find-IsStocked d x db h found =
      All-find IsStocked (at d.business_id d.resource_id) db.resources x h found

  -- If no resource has a negative stock, none has after `recordAdjustment`, whether or not it records
  -- the change.
  pub record_adjustment-IsStocked :
      (env : Env) (d : RecordAdjustment) (db : Db F)
      → All IsStocked db.resources
      → All IsStocked (record_adjustment env d db).1.resources
  unfolding record_adjustment
  record_adjustment-IsStocked env d db h =
      elim (Option-cases (find_by_id d.business_id d.resource_id db)) [
        | inl missing ↦ rw (missing, record_adjustment) h
        | inr (x, found) ↦
            elim (Bool-cases (is_product x.type && enough_stock d.delta x.available_quantity)) [
              | inl fits ↦
                  rw (found, record_adjustment, fits)
                    (All-update IsStocked (at d.business_id d.resource_id) (add_stock d.delta)
                      db.resources x h found
                      (covered d.delta x.available_quantity ((and-eq-true_iff _ _).0 fits).1
                        (find-IsStocked d x db h found)))
              | inr short ↦ rw (found, record_adjustment, short) h
            ]
      ]
