-- ===== src/Resource/Service.antt =====
-- src/resource/application/resource.service.ts
use ventura_api.Common.{
  not, ◌&&◌, Option, none, some, String, List, [], ◌∷◌, Uuid, filter, if◌then◌else◌, or_default,
  is_some,
}
use ventura_api.Common.Int.{ℤ, pos, leb_ℤ}
use ventura_api.Common.Text.{truthy, is_text, has_text}
use ventura_api.Common.Action.{
  ◌>>=◌, ◌>>◌, pure, gets, or_raise, raise_if, modify, not_found, bad_request, conflict,
}
use ventura_api.Db.{Env, Service}
use ventura_api.Resource.Entity.{
  ResourceType, is_product, ResourceUnit, Resource, StockAdjustmentReason, StockAdjustment,
}
use ventura_api.Resource.Repository
use ventura_api.Resource.Repository.{CreateResource, UpdateResource}

-- `CreateStockAdjustmentDto`
pub record StockAdjustmentDto : Type 0 where
  pub delta : ℤ
  pub reason : StockAdjustmentReason
  pub note : Option String

-- the keys of `old` that `new` leaves out
abbrev pub removed_keys : List String → List String → List String
removed_keys old new = filter (λ key. not (has_text key new)) old

module _ {F : Type 0} where
  -- fields that do not belong to the type are refused
  unfoldable pub assert_fields_match_type :
      {Label Hours : Type 0}
      → ResourceType
      → Option ℤ
      → Option ℤ
      → Option Label
      → Option (List (ResourceUnit F))
      → Option Hours
      → Service F (Unit {0})
  assert_fields_match_type type available_quantity low_stock_threshold base_unit units hours = do
    raise_if (not (is_product type) && is_some available_quantity)
        (bad_request "availableQuantity is not valid for a service.")
    raise_if (not (is_product type) && is_some low_stock_threshold)
        (bad_request "lowStockThreshold is not valid for a service.")
    raise_if (not (is_product type) && is_some base_unit)
        (bad_request "baseUnit is not valid for a service.")
    raise_if (not (is_product type) && is_some units)
        (bad_request "units are not valid for a service.")
    raise_if (is_product type && is_some hours)
        (bad_request "businessHours is not valid for a product.")

  unfoldable pub create : Env → Uuid → CreateResource F → Service F (Resource F)
  create env business_id dto = do
    assert_fields_match_type dto.type dto.available_quantity dto.low_stock_threshold dto.base_unit
        dto.units dto.business_hours
    Repository.create env business_id dto

  unfoldable pub get_by_id : Uuid → Uuid → Service F (Resource F)
  get_by_id business_id id = do
    resource ← gets (Repository.find_by_id business_id id)
    or_raise resource (not_found "Resource not found.")

  -- `deleteObject`: a failure of the file storage is logged and ignored
  abbrev pub delete_object : String → Service F (Unit {0})
  delete_object key = modify λ db. record db { deleted_objects = key ∷ db.deleted_objects }

  unfoldable pub delete_objects : List String → Service F (Unit {0})
  delete_objects [] = pure tt
  delete_objects (key ∷ keys) = do delete_object key; delete_objects keys

  -- The primary image is dropped if the update names another.
  unfoldable pub drop_primary : Option String → Option (Option String) → Service F (Unit {0})
  drop_primary old new =
      if is_some new && truthy old && not (is_text (or_default new none) (or_default old ""))
      then delete_object (or_default old "")
      else pure tt

  -- So are the supporting images that the update leaves out.
  unfoldable pub drop_supporting : List String → Option (List String) → Service F (Unit {0})
  drop_supporting old none = pure tt
  drop_supporting old (some new) = delete_objects (removed_keys old new)

  unfoldable pub update : Uuid → Uuid → UpdateResource F → Service F (Resource F)
  update business_id id dto = do
    resource ← get_by_id business_id id
    assert_fields_match_type resource.type dto.available_quantity dto.low_stock_threshold
        dto.base_unit dto.units dto.business_hours
    updated ← Repository.update_row business_id id dto
    drop_primary resource.primary_image_key dto.primary_image_key
    drop_supporting resource.supporting_image_keys dto.supporting_image_keys
    pure (or_default updated resource)

  unfoldable pub delete : Uuid → Uuid → Service F (Resource F)
  delete business_id id = do
    removed ← Repository.delete_row business_id id
    or_raise removed (not_found "Resource not found.")

  -- a manual movement of stock
  unfoldable pub adjust_stock :
      Env → Uuid → Uuid → StockAdjustmentDto → Uuid → Service F StockAdjustment
  adjust_stock env business_id id dto created_by = do
    raise_if (leb_ℤ dto.delta (pos 0) && leb_ℤ (pos 0) dto.delta)
        (bad_request "delta must be a non-zero integer.")
    resource ← get_by_id business_id id
    raise_if (not (is_product resource.type))
        (bad_request "Stock adjustments apply to products only.")
    adjustment ← Repository.record_adjustment env (record {
      business_id = business_id;
      resource_id = id;
      delta = dto.delta;
      reason = dto.reason;
      note = dto.note;
      created_by = some created_by;
    })
    or_raise adjustment (conflict "Insufficient stock for this adjustment.")
