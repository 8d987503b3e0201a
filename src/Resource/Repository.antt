-- ===== src/Resource/Repository.antt =====
-- src/resource/infrastructure/postgres-resource.repository.ts. `id` is the primary key, so a query
-- for an id and a business finds one row or none, and an update that filters on it changes one row
-- or none.
use ventura_api.Common.{
  ℕ, suc, Bool, true, ◌&&◌, Option, none, some, String, List, [], ◌∷◌, Uuid, find, update, remove,
  count, ◌==◌, if◌then◌else◌, or_default, is_some,
}
use ventura_api.Common.Int.{ℤ, pos, ◌+ℤ◌, ◌-ℤ◌, ltb_ℤ, leb_ℤ}
use ventura_api.Common.Action.{ok, ◌>>=◌, ◌>>◌, pure}
use ventura_api.Db.{Db, Env, Service}
use ventura_api.Resource.Entity.{
  ResourceType, is_product, ResourceUnit, BusinessHours, Resource, StockAdjustmentReason, order,
  order_cancel, StockAdjustment,
}

-- `ICreateResource`, without the business
pub record CreateResource (F : Type 0) : Type 0 where
  pub type : ResourceType
  pub name : String
  pub price : F
  pub primary_image : Option String
  pub primary_image_key : Option String
  pub supporting_images : Option (List String)
  pub supporting_image_keys : Option (List String)
  pub description : Option String
  pub notes : Option String
  pub available_quantity : Option ℤ
  pub low_stock_threshold : Option ℤ
  pub base_unit : Option String
  pub units : Option (List (ResourceUnit F))
  pub business_hours : Option BusinessHours

-- `IUpdateResource`: a field that is `none` is not written, `some none` writes null
pub record UpdateResource (F : Type 0) : Type 0 where
  pub name : Option String
  pub price : Option F
  pub primary_image : Option (Option String)
  pub primary_image_key : Option (Option String)
  pub supporting_images : Option (List String)
  pub supporting_image_keys : Option (List String)
  pub description : Option (Option String)
  pub notes : Option (Option String)
  pub available_quantity : Option ℤ
  pub low_stock_threshold : Option ℤ
  pub base_unit : Option (Option String)
  pub units : Option (List (ResourceUnit F))
  pub business_hours : Option (Option BusinessHours)

-- `IRecordAdjustment`
pub record RecordAdjustment : Type 0 where
  pub business_id : Uuid
  pub resource_id : Uuid
  pub delta : ℤ
  pub reason : StockAdjustmentReason
  pub note : Option String
  pub created_by : Option Uuid

-- `availableQuantity: { $gte: -delta }`, asked only of a negative delta
abbrev pub enough_stock : ℤ → ℤ → Bool
enough_stock delta available =
    if ltb_ℤ delta (pos 0) then leb_ℤ (pos 0 -ℤ delta) available else true

module _ {F : Type 0} where
  -- `{ id, businessId }`
  abbrev pub at : Uuid → Uuid → Resource F → Bool
  at business_id id r = r.id == id && r.business_id == business_id

  -- a new row, with the defaults of the columns (postgres.resource-entity.ts)
  abbrev pub new_row : Env → Uuid → CreateResource F → Db F → Resource F
  new_row env business_id dto db = record {
    id = env.uuid db.drawn;
    short_id = env.label db.drawn;
    business_id = business_id;
    type = dto.type;
    name = dto.name;
    price = dto.price;
    primary_image = dto.primary_image;
    primary_image_key = dto.primary_image_key;
    supporting_images = or_default dto.supporting_images [];
    supporting_image_keys = or_default dto.supporting_image_keys [];
    description = dto.description;
    notes = dto.notes;
    available_quantity = or_default dto.available_quantity (pos 0);
    low_stock_threshold = or_default dto.low_stock_threshold (pos 5);
    base_unit = dto.base_unit;
    units = or_default dto.units [];
    business_hours = dto.business_hours;
  }

  unfoldable pub create : Env → Uuid → CreateResource F → Service F (Resource F)
  create env business_id dto db =
      let row = new_row env business_id dto db in
      (ok row, record db { resources = row ∷ db.resources; drawn = suc db.drawn })

  abbrev pub find_by_id : Uuid → Uuid → Db F → Option (Resource F)
  find_by_id business_id id db = find (at business_id id) db.resources

  abbrev pub apply_patch : UpdateResource F → Resource F → Resource F
  apply_patch p r = record r {
    name = or_default p.name r.name;
    price = or_default p.price r.price;
    primary_image = or_default p.primary_image r.primary_image;
    primary_image_key = or_default p.primary_image_key r.primary_image_key;
    supporting_images = or_default p.supporting_images r.supporting_images;
    supporting_image_keys = or_default p.supporting_image_keys r.supporting_image_keys;
    description = or_default p.description r.description;
    notes = or_default p.notes r.notes;
    available_quantity = or_default p.available_quantity r.available_quantity;
    low_stock_threshold = or_default p.low_stock_threshold r.low_stock_threshold;
    base_unit = or_default p.base_unit r.base_unit;
    units = or_default p.units r.units;
    business_hours = or_default p.business_hours r.business_hours;
  }

  unfoldable pub update_row : Uuid → Uuid → UpdateResource F → Service F (Option (Resource F))
  update_row business_id id patch db = elim (find_by_id business_id id db) [
    | none ↦ (ok none, db)
    | some r ↦ (
      ok (some (apply_patch patch r)),
      record db { resources = update (at business_id id) (apply_patch patch) db.resources },
    )
  ]

  unfoldable pub delete_row : Uuid → Uuid → Service F (Option (Resource F))
  delete_row business_id id db = elim (find_by_id business_id id db) [
    | none ↦ (ok none, db)
    | some r ↦ (ok (some r), record db { resources = remove (at business_id id) db.resources })
  ]

  -- `available_quantity + (delta)`
  abbrev pub add_stock : ℤ → Resource F → Resource F
  add_stock delta r = record r { available_quantity = r.available_quantity +ℤ delta }

  -- `resource?.availableQuantity ?? 0`
  abbrev pub balance_of : Option (Resource F) → ℤ
  balance_of none = pos 0
  balance_of (some r) = r.available_quantity

  -- the ledger row, of the resources after the change
  abbrev pub new_adjustment : Env → RecordAdjustment → List (Resource F) → Db F → StockAdjustment
  new_adjustment env d resources db = record {
    id = env.uuid db.drawn;
    business_id = d.business_id;
    resource_id = d.resource_id;
    delta = d.delta;
    reason = d.reason;
    balance_after = balance_of (find (at d.business_id d.resource_id) resources);
    note = d.note;
    created_by = d.created_by;
  }

  -- The transaction of `recordAdjustment`: the balance and the ledger row are written together.
  abbrev pub apply_adjustment : Env → RecordAdjustment → Service F (Option StockAdjustment)
  apply_adjustment env d db =
      let resources = update (at d.business_id d.resource_id) (add_stock d.delta) db.resources in
      let row = new_adjustment env d resources db in
      (
        ok (some row),
        record db {
          resources = resources;
          adjustments = row ∷ db.adjustments;
          drawn = suc db.drawn;
        },
      )

  unfoldable pub record_adjustment : Env → RecordAdjustment → Service F (Option StockAdjustment)
  record_adjustment env d db = elim (find_by_id d.business_id d.resource_id db) [
    | none ↦ (ok none, db)
    | some r ↦
        if is_product r.type && enough_stock d.delta r.available_quantity
        then apply_adjustment env d db
        else (ok none, db)
  ]

  unfoldable pub decrement_stock : Env → Uuid → Uuid → ℕ → Service F Bool
  decrement_stock env business_id id quantity = do
    adjustment ← record_adjustment env (record {
      business_id = business_id;
      resource_id = id;
      delta = pos 0 -ℤ pos quantity;
      reason = order;
      note = none;
      created_by = none;
    })
    pure (is_some adjustment)

  unfoldable pub increment_stock : Env → Uuid → Uuid → ℕ → Service F (Unit {0})
  increment_stock env business_id id quantity = do
    record_adjustment env (record {
      business_id = business_id;
      resource_id = id;
      delta = pos quantity;
      reason = order_cancel;
      note = none;
      created_by = none;
    })
    pure tt

  -- `available_quantity <= low_stock_threshold`, of the products of a business
  unfoldable pub count_low_stock : Uuid → Db F → ℕ
  count_low_stock business_id db =
      count
        (λ r.
          r.business_id == business_id
          && is_product r.type
          && leb_ℤ r.available_quantity r.low_stock_threshold)
        db.resources
