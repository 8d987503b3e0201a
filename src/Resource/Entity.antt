-- ===== src/Resource/Entity.antt =====
-- src/resource/domain: the rows of `resources` and of `stock_adjustments`. The creation and update
-- times that MikroORM stamps are left out of every row.
use ventura_api.Common.{ℕ, Bool, true, false, String, Option, List, Uuid}
use ventura_api.Common.Int.{ℤ}

pub data ResourceType : Type 0 where
  product service : ResourceType

abbrev pub is_product : ResourceType → Bool
is_product ResourceType.product = true
is_product ResourceType.service = false

-- `factor` base units are sold as one `name`; whole factors only
pub record ResourceUnit (F : Type 0) : Type 0 where
  pub name : String
  pub factor : ℕ
  pub price : F

-- opening and closing time by weekday
abbrev pub BusinessHours : Type 0
BusinessHours = List (String × String × String)

pub record Resource (F : Type 0) : Type 0 where
  pub id : Uuid
  pub short_id : String
  pub business_id : Uuid
  pub type : ResourceType
  pub name : String
  pub price : F
  pub primary_image : Option String
  pub primary_image_key : Option String
  pub supporting_images : List String
  pub supporting_image_keys : List String
  pub description : Option String
  pub notes : Option String
  pub available_quantity : ℤ
  pub low_stock_threshold : ℤ
  pub base_unit : Option String
  pub units : List (ResourceUnit F)
  pub business_hours : Option BusinessHours

pub data StockAdjustmentReason : Type 0 where
  opening_balance order order_cancel restock correction manual : StockAdjustmentReason

-- a row of the append-only stock ledger
pub record StockAdjustment : Type 0 where
  pub id : Uuid
  pub business_id : Uuid
  pub resource_id : Uuid
  pub delta : ℤ
  pub reason : StockAdjustmentReason
  pub balance_after : ℤ
  pub note : Option String
  pub created_by : Option Uuid
