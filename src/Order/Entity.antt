-- ===== src/Order/Entity.antt =====
-- src/order/domain: orders and the snapshots of their lines.
use ventura_api.Common.{ℕ, Bool, true, false, String, Option, List, Uuid}
use ventura_api.Resource.Entity.{ResourceType}

pub data OrderStatus : Type 0 where
  pending completed cancelled : OrderStatus

-- `a === b`
abbrev pub same_status : OrderStatus → OrderStatus → Bool
same_status OrderStatus.pending OrderStatus.pending = true
same_status OrderStatus.completed OrderStatus.completed = true
same_status OrderStatus.cancelled OrderStatus.cancelled = true
same_status _ _ = false

-- a line as it stood when it was ordered: `quantity` of `unit`, each `unit_factor` base units
pub record OrderItem (F : Type 0) : Type 0 where
  pub resource_id : Uuid
  pub type : ResourceType
  pub name : String
  pub price : F
  pub quantity : ℕ
  pub unit : String
  pub unit_factor : ℕ
  pub sub_total : F

pub record Order (F : Type 0) : Type 0 where
  pub id : Uuid
  pub order_number : String
  pub business_id : Uuid
  pub customer_id : Uuid
  pub customer_name : String
  pub customer_email : Option String
  pub customer_phone : Option String
  pub items : List (OrderItem F)
  pub total_amount : F
  pub status : OrderStatus
  pub invoice_id : Option Uuid
