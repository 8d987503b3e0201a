-- ===== src/Customer/Entity.antt =====
-- src/customer/domain/customer.entity.ts
use ventura_api.Common.{String, Option, Uuid}

pub record Customer : Type 0 where
  pub id : Uuid
  pub short_id : String
  pub business_id : Uuid
  pub name : String
  pub email : Option String
  pub phone : Option String
  pub notes : Option String
