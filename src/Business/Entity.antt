-- ===== src/Business/Entity.antt =====
-- src/business/domain/business.entity.ts
use ventura_api.Common.{Bool, Option, String, List, Uuid}
use ventura_api.Resource.Entity.{BusinessHours}

pub record Business : Type 0 where
  pub id : Uuid
  pub short_id : String
  pub name : String
  pub owner_id : Uuid
  pub categories : List String
  pub description : Option String
  pub tag_line : Option String
  pub logo : Option String
  pub logo_key : Option String
  pub email : Option String
  pub phone : Option String
  pub website : Option String
  pub address : Option String
  pub city : Option String
  pub state : Option String
  pub country : Option String
  pub tax_id : Option String
  pub registration_number : Option String
  pub business_hours : Option BusinessHours
  -- links by platform
  pub socials : List (String × String)
  pub is_active : Bool
