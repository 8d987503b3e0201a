-- ===== src/User/Entity.antt =====
-- src/user/domain/user.entity.ts, email-change.repository.ts and src/user/events/user.events.ts. The
-- addresses and names, which the code takes apart, are texts by their code points.
use ventura_api.Common.{ℕ, Bool, Option, String, List, Uuid, Time}

abbrev pub Text : Type 0
Text = List ℕ

pub data UserRole : Type 0 where
  owner admin operator sales : UserRole

pub record User : Type 0 where
  pub id : Uuid
  pub short_id : String
  pub role : UserRole
  pub first_name : Text
  pub last_name : Option Text
  pub email : Text
  pub google_id : Option String
  pub apple_id : Option String
  pub password : Option String
  pub hashed_refresh_token : Option String
  pub avatar_url : Option String
  pub avatar_key : Option String
  pub business_id : Option Uuid
  pub is_system : Bool
  pub is_active : Bool
  pub is_email_verified : Bool
  pub deleted : Bool
  pub deleted_at : Option Time

-- `IPendingEmailChange`
pub record EmailChange : Type 0 where
  pub user_id : Uuid
  pub new_email : Text
  pub code : String
  pub expires_at : Time

pub data UserEvent : Type 0 where
  account_deleted account_restored permanently_deleted : UserEvent
