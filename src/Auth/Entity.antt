-- ===== src/Auth/Entity.antt =====
-- src/auth/domain/verification-code.entity.ts, src/auth/types/auth.types.ts and the response of
-- src/user/application/user.mapper.ts
use ventura_api.Common.{ℕ, Bool, Option, String, Uuid, Time}
use ventura_api.User.Entity.{Text, User}

pub record VerificationCode : Type 0 where
  pub id : Uuid
  pub email : Text
  pub code : String
  pub expires_at : Time
  -- failed guesses
  pub attempts : ℕ

pub record AuthTokens : Type 0 where
  pub access_token : String
  pub refresh_token : String

pub record UserResponse : Type 0 where
  pub id : Uuid
  pub short_id : String
  pub first_name : Text
  pub last_name : Option Text
  pub email : Text
  pub google_id : Option String
  pub avatar_url : Option String
  pub avatar_key : Option String
  pub business_id : Option Uuid
  pub is_system : Bool
  pub is_active : Bool
  pub is_email_verified : Bool
  pub deleted : Bool
  pub deleted_at : Option Time

abbrev pub to_user_response : User → UserResponse
to_user_response user = record {
  id = user.id;
  short_id = user.short_id;
  first_name = user.first_name;
  last_name = user.last_name;
  email = user.email;
  google_id = user.google_id;
  avatar_url = user.avatar_url;
  avatar_key = user.avatar_key;
  business_id = user.business_id;
  is_system = user.is_system;
  is_active = user.is_active;
  is_email_verified = user.is_email_verified;
  deleted = user.deleted;
  deleted_at = user.deleted_at;
}

pub record AuthResult : Type 0 where
  pub tokens : AuthTokens
  pub user : UserResponse
