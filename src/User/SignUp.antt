-- ===== src/User/SignUp.antt =====
-- How accounts come to be and are linked, in src/user/application/user.service.ts.
use ventura_api.Common.{
  Bool, true, false, not, ◌&&◌, Option, none, some, String, [], ◌∷◌, ◌==◌, if◌then◌else◌,
  or_default,
}
use ventura_api.Common.Text.{truthy, is_text, codes}
use ventura_api.Common.Action.{
  ◌>>=◌, ◌>>◌, pure, gets, or_raise, if_found, raise_if, not_found, conflict,
}
use ventura_api.Accounts.{Env, Service}
use ventura_api.User.Entity.{Text, User}
use ventura_api.User.Repository.{
  CreateUser, Key, absent, undefined, set, UpdateUser, no_change, find_by_email, find_by_apple_id,
  create, update_row,
}
use ventura_api.User.Service.{normalize_email}

-- `text.split('@')[0]`
unfoldable pub local_part : Text → Text
local_part [] = []
local_part (c ∷ cs) = let rest = local_part cs in if c == b'@' then [] else c ∷ rest

-- `a || b`
abbrev pub or_else : Text → Text → Text
or_else [] b = b
or_else (c ∷ cs) b = c ∷ cs

abbrev pub is_empty : Text → Bool
is_empty [] = true
is_empty (c ∷ cs) = false

-- a row of which only the name and the address are given
abbrev pub new_user : Text → Text → CreateUser
new_user first_name email = record {
  first_name = first_name;
  email = email;
  last_name = none;
  google_id = none;
  apple_id = none;
  avatar_url = none;
  is_email_verified = false;
}

-- the user, and whether it was created
unfoldable pub find_or_create_by_email : Env → Text → Service (User × Bool)
unfolding local_part create
find_or_create_by_email env email = do
  existing ← gets (find_by_email (normalize_email email))
  if_found existing (λ user. pure (user, false))
      (do
        user ← create env (
            new_user (or_else (local_part (normalize_email email)) (codes "there"))
              (normalize_email email))
        pure (user, true))

unfoldable pub create_with_email : Env → Text → Text → Service User
unfolding create
create_with_email env first_name email = do
  existing ← gets (find_by_email (normalize_email email))
  if_found existing pure (create env (new_user first_name (normalize_email email)))

pub record CreateUserWithGoogleDto : Type 0 where
  pub first_name : Text
  pub last_name : Option Text
  pub email : Text
  pub google_id : String
  pub avatar_url : Option String

abbrev pub google_row : CreateUserWithGoogleDto → CreateUser
google_row dto = record {
  first_name = dto.first_name;
  last_name = dto.last_name;
  email = normalize_email dto.email;
  google_id = some dto.google_id;
  apple_id = none;
  avatar_url = dto.avatar_url;
  is_email_verified = true;
}

unfoldable pub create_with_google : Env → CreateUserWithGoogleDto → Service User
unfolding create
create_with_google env dto = do
  existing ← gets (find_by_email (normalize_email dto.email))
  if_found existing pure (create env (google_row dto))

pub record AppleParams : Type 0 where
  pub apple_id : String
  pub email : Text
  pub first_name : Option Text
  pub last_name : Option Text

-- what `params.firstName && !existing.firstName ? params.firstName : undefined` puts in the patch
abbrev pub name_key : Text → Option Text → Key Text
name_key old none = undefined
name_key old (some new) = if is_empty old && not (is_empty new) then set new else undefined

-- the same of a nullable column, where `undefined` leaves the column
abbrev pub last_name_key : Option Text → Option Text → Option (Option Text)
last_name_key old none = none
last_name_key old (some new) =
    if is_empty (or_default old []) && not (is_empty new) then some (some new) else none

abbrev pub apple_patch : AppleParams → User → UpdateUser
apple_patch params existing = record no_change {
  apple_id = some params.apple_id;
  first_name = name_key existing.first_name params.first_name;
  last_name = last_name_key existing.last_name params.last_name;
  is_email_verified = some true;
}

abbrev pub apple_row : AppleParams → CreateUser
apple_row params = record {
  first_name =
      or_else (or_default params.first_name [])
        (or_else (local_part (normalize_email params.email)) (codes "there"));
  last_name = params.last_name;
  email = normalize_email params.email;
  google_id = none;
  apple_id = some params.apple_id;
  avatar_url = none;
  is_email_verified = true;
}

-- links the Apple id to the account with the address, or makes an account
unfoldable pub link_or_create : Env → AppleParams → Service User
unfolding create update_row
link_or_create env params = do
  existing ← gets (find_by_email (normalize_email params.email))
  if_found existing
      (λ user. do
        linked ← update_row env user.id (apple_patch params user)
        pure (or_default linked user))
      (create env (apple_row params))

unfoldable pub create_with_apple : Env → AppleParams → Service User
unfolding link_or_create
create_with_apple env params = do
  existing ← gets (find_by_apple_id params.apple_id)
  if_found existing pure (link_or_create env params)

pub data LinkFieldAction : Type 0 where
  keep update : LinkFieldAction

pub record LinkGoogleAccountDto : Type 0 where
  pub email : Text
  pub google_id : String
  pub first_name : Option Text
  pub last_name : Option Text
  pub avatar_url : Option String
  -- `preferences`
  pub first_name_action : Option LinkFieldAction
  pub last_name_action : Option LinkFieldAction
  pub avatar_url_action : Option LinkFieldAction

abbrev pub should_update : Option LinkFieldAction → Bool
should_update none = true
should_update (some keep) = false
should_update (some update) = true

abbrev pub google_patch : LinkGoogleAccountDto → UpdateUser
google_patch dto = record no_change {
  google_id = some dto.google_id;
  is_email_verified = some true;
  first_name =
      if should_update dto.first_name_action
      then elim dto.first_name [ none ↦ absent | some name ↦ set name ]
      else absent;
  last_name =
      if should_update dto.last_name_action
      then elim dto.last_name [ none ↦ none | some name ↦ some (some name) ]
      else none;
  avatar_url =
      if should_update dto.avatar_url_action
      then elim dto.avatar_url [ none ↦ none | some url ↦ some (some url) ]
      else none;
}

unfoldable pub link_google_account : Env → LinkGoogleAccountDto → Service User
unfolding update_row
link_google_account env dto = do
  found ← gets (find_by_email (normalize_email dto.email))
  user ← or_raise found (not_found "User not found.")
  raise_if (truthy user.google_id && not (is_text user.google_id dto.google_id))
      (conflict "This account is already linked to a different Google account.")
  updated ← update_row env user.id (google_patch dto)
  pure (or_default updated user)
