-- ===== src/User/Service.antt =====
-- The lookups and the small writes of src/user/application/user.service.ts.
use ventura_api.Common.{
  Bool, true, Option, none, some, String, List, ◌∷◌, Uuid, or_default, is_some,
}
use ventura_api.Common.Text.{truthy, tidy}
use ventura_api.Common.Action.{
  ◌>>=◌, ◌>>◌, pure, gets, or_raise, raise_if, modify, not_found, conflict,
}
use ventura_api.Accounts.{Env, Service}
use ventura_api.User.Entity.{Text, User, UserEvent}
use ventura_api.User.Repository.{no_change, find_by_id, find_by_email, find_by_apple_id, update_row}

-- `normalizeEmail`
abbrev pub normalize_email : Text → Text
normalize_email = tidy

unfoldable pub get_user_or_throw : Uuid → Service User
get_user_or_throw user_id = do
  user ← gets (find_by_id user_id)
  or_raise user (not_found "User not found.")

unfoldable pub get_active_user_or_throw : Uuid → Service User
unfolding get_user_or_throw
get_active_user_or_throw user_id = do
  user ← get_user_or_throw user_id
  raise_if user.deleted (not_found "User not found.")
  pure user

abbrev pub get_user_by_id : Uuid → Service User
get_user_by_id = get_user_or_throw

-- newest first
abbrev pub list_users : Service (List User)
list_users = gets λ s. s.users

-- `emitUserEvent`
abbrev pub emit : Env → UserEvent → Uuid → Service (Unit {0})
emit env event user_id = modify λ s. record s { emitted = (event, user_id, env.now) ∷ s.emitted }

unfoldable pub has_password : Uuid → Service Bool
unfolding get_user_or_throw
has_password user_id = do user ← get_user_or_throw user_id; pure (truthy user.password)

abbrev pub find_user_by_email : Text → Service (Option User)
find_user_by_email email = gets (find_by_email (normalize_email email))

abbrev pub find_user_by_apple_id : String → Service (Option User)
find_user_by_apple_id apple_id = gets (find_by_apple_id apple_id)

unfoldable pub mark_email_verified : Env → Uuid → Service (Unit {0})
unfolding update_row
mark_email_verified env user_id = do
  update_row env user_id (record no_change { is_email_verified = some true })
  pure tt

unfoldable pub set_refresh_token : Env → Uuid → String → Service (Unit {0})
unfolding update_row
set_refresh_token env user_id hashed = do
  update_row env user_id (record no_change { hashed_refresh_token = some (some hashed) })
  pure tt

unfoldable pub clear_refresh_token : Env → Uuid → Service (Unit {0})
unfolding update_row
clear_refresh_token env user_id = do
  update_row env user_id (record no_change { hashed_refresh_token = some none })
  pure tt

abbrev refresh_hash : Option User → Option String
refresh_hash none = none
refresh_hash (some user) = user.hashed_refresh_token

abbrev pub get_hashed_refresh_token : Uuid → Service (Option String)
get_hashed_refresh_token user_id = gets λ s. refresh_hash (find_by_id user_id s)

unfoldable pub set_business_id : Env → Uuid → Uuid → Service User
unfolding get_active_user_or_throw update_row
set_business_id env user_id business_id = do
  user ← get_active_user_or_throw user_id
  raise_if (is_some user.business_id) (conflict "id already exists")
  updated ← update_row env user_id (record no_change { business_id = some business_id })
  pure (or_default updated user)
