-- ===== src/User/Password.antt =====
-- Passwords, in src/user/application/user.service.ts.
use ventura_api.Common.{
  Bool, false, not, ◌&&◌, ◌||◌, Option, none, some, String, Uuid, if◌then◌else◌, or_default,
}
use ventura_api.Common.Text.{truthy, same_codes}
use ventura_api.Common.Action.{
  ◌>>=◌, ◌>>◌, pure, gets, or_raise, raise_if, not_found, conflict, bad_request, internal,
}
use ventura_api.Accounts.{Env, Service}
use ventura_api.User.Entity.{Text, User}
use ventura_api.User.Repository.{no_change, find_by_id, find_by_email, update_row}
use ventura_api.User.Service.{normalize_email}

abbrev pub hash_password : Env → String → Service String
hash_password env password = or_raise (env.hash password) (internal "An unexpected error occurred.")

-- `argon2.verify(...).catch(() => false)`
abbrev pub verify_or_false : Env → String → String → Bool
verify_or_false env hashed plain = or_default (env.verify hashed plain) false

-- The user, if the password is the user's. What is verified when there is none is dropped.
abbrev pub if_password : Env → String → Option User → Option User
if_password env password none = none
if_password env password (some user) =
    if truthy user.password && verify_or_false env (or_default user.password "") password
    then some user
    else none

abbrev pub verify_credentials : Env → Text → String → Service (Option User)
verify_credentials env email password =
    gets λ s. if_password env password (find_by_email (normalize_email email) s)

pub record CreatePasswordDto : Type 0 where
  pub user_id : Uuid
  pub email : Text
  pub new_password : String

pub record UpdatePasswordDto : Type 0 where
  pub user_id : Uuid
  pub email : Text
  pub old_password : String
  pub new_password : String

-- the account is active and has the address
abbrev pub is_addressed : Text → User → Bool
is_addressed email user = not user.deleted && same_codes user.email (normalize_email email)

-- hashes and stores a password
unfoldable pub store_password : Env → String → User → Service User
unfolding update_row
store_password env plain user = do
  password ← hash_password env plain
  updated ← update_row env user.id (record no_change { password = some password })
  pure (or_default updated user)

unfoldable pub create_password : Env → CreatePasswordDto → Service User
unfolding store_password
create_password env dto = do
  found ← gets (find_by_id dto.user_id)
  user ← or_raise found (not_found "User not found.")
  raise_if (not (is_addressed dto.email user)) (not_found "User not found.")
  raise_if (truthy user.password)
      (conflict "A password already exists for this account. Use update password instead.")
  store_password env dto.new_password user

unfoldable pub update_password : Env → UpdatePasswordDto → Service User
unfolding store_password
update_password env dto = do
  found ← gets (find_by_id dto.user_id)
  user ← or_raise found (not_found "User not found.")
  raise_if (not (is_addressed dto.email user) || not (truthy user.password))
      (not_found "User not found.")
  is_match ←
      or_raise (env.verify (or_default user.password "") dto.old_password)
        (internal "argon2 failed.")
  raise_if (not is_match) (bad_request "Old password does not match.")
  store_password env dto.new_password user
