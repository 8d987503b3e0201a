-- ===== src/User/Lifecycle.antt =====
-- Deletion and return of accounts, in src/user/application/user.service.ts.
use ventura_api.Common.{
  ℕ, ◌-◌, ◌*◌, Bool, true, false, not, Option, none, some, Uuid, Time, leb, if◌then◌else◌,
  or_default,
}
use ventura_api.Common.Action.{◌>>=◌, ◌>>◌, pure, if_found, raise_if, unauthorized}
use ventura_api.Accounts.{Env, Service}
use ventura_api.User.Entity.{
  User, UserEvent, account_deleted, account_restored, permanently_deleted,
}
use ventura_api.User.Repository.{UpdateUser, no_change, update_row, hard_delete}
use ventura_api.User.Service.{get_user_or_throw, emit}

abbrev pub restored : UpdateUser
restored = record no_change { deleted = some false; deleted_at = some none }

-- writes a patch and reports the change of the account
abbrev pub patch_and_emit : Env → UserEvent → UpdateUser → User → Service User
patch_and_emit env event patch user = do
  updated ← update_row env user.id patch
  emit env event (or_default updated user).id
  pure (or_default updated user)

unfoldable pub restore_user : Env → Uuid → Service User
unfolding get_user_or_throw update_row
restore_user env user_id = do
  user ← get_user_or_throw user_id
  if not user.deleted then pure user else patch_and_emit env account_restored restored user

unfoldable pub hard_delete_user : Env → Uuid → Service (Option User)
unfolding hard_delete
hard_delete_user env user_id = do
  removed ← hard_delete user_id
  if_found removed (λ user. do emit env permanently_deleted user.id; pure (some user)) (pure none)

unfoldable pub delete_account : Env → Uuid → Service User
unfolding get_user_or_throw update_row
delete_account env user_id = do
  user ← get_user_or_throw user_id
  if user.deleted
      then pure user
      else patch_and_emit env account_deleted
          (record no_change { deleted = some true; deleted_at = some (some env.now) }) user

-- `windowDays`
abbrev pub window_days : ℕ
window_days = 90

-- `Date.now() - deletedAt <= windowMs`; the difference is at most 0 when the clock is behind
abbrev pub within_window : Env → Option Time → Bool
within_window env deleted_at =
    leb (env.now - or_default deleted_at 0) (window_days * 24 * 60 * 60 * 1000)

-- whether the account was reactivated
unfoldable pub reactivate_if_within_window : Env → Uuid → Service Bool
unfolding get_user_or_throw update_row
reactivate_if_within_window env user_id = do
  user ← get_user_or_throw user_id
  if not user.deleted then pure false else do
    raise_if (not (within_window env user.deleted_at)) (unauthorized "Invalid credentials.")
    patch_and_emit env account_restored restored user
    pure true
