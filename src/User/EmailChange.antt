-- ===== src/User/EmailChange.antt =====
-- The change of an address in two steps, in src/user/application/user.service.ts.
use ventura_api.Common.{
  ℕ, ◌+◌, ◌*◌, Bool, false, not, Option, none, some, String, ◌∷◌, Uuid, ◌==◌, or_default,
}
use ventura_api.Common.Text.{same_codes}
use ventura_api.Common.Action.{
  ◌>>=◌, ◌>>◌, pure, gets, or_raise, raise_if, modify, bad_request, conflict,
}
use ventura_api.Accounts.{Accounts, Env, Service, verification_code}
use ventura_api.User.Entity.{Text, User, EmailChange}
use ventura_api.User.Repository.{
  no_change, find_by_email, update_row, delete_by_user_id, create_email_change, find_valid,
}
use ventura_api.User.Service.{normalize_email, get_active_user_or_throw}

-- EMAIL_CHANGE_TTL_MINUTES
abbrev pub email_change_ttl_minutes : ℕ
email_change_ttl_minutes = 10

-- `existing && existing.id !== user.id`
abbrev is_other : User → Option User → Bool
is_other user none = false
is_other user (some existing) = not (existing.id == user.id)

abbrev pub taken_by_other : Text → User → Accounts → Bool
taken_by_other email user s = is_other user (find_by_email email s)

unfoldable pub request_email_change : Env → Uuid → Text → Service String
unfolding get_active_user_or_throw delete_by_user_id create_email_change
request_email_change env user_id new_email = do
  user ← get_active_user_or_throw user_id
  raise_if (same_codes (normalize_email new_email) user.email)
      (bad_request "New email is the same as the current email.")
  taken ← gets (taken_by_other (normalize_email new_email) user)
  raise_if taken (conflict "Email already in use.")
  delete_by_user_id user.id
  create_email_change (record {
    user_id = user.id;
    new_email = normalize_email new_email;
    code = env.code;
    expires_at = env.now + email_change_ttl_minutes * 60 * 1000;
  })
  modify λ s. record s {
    mailed =
        verification_code (normalize_email new_email) env.code email_change_ttl_minutes ∷ s.mailed;
  }
  pure "A verification code has been sent to the new email address."

-- what is done for a pending change that was found
unfoldable pub swap_email : Env → Uuid → EmailChange → Service User
unfolding get_active_user_or_throw update_row delete_by_user_id
swap_email env user_id pending = do
  user ← get_active_user_or_throw user_id
  taken ← gets (taken_by_other pending.new_email user)
  raise_if taken (conflict "Email already in use.")
  updated ← update_row env user.id (record no_change { email = some pending.new_email })
  delete_by_user_id user_id
  pure (or_default updated user)

unfoldable pub confirm_email_change : Env → Uuid → String → Service User
unfolding swap_email
confirm_email_change env user_id code = do
  found ← gets (find_valid user_id code env.now)
  pending ← or_raise found (bad_request "Invalid or expired code.")
  swap_email env user_id pending
