-- ===== src/Auth/Service.antt =====
-- Tokens, passwords and emailed codes, in src/auth/auth.service.ts.
use ventura_api.Common.{
  ℕ, ◌+◌, ◌*◌, Bool, true, false, not, ◌&&◌, Option, none, some, String, ◌∷◌, Uuid, ltb, leb,
  if◌then◌else◌, str_eq,
}
use ventura_api.Common.Action.{
  ◌>>=◌, ◌>>◌, pure, raise, gets, or_raise, modify, Error, bad_request, unauthorized, internal,
}
use ventura_api.Accounts.{Env, Service, Mail, verification_code, welcome}
use ventura_api.User.Entity.{Text, User}
use ventura_api.User.Service.{
  find_user_by_email, mark_email_verified, set_refresh_token, clear_refresh_token,
  get_hashed_refresh_token,
}
use ventura_api.User.SignUp.{find_or_create_by_email}
use ventura_api.User.Password.{verify_credentials, verify_or_false}
use ventura_api.User.Lifecycle.{reactivate_if_within_window}
use ventura_api.Auth.Entity.{VerificationCode, AuthTokens, AuthResult, to_user_response}
use ventura_api.Auth.Repository.{create, find_code, increment_attempts, delete_by_email}

abbrev pub code_ttl_minutes : ℕ
code_ttl_minutes = 10

abbrev pub max_code_attempts : ℕ
max_code_attempts = 5

unfoldable pub issue_tokens : Env → Uuid → Service AuthTokens
unfolding set_refresh_token
issue_tokens env user_id = do
  hashed ← or_raise (env.hash (env.refresh_token user_id)) (internal "argon2 failed.")
  set_refresh_token env user_id hashed
  pure (record {
    access_token = env.access_token user_id;
    refresh_token = env.refresh_token user_id;
  })

unfoldable pub build_auth_result : Env → User → Service AuthResult
unfolding issue_tokens
build_auth_result env user = do
  tokens ← issue_tokens env user.id
  pure (record { tokens = tokens; user = to_user_response user })

-- `if (reactivated) { user.deleted = false; user.deletedAt = null }`
abbrev pub refreshed : Bool → User → User
refreshed reactivated user =
    if reactivated then record user { deleted = false; deleted_at = none } else user

-- reactivates the account, and gives the user to answer with
unfoldable pub reactivated_user : Env → User → Service User
unfolding reactivate_if_within_window
reactivated_user env user = do
  reactivated ← reactivate_if_within_window env user.id
  pure (refreshed reactivated user)

unfoldable pub sign_in_with_password : Env → Text → String → Service AuthResult
unfolding reactivated_user build_auth_result
sign_in_with_password env email password = do
  found ← verify_credentials env email password
  user ← or_raise found (unauthorized "Invalid credentials.")
  user' ← reactivated_user env user
  build_auth_result env user'

abbrev pub mail : Mail → Service (Unit {0})
mail m = modify λ s. record s { mailed = m ∷ s.mailed }

unfoldable pub request_email_code : Env → Text → Service String
unfolding find_or_create_by_email delete_by_email create
request_email_code env email = do
  find_or_create_by_email env email
  delete_by_email email
  create env email env.code (env.now + code_ttl_minutes * 60 * 1000)
  mail (verification_code email env.code code_ttl_minutes)
  pure "If the email is valid, a verification code was sent."

abbrev pub invalid_code : Error
invalid_code = bad_request "Invalid or expired code."

-- `!record || record.expiresAt.getTime() < Date.now()`
abbrev pub not_expired : Env → Option VerificationCode → Option VerificationCode
not_expired env none = none
not_expired env (some c) = if ltb c.expires_at env.now then none else some c

-- what a wrong guess does to the code
unfoldable pub count_guess : Text → VerificationCode → Service (Unit {0})
unfolding increment_attempts delete_by_email
count_guess email record' = do
  attempts ← increment_attempts record'.id
  if leb max_code_attempts attempts then delete_by_email email else pure tt

-- the code and its guesses, before anything is done for the account
unfoldable pub check_code : Env → Text → String → Service (Unit {0})
unfolding delete_by_email count_guess
check_code env email code = do
  found ← gets (find_code email)
  record' ← or_raise (not_expired env found) invalid_code
  if leb max_code_attempts record'.attempts
      then delete_by_email email >> raise invalid_code
      else if str_eq record'.code code
      then pure tt
      else count_guess email record' >> raise invalid_code

-- the account is verified, the code consumed, and the tokens issued
unfoldable pub complete : Env → Text → User → User → Service AuthResult
unfolding mark_email_verified delete_by_email build_auth_result
complete env email user user' = do
  mark_email_verified env user.id
  delete_by_email email
  if not user.is_email_verified then mail (welcome email user.first_name) else pure tt
  build_auth_result env (record user' { is_email_verified = true })

-- the account after a right guess
unfoldable pub admit : Env → Text → Service AuthResult
unfolding reactivated_user complete
admit env email = do
  found ← find_user_by_email email
  user ← or_raise found invalid_code
  user' ← reactivated_user env user
  complete env email user user'

unfoldable pub verify_email_code : Env → Text → String → Service AuthResult
unfolding check_code admit
verify_email_code env email code = do check_code env email code; admit env email

abbrev pub matches : Env → String → Option String → Bool
matches env refresh_token none = false
matches env refresh_token (some hashed) =
    not (str_eq hashed "") && verify_or_false env hashed refresh_token

abbrev pub verify_refresh_token : Env → Uuid → String → Service Bool
verify_refresh_token env user_id refresh_token = do
  hashed ← get_hashed_refresh_token user_id
  pure (matches env refresh_token hashed)

abbrev pub refresh_tokens : Env → Uuid → Service AuthTokens
refresh_tokens = issue_tokens

unfoldable pub logout : Env → Uuid → Service (Unit {0})
unfolding clear_refresh_token
logout env user_id = clear_refresh_token env user_id
