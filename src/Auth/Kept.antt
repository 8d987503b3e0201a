-- ===== src/Auth/Kept.antt =====
-- Every call of src/auth/auth.service.ts on the tables of users.
use ventura_api.Common.{Bool, Option, String, Uuid, Time, find, Option-cases, inl, inr}
use ventura_api.Common.Keeps.{Keeps, keeps_rules}
use ventura_api.Accounts.{Env, Mail}
use ventura_api.User.Entity.{Text, User}
use ventura_api.User.Sound.{IsSound}
use ventura_api.User.Kept.{
  row_rules, mark_email_verified-IsSound, set_refresh_token-IsSound, clear_refresh_token-IsSound,
  find_or_create_by_email-IsSound, create_with_google-IsSound, create_with_apple-IsSound,
  reactivate_if_within_window-IsSound,
}
use ventura_api.Auth.Entity.{VerificationCode}
use ventura_api.Auth.Repository.{code_id, create, increment_attempts, delete_by_email}
use ventura_api.Auth.Service.{
  issue_tokens, build_auth_result, reactivated_user, sign_in_with_password, mail,
  request_email_code, count_guess, check_code, complete, admit, verify_email_code, logout,
}
use ventura_api.Auth.Providers.{
  GooglePayload, sign_in_with_google, ApplePayload, sign_in_with_apple,
}

create-IsSound : (env : Env) (e : Text) (c : String) (t : Time) → Keeps IsSound (create env e c t)
unfolding create
create-IsSound env e c t = record {
  at = λ s h. record { unique = h.unique; normal = h.normal; pending = h.pending };
}

increment_attempts-IsSound : (id : Uuid) → Keeps IsSound (increment_attempts id)
unfolding increment_attempts
increment_attempts-IsSound id = record {
  at = λ s h. elim (Option-cases (find (code_id id) s.verification_codes)) [
    | inl missing ↦ rw (missing, increment_attempts) h
    | inr (c, found) ↦
        rw (found, increment_attempts)
          (record { unique = h.unique; normal = h.normal; pending = h.pending })
  ];
}

pub delete_by_email-IsSound : (e : Text) → Keeps IsSound (delete_by_email e)
unfolding delete_by_email
delete_by_email-IsSound e = search row_rules

pub mail-IsSound : (m : Mail) → Keeps IsSound (mail m)
mail-IsSound m = search row_rules

pub issue_tokens-IsSound : (env : Env) (id : Uuid) → Keeps IsSound (issue_tokens env id)
unfolding issue_tokens
issue_tokens-IsSound env id = search (keeps_rules, set_refresh_token-IsSound)

build_auth_result-IsSound : (env : Env) (u : User) → Keeps IsSound (build_auth_result env u)
unfolding build_auth_result
build_auth_result-IsSound env u = search (keeps_rules, issue_tokens-IsSound)

pub reactivated_user-IsSound : (env : Env) (u : User) → Keeps IsSound (reactivated_user env u)
unfolding reactivated_user
reactivated_user-IsSound env u = search (keeps_rules, reactivate_if_within_window-IsSound)

ruleset sign_in_rules = (
  keeps_rules, build_auth_result-IsSound, reactivated_user-IsSound, mail-IsSound,
  delete_by_email-IsSound, create-IsSound, increment_attempts-IsSound,
)

pub sign_in_with_password-IsSound :
    (env : Env) (e : Text) (p : String) → Keeps IsSound (sign_in_with_password env e p)
unfolding sign_in_with_password
sign_in_with_password-IsSound env e p = search sign_in_rules depth 10

pub request_email_code-IsSound : (env : Env) (e : Text) → Keeps IsSound (request_email_code env e)
unfolding request_email_code
request_email_code-IsSound env e = search (sign_in_rules, find_or_create_by_email-IsSound) depth 10

count_guess-IsSound : (e : Text) (c : VerificationCode) → Keeps IsSound (count_guess e c)
unfolding count_guess
count_guess-IsSound e c = search sign_in_rules depth 10

check_code-IsSound : (env : Env) (e : Text) (c : String) → Keeps IsSound (check_code env e c)
unfolding check_code
check_code-IsSound env e c = search (sign_in_rules, count_guess-IsSound) depth 10

complete-IsSound : (env : Env) (e : Text) (u v : User) → Keeps IsSound (complete env e u v)
unfolding complete
complete-IsSound env e u v = search (sign_in_rules, mark_email_verified-IsSound) depth 12

admit-IsSound : (env : Env) (e : Text) → Keeps IsSound (admit env e)
unfolding admit
admit-IsSound env e = search (sign_in_rules, complete-IsSound) depth 12

pub verify_email_code-IsSound :
    (env : Env) (e : Text) (c : String) → Keeps IsSound (verify_email_code env e c)
unfolding verify_email_code
verify_email_code-IsSound env e c = search (keeps_rules, check_code-IsSound, admit-IsSound)

pub sign_in_with_google-IsSound :
    (env : Env) (a : Option GooglePayload) → Keeps IsSound (sign_in_with_google env a)
unfolding sign_in_with_google
sign_in_with_google-IsSound env a = search (sign_in_rules, create_with_google-IsSound) depth 12

pub sign_in_with_apple-IsSound :
    (env : Env) (c : Bool) (a : Option ApplePayload) (f l : Option Text)
    → Keeps IsSound (sign_in_with_apple env c a f l)
unfolding sign_in_with_apple
sign_in_with_apple-IsSound env c a f l = search (sign_in_rules, create_with_apple-IsSound) depth 12

pub logout-IsSound : (env : Env) (id : Uuid) → Keeps IsSound (logout env id)
unfolding logout
logout-IsSound env id = search (keeps_rules, clear_refresh_token-IsSound)
