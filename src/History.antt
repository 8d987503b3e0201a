-- ===== src/History.antt =====
-- Histories of calls of the services for users and sign-in, from any state.
use ventura_api.Common.{Bool, Option, String, List, [], ◌∷◌, Uuid}
use ventura_api.Accounts.{Accounts, Env}
use ventura_api.User.Entity.{Text}
use ventura_api.User.Service.{set_business_id}
use ventura_api.User.SignUp.{
  create_with_email, CreateUserWithGoogleDto, create_with_google, LinkGoogleAccountDto,
  link_google_account,
}
use ventura_api.User.Password.{
  CreatePasswordDto, create_password, UpdatePasswordDto, update_password,
}
use ventura_api.User.Profile.{
  update_first_name, update_last_name, update_avatar, UpdateProfileDto, update_profile,
}
use ventura_api.User.Lifecycle.{restore_user, hard_delete_user, delete_account}
use ventura_api.User.EmailChange.{request_email_change, confirm_email_change}
use ventura_api.User.Sound.{IsSound}
use ventura_api.User.Kept.{
  set_business_id-IsSound, create_with_email-IsSound, create_with_google-IsSound,
  link_google_account-IsSound, create_password-IsSound, update_password-IsSound,
  update_first_name-IsSound, update_last_name-IsSound, update_avatar-IsSound,
  update_profile-IsSound, restore_user-IsSound, hard_delete_user-IsSound, delete_account-IsSound,
  request_email_change-IsSound, confirm_email_change-IsSound,
}
use ventura_api.Auth.Service.{
  sign_in_with_password, request_email_code, verify_email_code, refresh_tokens, logout,
}
use ventura_api.Auth.Providers.{
  GooglePayload, sign_in_with_google, ApplePayload, sign_in_with_apple,
}
use ventura_api.Auth.Kept.{
  issue_tokens-IsSound, sign_in_with_password-IsSound, request_email_code-IsSound,
  verify_email_code-IsSound, sign_in_with_google-IsSound, sign_in_with_apple-IsSound,
  logout-IsSound,
}

-- what the controllers, the guards and the other services call
pub data Call : Type 0 where
  sign_up : Text → Text → Call
  google_sign_up : CreateUserWithGoogleDto → Call
  link_google : LinkGoogleAccountDto → Call
  add_password : CreatePasswordDto → Call
  change_password : UpdatePasswordDto → Call
  attach_business : Uuid → Uuid → Call
  first_name : Uuid → Text → Call
  last_name : Uuid → Option Text → Call
  avatar : Uuid → Option String → Option String → Call
  profile : Uuid → UpdateProfileDto → Call
  delete restore hard_delete : Uuid → Call
  ask_email_change : Uuid → Text → Call
  confirm_change : Uuid → String → Call
  password_sign_in : Text → String → Call
  ask_code : Text → Call
  give_code : Text → String → Call
  google_sign_in : Option GooglePayload → Call
  apple_sign_in : Bool → Option ApplePayload → Option Text → Option Text → Call
  refresh log_out : Uuid → Call

-- the state after a call
abbrev pub step : Env → Call → Accounts → Accounts
step env (sign_up name email) s = (create_with_email env name email s).1
step env (google_sign_up dto) s = (create_with_google env dto s).1
step env (link_google dto) s = (link_google_account env dto s).1
step env (add_password dto) s = (create_password env dto s).1
step env (change_password dto) s = (update_password env dto s).1
step env (attach_business id b) s = (set_business_id env id b s).1
step env (first_name id name) s = (update_first_name env id name s).1
step env (last_name id name) s = (update_last_name env id name s).1
step env (avatar id url key) s = (update_avatar env id url key s).1
step env (profile id dto) s = (update_profile env id dto s).1
step env (delete id) s = (delete_account env id s).1
step env (restore id) s = (restore_user env id s).1
step env (hard_delete id) s = (hard_delete_user env id s).1
step env (ask_email_change id email) s = (request_email_change env id email s).1
step env (confirm_change id code) s = (confirm_email_change env id code s).1
step env (password_sign_in email password) s = (sign_in_with_password env email password s).1
step env (ask_code email) s = (request_email_code env email s).1
step env (give_code email code) s = (verify_email_code env email code s).1
step env (google_sign_in answer) s = (sign_in_with_google env answer s).1
step env (apple_sign_in c answer f l) s = (sign_in_with_apple env c answer f l s).1
step env (refresh id) s = (refresh_tokens env id s).1
step env (log_out id) s = (logout env id s).1

-- the state after the calls, each in the environment of its time
abbrev pub run : List (Env × Call) → Accounts → Accounts
run [] s = s
run ((env, call) ∷ calls) s = run calls (step env call s)

step-IsSound : (env : Env) (call : Call) (s : Accounts) → IsSound s → IsSound (step env call s)
step-IsSound env (sign_up name email) = (create_with_email-IsSound env name email).at
step-IsSound env (google_sign_up dto) = (create_with_google-IsSound env dto).at
step-IsSound env (link_google dto) = (link_google_account-IsSound env dto).at
step-IsSound env (add_password dto) = (create_password-IsSound env dto).at
step-IsSound env (change_password dto) = (update_password-IsSound env dto).at
step-IsSound env (attach_business id b) = (set_business_id-IsSound env id b).at
step-IsSound env (first_name id name) = (update_first_name-IsSound env id name).at
step-IsSound env (last_name id name) = (update_last_name-IsSound env id name).at
step-IsSound env (avatar id url key) = (update_avatar-IsSound env id url key).at
step-IsSound env (profile id dto) = (update_profile-IsSound env id dto).at
step-IsSound env (delete id) = (delete_account-IsSound env id).at
step-IsSound env (restore id) = (restore_user-IsSound env id).at
step-IsSound env (hard_delete id) = (hard_delete_user-IsSound env id).at
step-IsSound env (ask_email_change id email) = (request_email_change-IsSound env id email).at
step-IsSound env (confirm_change id code) = (confirm_email_change-IsSound env id code).at
step-IsSound env (password_sign_in email password) =
    (sign_in_with_password-IsSound env email password).at
step-IsSound env (ask_code email) = (request_email_code-IsSound env email).at
step-IsSound env (give_code email code) = (verify_email_code-IsSound env email code).at
step-IsSound env (google_sign_in answer) = (sign_in_with_google-IsSound env answer).at
step-IsSound env (apple_sign_in c answer f l) = (sign_in_with_apple-IsSound env c answer f l).at
step-IsSound env (refresh id) = (issue_tokens-IsSound env id).at
step-IsSound env (log_out id) = (logout-IsSound env id).at

-- Whatever is called, in any order and with any outcome: if no two users share an id, an address, a
-- Google id or an Apple id, and the addresses of the users and of the pending changes are trimmed
-- and in lower case, then so it is after the calls.
pub run-IsSound : (calls : List (Env × Call)) (s : Accounts) → IsSound s → IsSound (run calls s)
run-IsSound [] s h = h
run-IsSound ((env, call) ∷ calls) s h =
    run-IsSound calls (step env call s) (step-IsSound env call s h)
