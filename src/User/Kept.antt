-- ===== src/User/Kept.antt =====
-- Every call of src/user/application/user.service.ts on the tables of Sound.
use ventura_api.Common.{
  ℕ, ◌≡◌, refl, sym, Bool, true, false, not, ◌&&◌, ◌||◌, Option, none, some, String, Uuid, is_some,
  leb, ◌==◌, if◌then◌else◌, or_default, All-find,
}
use ventura_api.Common.Keeps.{Keeps, Keeps-found, Keeps->>=, keeps_rules}
use ventura_api.Accounts.{Env}
use ventura_api.User.Entity.{Text, User, EmailChange, UserEvent}
use ventura_api.User.Repository.{find_valid, is_valid}
use ventura_api.User.Service.{
  get_user_or_throw, get_active_user_or_throw, emit, mark_email_verified, set_refresh_token,
  clear_refresh_token, set_business_id,
}
use ventura_api.User.SignUp.{
  find_or_create_by_email, create_with_email, CreateUserWithGoogleDto, create_with_google,
  AppleParams, link_or_create, create_with_apple, LinkGoogleAccountDto, link_google_account,
}
use ventura_api.User.Password.{
  store_password, CreatePasswordDto, create_password, UpdatePasswordDto, update_password,
}
use ventura_api.User.Profile.{
  update_first_name, update_last_name, delete_old_asset, update_avatar, UpdateProfileDto,
  update_profile,
}
use ventura_api.User.Lifecycle.{
  restore_user, hard_delete_user, delete_account, reactivate_if_within_window,
}
use ventura_api.User.EmailChange.{request_email_change, swap_email, confirm_email_change}
use ventura_api.User.Sound.{
  IsSound, IsNormal, NormalKey, normal_lem, create-IsSound, update_row-IsSound, update_row-kept,
  hard_delete-IsSound, delete_by_user_id-IsSound, create_email_change-IsSound, modify-IsSound,
}

pub ruleset row_rules = (
  keeps_rules, create-IsSound, update_row-kept, hard_delete-IsSound, delete_by_user_id-IsSound,
  create_email_change-IsSound, modify-IsSound, normal_lem, refl,
)

pub get_user_or_throw-IsSound : (id : Uuid) → Keeps IsSound (get_user_or_throw id)
unfolding get_user_or_throw
get_user_or_throw-IsSound id = search (row_rules)

pub get_active_user_or_throw-IsSound : (id : Uuid) → Keeps IsSound (get_active_user_or_throw id)
unfolding get_active_user_or_throw
get_active_user_or_throw-IsSound id = search (row_rules, get_user_or_throw-IsSound)

pub emit-IsSound : (env : Env) (e : UserEvent) (id : Uuid) → Keeps IsSound (emit env e id)
emit-IsSound env e id = search (row_rules)

pub mark_email_verified-IsSound :
    (env : Env) (id : Uuid) → Keeps IsSound (mark_email_verified env id)
unfolding mark_email_verified
mark_email_verified-IsSound env id = search (row_rules)

pub set_refresh_token-IsSound :
    (env : Env) (id : Uuid) (t : String) → Keeps IsSound (set_refresh_token env id t)
unfolding set_refresh_token
set_refresh_token-IsSound env id t = search (row_rules)

pub clear_refresh_token-IsSound :
    (env : Env) (id : Uuid) → Keeps IsSound (clear_refresh_token env id)
unfolding clear_refresh_token
clear_refresh_token-IsSound env id = search (row_rules)

pub set_business_id-IsSound : (env : Env) (id b : Uuid) → Keeps IsSound (set_business_id env id b)
unfolding set_business_id
set_business_id-IsSound env id b = search (row_rules, get_active_user_or_throw-IsSound)

pub find_or_create_by_email-IsSound :
    (env : Env) (e : Text) → Keeps IsSound (find_or_create_by_email env e)
unfolding find_or_create_by_email
find_or_create_by_email-IsSound env e = search (row_rules)

pub create_with_email-IsSound : (env : Env) (n e : Text) → Keeps IsSound (create_with_email env n e)
unfolding create_with_email
create_with_email-IsSound env n e = search (row_rules)

pub create_with_google-IsSound :
    (env : Env) (dto : CreateUserWithGoogleDto) → Keeps IsSound (create_with_google env dto)
unfolding create_with_google
create_with_google-IsSound env dto = search (row_rules)

pub link_or_create-IsSound : (env : Env) (p : AppleParams) → Keeps IsSound (link_or_create env p)
unfolding link_or_create
link_or_create-IsSound env p = search (row_rules)

pub create_with_apple-IsSound :
    (env : Env) (p : AppleParams) → Keeps IsSound (create_with_apple env p)
unfolding create_with_apple
create_with_apple-IsSound env p = search (row_rules, link_or_create-IsSound)

pub link_google_account-IsSound :
    (env : Env) (dto : LinkGoogleAccountDto) → Keeps IsSound (link_google_account env dto)
unfolding link_google_account
link_google_account-IsSound env dto = search (row_rules)

pub store_password-IsSound :
    (env : Env) (p : String) (u : User) → Keeps IsSound (store_password env p u)
unfolding store_password
store_password-IsSound env p u = search (row_rules)

pub create_password-IsSound :
    (env : Env) (dto : CreatePasswordDto) → Keeps IsSound (create_password env dto)
unfolding create_password
create_password-IsSound env dto = search (row_rules, store_password-IsSound)

pub update_password-IsSound :
    (env : Env) (dto : UpdatePasswordDto) → Keeps IsSound (update_password env dto)
unfolding update_password
update_password-IsSound env dto = search (row_rules, store_password-IsSound) depth 10

pub update_first_name-IsSound :
    (env : Env) (id : Uuid) (n : Text) → Keeps IsSound (update_first_name env id n)
unfolding update_first_name
update_first_name-IsSound env id n = search (row_rules, get_active_user_or_throw-IsSound)

pub update_last_name-IsSound :
    (env : Env) (id : Uuid) (n : Option Text) → Keeps IsSound (update_last_name env id n)
unfolding update_last_name
update_last_name-IsSound env id n = search (row_rules, get_active_user_or_throw-IsSound)

pub delete_old_asset-IsSound :
    (env : Env) (o n : Option String) → Keeps IsSound (delete_old_asset env o n)
unfolding delete_old_asset
delete_old_asset-IsSound env o n = search (row_rules)

pub update_avatar-IsSound :
    (env : Env) (id : Uuid) (u k : Option String) → Keeps IsSound (update_avatar env id u k)
unfolding update_avatar
update_avatar-IsSound env id u k =
    search (row_rules, get_active_user_or_throw-IsSound, delete_old_asset-IsSound)

pub update_profile-IsSound :
    (env : Env) (id : Uuid) (dto : UpdateProfileDto) → Keeps IsSound (update_profile env id dto)
unfolding update_profile
update_profile-IsSound env id dto = search (row_rules, get_active_user_or_throw-IsSound)

pub restore_user-IsSound : (env : Env) (id : Uuid) → Keeps IsSound (restore_user env id)
unfolding restore_user
restore_user-IsSound env id = search (row_rules, get_user_or_throw-IsSound, emit-IsSound)

pub hard_delete_user-IsSound : (env : Env) (id : Uuid) → Keeps IsSound (hard_delete_user env id)
unfolding hard_delete_user
hard_delete_user-IsSound env id = search (row_rules, emit-IsSound)

pub delete_account-IsSound : (env : Env) (id : Uuid) → Keeps IsSound (delete_account env id)
unfolding delete_account
delete_account-IsSound env id = search (row_rules, get_user_or_throw-IsSound, emit-IsSound)

pub reactivate_if_within_window-IsSound :
    (env : Env) (id : Uuid) → Keeps IsSound (reactivate_if_within_window env id)
unfolding reactivate_if_within_window
reactivate_if_within_window-IsSound env id =
    search (row_rules, get_user_or_throw-IsSound, emit-IsSound) depth 10

pub request_email_change-IsSound :
    (env : Env) (id : Uuid) (e : Text) → Keeps IsSound (request_email_change env id e)
unfolding request_email_change
request_email_change-IsSound env id e =
    search (row_rules, get_active_user_or_throw-IsSound) depth 10

-- what is done for a pending change, whose address is canonical
swap_email-IsSound :
    (env : Env) (id : Uuid) (c : EmailChange)
    → IsNormal c.new_email
    → Keeps IsSound (swap_email env id c)
unfolding swap_email
swap_email-IsSound env id c n =
    search (row_rules, update_row-IsSound, get_active_user_or_throw-IsSound, n) depth 10

pub confirm_email_change-IsSound :
    (env : Env) (id : Uuid) (code : String) → Keeps IsSound (confirm_email_change env id code)
unfolding confirm_email_change
confirm_email_change-IsSound env id code =
    Keeps-found (find_valid id code env.now) _ (swap_email env id) λ s c h e.
      (swap_email-IsSound env id c (
          All-find (λ c. IsNormal c.new_email) (is_valid id code env.now) s.email_changes c
            h.pending e)).at
        s h
