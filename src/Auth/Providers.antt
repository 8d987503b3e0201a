-- ===== src/Auth/Providers.antt =====
-- Sign-in with Google and Apple, in src/auth/auth.service.ts. What the providers' libraries answer
-- for a token is an argument.
use ventura_api.Common.{
  Bool, not, ◌&&◌, ◌||◌, Option, none, some, String, [], if◌then◌else◌, or_default, is_some, str_eq,
}
use ventura_api.Common.Action.{◌>>=◌, ◌>>◌, pure, or_raise, raise_if, unauthorized}
use ventura_api.Accounts.{Env, Service, welcome}
use ventura_api.User.Entity.{Text}
use ventura_api.User.Service.{find_user_by_email, find_user_by_apple_id}
use ventura_api.User.SignUp.{
  local_part, is_empty, CreateUserWithGoogleDto, create_with_google, create_with_apple,
}
use ventura_api.Auth.Entity.{AuthResult}
use ventura_api.Auth.Service.{reactivated_user, build_auth_result, mail}

-- `TokenPayload`
pub record GooglePayload : Type 0 where
  pub email : Option Text
  pub sub : String
  pub given_name : Option Text
  pub name : Option Text
  pub family_name : Option Text
  pub picture : Option String

-- the address, when the payload has what is needed
abbrev pub usable : Option GooglePayload → Option (GooglePayload × Text)
usable none = none
usable (some payload) =
    let email = or_default payload.email [] in
    if is_empty email || str_eq payload.sub "" then none else some (payload, email)

abbrev pub google_dto : GooglePayload → Text → CreateUserWithGoogleDto
google_dto payload email = record {
  email = email;
  google_id = payload.sub;
  first_name = or_default payload.given_name (or_default payload.name (local_part email));
  last_name = payload.family_name;
  avatar_url = payload.picture;
}

-- `answer` is the payload of the token, `none` when it is not verified
unfoldable pub sign_in_with_google : Env → Option GooglePayload → Service AuthResult
unfolding local_part create_with_google reactivated_user build_auth_result
sign_in_with_google env answer = do
  (payload, email) ← or_raise (usable answer) (unauthorized "Invalid Google token.")
  existing ← find_user_by_email email
  user ← create_with_google env (google_dto payload email)
  user' ← reactivated_user env user
  if not (is_some existing) then mail (welcome email user.first_name) else pure tt
  build_auth_result env user'

-- what Apple's token says: its `sub` and address
pub record ApplePayload : Type 0 where
  pub sub : String
  pub email : Option Text

abbrev pub with_sub : Option ApplePayload → Option ApplePayload
with_sub none = none
with_sub (some payload) = if str_eq payload.sub "" then none else some payload

-- `configured` says whether there is an audience, `answer` is the payload of the token
unfoldable pub sign_in_with_apple :
    Env → Bool → Option ApplePayload → Option Text → Option Text → Service AuthResult
unfolding create_with_apple reactivated_user build_auth_result
sign_in_with_apple env configured answer first_name last_name = do
  raise_if (not configured) (unauthorized "Apple sign-in is not configured.")
  payload ← or_raise (with_sub answer) (unauthorized "Invalid Apple identity token.")
  existing ← find_user_by_apple_id payload.sub
  raise_if (not (is_some existing) && is_empty (or_default payload.email []))
      (unauthorized "Apple did not provide an email; cannot create an account.")
  user ← create_with_apple env (record {
    apple_id = payload.sub;
    email = or_default payload.email [];
    first_name = first_name;
    last_name = last_name;
  })
  user' ← reactivated_user env user
  if not (is_some existing) && not (is_empty user.email)
      then mail (welcome user.email user.first_name)
      else pure tt
  build_auth_result env user'
