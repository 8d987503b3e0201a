-- ===== src/User/Apple.antt =====
-- Apple ids for accounts that exist, under `createWithApple` of
-- src/user/application/user.service.ts.
use ventura_api.Common.{◌≡◌, refl, ap, true, false, Option, none, some, or_default}
use ventura_api.Common.Action.{err, and_then, if_found, pure}
use ventura_api.Accounts.{Accounts, Env}
use ventura_api.User.Entity.{Text, User}
use ventura_api.User.Repository.{
  is_undefined, has_email, find_by_id, find_by_email, find_by_apple_id, not_written, update_row,
}
use ventura_api.User.Service.{normalize_email}
use ventura_api.User.SignUp.{
  is_empty, AppleParams, name_key, apple_patch, link_or_create, create_with_apple,
}
use ventura_api.User.Sound.{IsSound}
use ventura_api.User.Unique.{find-has_id}

name_key_undefined :
    (old : Text) (new : Option Text) → is_empty old ≡ false → is_undefined (name_key old new) ≡ true
name_key_undefined old none h = refl
name_key_undefined old (some new) h = rw h refl

write_fails :
    (env : Env) (params : AppleParams) (s : Accounts) (u : User)
    → env.rejects_undefined ≡ true
    → find_by_id u.id s ≡ some u
    → is_empty u.first_name ≡ false
    → update_row env u.id (apple_patch params u) s ≡ (err not_written, s)
unfolding update_row
write_fails env params s u rejects here named =
    rw (here, update_row, name_key_undefined u.first_name params.first_name named, rejects) refl

-- When the ORM refuses to assign `undefined` to a required column, an Apple id that no account has
-- is not linked to the account with the address of the token if this account has a first name: the
-- call fails with an internal error and changes nothing.
pub create_with_apple-not_written :
    (env : Env) (params : AppleParams) (s : Accounts) (u : User)
    → env.rejects_undefined ≡ true
    → IsSound s
    → find_by_apple_id params.apple_id s ≡ none
    → find_by_email (normalize_email params.email) s ≡ some u
    → is_empty u.first_name ≡ false
    → create_with_apple env params s ≡ (err not_written, s)
unfolding create_with_apple link_or_create
create_with_apple-not_written env params s u rejects sound fresh found named =
    let here : find_by_id u.id s ≡ some u =
      find-has_id (has_email (normalize_email params.email)) s.users u sound.unique found in
    rw (fresh, create_with_apple, if_found, found, link_or_create, if_found)
      (ap (λ x. and_then x λ o. pure (or_default o u))
        (write_fails env params s u rejects here named))
