-- ===== src/User/Passwords.antt =====
-- Passwords that are set and then given, under `createPassword`, `updatePassword` and
-- `verifyCredentials` of src/user/application/user.service.ts.
use ventura_api.Common.{
  ◌≡◌, refl, ap, true, false, not, none, some, String, find-update_other, update, or_default,
  if◌then◌else◌, str_eq,
}
use mathlib.Core.Path.{subst}
use mathlib.Core.Bool.{and-eq-true_iff}
use ventura_api.Common.Text.{truthy}
use ventura_api.Common.Tidy.{same_codes_eq, same_codes_refl}
use ventura_api.Common.Action.{ok, and_then, or_raise, pure}
use ventura_api.Common.Keeps.{is_ok}
use ventura_api.Accounts.{Accounts, Env}
use ventura_api.User.Entity.{User}
use ventura_api.User.Repository.{
  UpdateUser, no_change, has_id, has_email, apply_patch, find_by_id, find_by_email,
}
use ventura_api.User.Service.{normalize_email}
use ventura_api.User.Password.{
  verify_credentials, is_addressed, hash_password, store_password, CreatePasswordDto,
  create_password,
}
use ventura_api.User.Sound.{IsSound}
use ventura_api.User.Unique.{IsPlain, update_row-written, find-has_id, find-has_email}

abbrev pub set_password : String → UpdateUser
set_password h = record no_change { password = some h }

plain : (h : String) → IsPlain (set_password h)
plain h = record { email = refl; google_id = refl; apple_id = refl; defined = refl }

-- storing the hash of a password
store_lem :
    (env : Env) (password hashed : String) (s : Accounts) (u : User)
    → IsSound s
    → find_by_id u.id s ≡ some u
    → env.hash password ≡ some hashed
    → store_password env password u s ≡ (
      ok (apply_patch (set_password hashed) u),
      record s { users = update (has_id u.id) (apply_patch (set_password hashed)) s.users },
    )
unfolding store_password
store_lem env password hashed s u sound found hashes =
    rw (hashes, store_password, hash_password, or_raise)
      (ap (λ x. and_then x λ o. pure (or_default o u))
        (update_row-written env u.id (set_password hashed) s u (plain hashed) sound found))

module _ (env : Env) (dto : CreatePasswordDto) (hashed : String) (s : Accounts) (u : User) where
  abbrev stored : Accounts
  stored = record s { users = update (has_id u.id) (apply_patch (set_password hashed)) s.users }

  create_lem :
      IsSound s
      → find_by_id dto.user_id s ≡ some u
      → is_addressed dto.email u ≡ true
      → truthy u.password ≡ false
      → env.hash dto.new_password ≡ some hashed
      → create_password env dto s ≡ (ok (apply_patch (set_password hashed) u), stored)
  unfolding create_password
  create_lem sound found addressed bare hashes =
      let here : find_by_id u.id s ≡ some u =
        find-has_id (has_id dto.user_id) s.users u sound.unique found in
      rw (found, create_password, or_raise, addressed, bare)
        (store_lem env dto.new_password hashed s u sound here hashes)

  find_lem :
      IsSound s
      → find_by_id dto.user_id s ≡ some u
      → is_addressed dto.email u ≡ true
      → find_by_email (normalize_email dto.email) stored
        ≡ some (apply_patch (set_password hashed) u)
  find_lem sound found addressed =
      let same : u.email ≡ normalize_email dto.email =
        same_codes_eq _ _ ((and-eq-true_iff (not u.deleted) _).0 addressed).1 in
      subst (λ e. find_by_email e stored ≡ some (apply_patch (set_password hashed) u)) same
        (find-update_other (has_id u.id) (has_email u.email) (apply_patch (set_password hashed))
          s.users u (find-has_id (has_id dto.user_id) s.users u sound.unique found)
          (find-has_email (has_id dto.user_id) s.users u sound.unique found)
          (same_codes_refl u.email))

-- For an active account without a password, found by its id and its address, and with argon2
-- answering for the hash of the new password as for the plain text: `createPassword` succeeds, and
-- then `verifyCredentials` with this address answers the account for the new password and nobody for
-- any other.
pub create_password-verify_credentials :
    (env env' : Env) (dto : CreatePasswordDto) (password hashed : String) (s : Accounts) (u : User)
    → IsSound s
    → find_by_id dto.user_id s ≡ some u
    → is_addressed dto.email u ≡ true
    → truthy u.password ≡ false
    → env.hash dto.new_password ≡ some hashed
    → not (str_eq hashed "") ≡ true
    → env'.verify hashed password ≡ some (str_eq dto.new_password password)
    → (is_ok (create_password env dto s).0 ≡ true)
      × ((verify_credentials env' dto.email password (create_password env dto s).1).0
          ≡ ok (
              if str_eq dto.new_password password
              then some (apply_patch (set_password hashed) u)
              else none))
create_password-verify_credentials env env' dto password hashed s u sound found addressed bare
      hashes full verifies =
    rw
      (
        create_lem env dto hashed s u sound found addressed bare hashes,
        find_lem env dto hashed s u sound found addressed,
        full,
        verifies,
      )
      (refl, refl)
