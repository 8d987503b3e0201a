-- ===== src/Auth/Guard.antt =====
-- src/auth/guards/admin.guard.ts
use ventura_api.Common.{
  ◌≡◌, refl, ap, Bool, true, false, not, ◌&&◌, ◌||◌, Option, none, some, List, [], ◌∷◌, map,
  if◌then◌else◌, Uuid, Bool-cases, inl, inr, find-update, ==_iff,
}
use mathlib.Core.Path.{subst}
use ventura_api.Common.Action.{◌>>=◌, ◌>>◌, pure, raise, or_raise, raise_if, forbidden, ok, err}
use ventura_api.Common.Text.{split, tidy, lower, same_codes}
use ventura_api.Accounts.{Accounts, Env, Service}
use ventura_api.User.Entity.{Text, User}
use ventura_api.User.Repository.{find_by_id, has_id, apply_patch}
use ventura_api.User.Service.{get_user_by_id, get_user_or_throw}
use ventura_api.User.Lifecycle.{delete_account}
use ventura_api.User.Sound.{IsSound}
use ventura_api.User.Returns.{gone, delete_lem}

-- `.filter(Boolean)`
abbrev pub non_empty : List Text → List Text
non_empty [] = []
non_empty ([] ∷ ts) = non_empty ts
non_empty ((c ∷ cs) ∷ ts) = (c ∷ cs) ∷ non_empty ts

-- of the value of `ADMIN_EMAILS`
unfoldable pub allowed_emails : Text → List Text
unfolding split
allowed_emails raw = non_empty (map tidy (split 44 raw))

abbrev pub has_email : Text → List Text → Bool
has_email email [] = false
has_email email (e ∷ es) = same_codes e email || has_email email es

unfoldable pub is_admin : Text → User → Bool
unfolding allowed_emails
is_admin raw user =
    not user.deleted && (user.is_system || has_email (map lower user.email) (allowed_emails raw))

-- `raw` is the value of `ADMIN_EMAILS`, and the user's id that of the request
unfoldable pub can_activate : Text → Option Uuid → Service Bool
unfolding get_user_or_throw is_admin
can_activate raw none = raise (forbidden "Administrator access required.")
can_activate raw (some user_id) = do
  user ← get_user_by_id user_id
  raise_if (not (is_admin raw user)) (forbidden "Administrator access required.")
  pure true

-- a user of the table is judged by the test
can_activate_lem :
    (raw : Text) (s : Accounts) (u : User) (user_id : Uuid)
    → find_by_id user_id s ≡ some u
    → (can_activate raw (some user_id) s).0
      ≡ (if is_admin raw u then ok true else err (forbidden "Administrator access required."))
unfolding can_activate get_user_or_throw
can_activate_lem raw s u user_id found =
    rw (found, can_activate, get_user_or_throw, or_raise)
      (elim (Bool-cases (is_admin raw u)) [ inl admin ↦ rw admin refl | inr other ↦ rw other refl ])

-- An active user is let through exactly as a system account or with an address of the allow-list,
-- and once the account has been deleted, the guard refuses the same user, whatever the list says.
pub delete_account-can_activate :
    (env : Env) (raw later_raw : Text) (s : Accounts) (u : User)
    → IsSound s
    → find_by_id u.id s ≡ some u
    → u.deleted ≡ false
    → ((can_activate raw (some u.id) s).0 ≡ (
        if u.is_system || has_email (map lower u.email) (allowed_emails raw)
        then ok true
        else err (forbidden "Administrator access required.")))
      × ((can_activate later_raw (some u.id) (delete_account env u.id s).1).0
          ≡ err (forbidden "Administrator access required."))
unfolding can_activate get_user_or_throw is_admin
delete_account-can_activate env raw later_raw s u sound found active =
    let v = apply_patch (gone env) u in
    let after = ap (λ x. x.1) (delete_lem env s u sound found active) in
    let now = can_activate_lem raw s u u.id found in
    (
      subst
          (λ b. (can_activate raw (some u.id) s).0 ≡ (
            if not b && (u.is_system || has_email (map lower u.email) (allowed_emails raw))
            then ok true
            else err (forbidden "Administrator access required.")))
          active now,
      rw after (
          can_activate_lem later_raw _ v u.id (
            find-update (has_id u.id) (apply_patch (gone env)) s.users u found
              ((==_iff _ _).1 refl))),
    )
