-- ===== src/User/Returns.antt =====
-- Accounts that are deleted and come back, under `deleteAccount` and `reactivateIfWithinWindow` of
-- src/user/application/user.service.ts.
use ventura_api.Common.{
  ℕ, ◌+◌, ◌≡◌, refl, sym, ap, ◌∙◌, Bool, true, false, not, none, some, ◌∷◌, find-update, update,
  update-update, ==_iff, Uuid, leb, arith, Bool-cases, inl, inr,
}
use mathlib.Core.Path.{subst}
use ventura_api.Common.Action.{Result, ok, err, unauthorized, or_raise, and_then, pure}
use ventura_api.Accounts.{Accounts, Env}
use ventura_api.User.Entity.{User, UserEvent, account_deleted, account_restored}
use ventura_api.User.Repository.{UpdateUser, no_change, has_id, apply_patch, find_by_id}
use ventura_api.User.Service.{get_user_or_throw}
use ventura_api.User.Lifecycle.{
  restored, patch_and_emit, within_window, delete_account, reactivate_if_within_window,
}
use ventura_api.User.Sound.{IsSound}
use ventura_api.User.Kept.{delete_account-IsSound}
use ventura_api.User.Unique.{IsPlain, if_false, patch_and_emit_lem}

abbrev pub gone : Env → UpdateUser
gone env = record no_change { deleted = some true; deleted_at = some (some env.now) }

gone-IsPlain : (env : Env) → IsPlain (gone env)
gone-IsPlain env = record { email = refl; google_id = refl; apple_id = refl; defined = refl }

restored-IsPlain : IsPlain restored
restored-IsPlain = record { email = refl; google_id = refl; apple_id = refl; defined = refl }

-- the account without a time of deletion
abbrev pub undated : User → User
undated u = record u { deleted_at = none }

back_lem :
    (env : Env) (u : User)
    → u.deleted ≡ false
    → apply_patch restored (apply_patch (gone env) u) ≡ undated u
back_lem env u h = λ i. record (undated u) { deleted = sym h i }

-- a table with changed rows and one more event
abbrev pub rows_after : Env → UserEvent → UpdateUser → User → Accounts → Accounts
rows_after env event patch u s = record s {
  users = update (has_id u.id) (apply_patch patch) s.users;
  emitted = (event, u.id, env.now) ∷ s.emitted;
}

pub delete_lem :
    (env : Env) (s : Accounts) (u : User)
    → IsSound s
    → find_by_id u.id s ≡ some u
    → u.deleted ≡ false
    → delete_account env u.id s
      ≡ (ok (apply_patch (gone env) u), rows_after env account_deleted (gone env) u s)
unfolding delete_account get_user_or_throw
delete_lem env s u sound found active =
    rw (found, delete_account, get_user_or_throw, or_raise)
      (if_false u.deleted (pure u) (patch_and_emit env account_deleted (gone env) u) s active
        ∙ patch_and_emit_lem env account_deleted (gone env) s u (gone-IsPlain env) sound found)

module _ (env : Env) (t : Accounts) (v : User) where
  pub return_lem :
      IsSound t
      → find_by_id v.id t ≡ some v
      → v.deleted ≡ true
      → within_window env v.deleted_at ≡ true
      → reactivate_if_within_window env v.id t
        ≡ (ok true, rows_after env account_restored restored v t)
  unfolding reactivate_if_within_window get_user_or_throw
  return_lem sound found deleted timely =
      rw (found, reactivate_if_within_window, get_user_or_throw, or_raise)
        (if_false (not v.deleted) _ _ t (ap not deleted)
          ∙ rw timely (
              ap (λ x. and_then x λ _. pure true)
                (patch_and_emit_lem env account_restored restored t v restored-IsPlain sound
                  found)))

  late_lem :
      find_by_id v.id t ≡ some v
      → v.deleted ≡ true
      → within_window env v.deleted_at ≡ false
      → reactivate_if_within_window env v.id t ≡ (err (unauthorized "Invalid credentials."), t)
  unfolding reactivate_if_within_window get_user_or_throw
  late_lem found deleted late =
      rw (found, reactivate_if_within_window, get_user_or_throw, or_raise)
        (if_false (not v.deleted) _ _ t (ap not deleted) ∙ rw late refl)

window_lem : (env : Env) (d : ℕ) → within_window env (some d) ≡ leb env.now (d + 7_776_000_000)
window_lem env d = ground arith

-- an account is reactivated, or refused when it was deleted too long ago
abbrev pub Returned : Bool → Uuid → Accounts → Accounts → Result Bool × Accounts → Type 0
Returned true id before gone_ (r, after) =
    (r ≡ ok true) × (after.users ≡ update (has_id id) undated before.users)
Returned false id before gone_ x = x ≡ (err (unauthorized "Invalid credentials."), gone_)

-- In a table of users whose addresses, those of pending changes included, are in normal form and whose
-- ids, addresses, Google ids and Apple ids are unique, an account that is not marked as deleted is
-- deleted, and then asked to be reactivated. No
-- later than 90 days after the deletion it is reactivated: the table of users is again what it was
-- before the deletion, but that the account's time of deletion, if it had one, is cleared. Later the
-- call fails as unauthorized and changes nothing.
pub delete_account-Returned :
    (env env' : Env) (s : Accounts) (u : User)
    → IsSound s
    → find_by_id u.id s ≡ some u
    → u.deleted ≡ false
    → Returned
        (leb env'.now (env.now + 7_776_000_000))
        u.id
        s
        (delete_account env u.id s).1
        (reactivate_if_within_window env' u.id (delete_account env u.id s).1)
delete_account-Returned env env' s u sound found active =
    let v = apply_patch (gone env) u in
    let after = rows_after env account_deleted (gone env) u s in
    let e : (delete_account env u.id s).1 ≡ after =
      ap (λ x. x.1) (delete_lem env s u sound found active) in
    let sound' : IsSound after = subst IsSound e ((delete_account-IsSound env u.id).at s sound) in
    let own : has_id u.id u ≡ true = (==_iff _ _).1 refl in
    let found' : find_by_id u.id after ≡ some v =
      find-update (has_id u.id) (apply_patch (gone env)) s.users u found own in
    subst
      (λ t.
        Returned (leb env'.now (env.now + 7_776_000_000)) u.id s t
          (reactivate_if_within_window env' u.id t))
      (sym e)
      (rw (sym (window_lem env' env.now)) (elim (Bool-cases (within_window env' (some env.now))) [
        | inl timely ↦
            rw (timely, return_lem env' after v sound' found' refl timely)
              (
                refl,
                update-update (has_id u.id) (apply_patch (gone env)) (apply_patch restored) undated
                    s.users u found own (back_lem env u active),
              )
        | inr late ↦ rw late (late_lem env' after v found' refl late)
      ]))
