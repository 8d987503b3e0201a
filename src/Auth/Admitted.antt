-- ===== src/Auth/Admitted.antt =====
-- Codes that are asked for and then given back, under `requestEmailCode` and `verifyEmailCode` of
-- src/auth/auth.service.ts.
use ventura_api.Common.{
  ◌+◌, ◌*◌, ◌≡◌, refl, sym, ap, ◌∙◌, Bool, true, not, ◌||◌, none, some, String, leb, is_some,
  Bool-cases, Option-cases, inl, inr, eq_iff,
}
use mathlib.Core.Path.{subst}
use mathlib.Core.Bool.{false≢true}
use ventura_api.Common.Text.{codes}
use ventura_api.Common.Action.{Result, ok, err, and_then, or_raise, if_found, pure, map_state, ◌>>◌}
use ventura_api.Common.Keeps.{is_ok}
use ventura_api.Common.Tidy.{same_codes_refl}
use ventura_api.Accounts.{Accounts, Env, verification_code}
use ventura_api.User.Entity.{Text, User}
use ventura_api.User.Repository.{
  CreateUser, any, collides, new_row, create, find_by_id, find_by_email, has_email,
}
use ventura_api.User.Service.{normalize_email, get_user_or_throw}
use ventura_api.User.Lifecycle.{within_window, reactivate_if_within_window}
use ventura_api.User.Sound.{IsSound}
use ventura_api.User.SignUp.{local_part, or_else, new_user, find_or_create_by_email}
use ventura_api.User.Returns.{return_lem}
use ventura_api.User.Unique.{find-has_id, if_true}
use ventura_api.Auth.Repository
use ventura_api.Auth.Repository.{delete_by_email}
use ventura_api.Auth.Service.{
  code_ttl_minutes, mail, refreshed, reactivated_user, complete, admit, verify_email_code,
  request_email_code,
}
use ventura_api.Auth.Kept.{reactivated_user-IsSound, request_email_code-IsSound}
use ventura_api.Auth.Lives.{complete-Lives}
use ventura_api.Auth.Verified.{is_right, check_code_right}

-- an account may sign in when it is not deleted, or was deleted no more than 90 days ago
abbrev pub may_return : Env → User → Bool
may_return env u = not u.deleted || within_window env u.deleted_at

-- the account with an address may sign in, if there is one
abbrev pub may_enter : Env → Text → Accounts → Bool
may_enter env email s = elim (find_by_email (normalize_email email) s) [
  | none ↦ true
  | some u ↦ may_return env u
]

reactivated_user-ok :
    (env : Env) (s : Accounts) (u : User)
    → IsSound s
    → find_by_id u.id s ≡ some u
    → may_return env u ≡ true
    → is_ok (reactivated_user env u s).0 ≡ true
unfolding reactivated_user reactivate_if_within_window get_user_or_throw
reactivated_user-ok env s u sound found may = elim (Bool-cases u.deleted) [
  | inl deleted ↦
      let timely : within_window env u.deleted_at ≡ true =
        ap (λ b. not b || within_window env u.deleted_at) (sym deleted) ∙ may in
      ap (λ x. is_ok (and_then x λ r. pure (refreshed r u)).0)
        (return_lem env s u sound found deleted timely)
  | inr active ↦
      rw (found, reactivated_user, reactivate_if_within_window, get_user_or_throw, or_raise)
        (ap (λ x. is_ok (and_then x λ r. pure (refreshed r u)).0)
          (if_true (not u.deleted) _ _ s (ap not active)))
]

admit-ok :
    (env : Env) (email : Text) (s : Accounts) (u : User)
    → ((t : String) → is_some (env.hash t) ≡ true)
    → IsSound s
    → find_by_email (normalize_email email) s ≡ some u
    → may_return env u ≡ true
    → is_ok (admit env email s).0 ≡ true
unfolding admit
admit-ok env email s u hashes sound found may =
    let here : find_by_id u.id s ≡ some u =
      find-has_id (has_email (normalize_email email)) s.users u sound.unique found in
    rw (found, admit, or_raise)
      (go (reactivated_user env u s) (reactivated_user-ok env s u sound here may)
        ((reactivated_user-IsSound env u).at s sound))
  where
    go :
        (x : Result User × Accounts)
        → is_ok x.0 ≡ true
        → IsSound x.1
        → is_ok (and_then x λ v. complete env email u v).0 ≡ true
    go (ok v, t) h k = (complete-Lives env hashes email u v).at t k
    go (err e, t) h k = h

is_ok-map :
    {A B : Type 0} (f : A → B) (x : Result A × Accounts)
    → is_ok (and_then x λ a. pure (f a)).0 ≡ is_ok x.0
is_ok-map f (ok a, s) = refl
is_ok-map f (err e, s) = refl

created_lem :
    (env : Env) (d : CreateUser) (s : Accounts)
    → is_ok (create env d s).0 ≡ true
    → find_by_email d.email (create env d s).1 ≡ some (new_row env d s)
unfolding create
created_lem env d s h = elim (Bool-cases (any (collides (new_row env d s)) s.users)) [
  | inl taken ↦ absurd (false≢true (rw taken at h))
  | inr free ↦ rw (free, same_codes_refl d.email) refl
]

-- the account with the address, after it was found or created
found_lem :
    (env env' : Env) (email : Text) (s : Accounts)
    → is_ok (find_or_create_by_email env email s).0 ≡ true
    → may_enter env' email s ≡ true
    → (u : User) × (find_by_email (normalize_email email) (find_or_create_by_email env email s).1
        ≡ some u)
      × (may_return env' u ≡ true)
unfolding find_or_create_by_email create
found_lem env env' email s fine may =
    elim (Option-cases (find_by_email (normalize_email email) s)) [
      | inr (u, found) ↦
          (u, rw (found, find_or_create_by_email, if_found) found, rw (found, may_enter) at may)
      | inl missing ↦
          let d =
            new_user (or_else (local_part (normalize_email email)) (codes "there"))
              (normalize_email email) in
          let e : find_or_create_by_email env email s
              ≡ and_then (create env d s) (λ u. pure (u, true)) =
            rw (missing, find_or_create_by_email, if_found) refl in
          let made : is_ok (create env d s).0 ≡ true =
            sym (is_ok-map (λ u. (u, true)) (create env d s))
            ∙ ap (λ x. is_ok x.0) (sym e)
            ∙ fine in
          (
            new_row env d s,
            ap (λ x. find_by_email (normalize_email email) x.1) e
                ∙ ap (find_by_email (normalize_email email))
                    (map_state (create env d) (λ u. (u, true)) s)
                ∙ created_lem env d s made,
            refl,
          )
    ]

-- what `requestEmailCode` does once there is an account
abbrev send : Env → Text → User × Bool → Accounts → Result String × Accounts
send env email a = do
  delete_by_email email
  Repository.create env email env.code (env.now + code_ttl_minutes * 60 * 1000)
  mail (verification_code email env.code code_ttl_minutes)
  pure "If the email is valid, a verification code was sent."

-- the state after a code is issued
abbrev issued : Env → Text → Accounts → Accounts
issued env email t =
    (mail (verification_code email env.code code_ttl_minutes)
      (Repository.create env email env.code (env.now + code_ttl_minutes * 60 * 1000)
        (delete_by_email email t).1).1).1

issued-is_right :
    (env env' : Env) (email : Text) (t : Accounts)
    → leb env'.now (env.now + 600_000) ≡ true
    → is_right env' email env.code (issued env email t) ≡ true
unfolding Repository.create delete_by_email
issued-is_right env env' email t timely =
    rw (same_codes_refl email, timely, (eq_iff env.code env.code).1 refl) refl

request_lem :
    (env : Env) (email : Text) (s : Accounts)
    → is_ok (request_email_code env email s).0 ≡ true
    → (is_ok (find_or_create_by_email env email s).0 ≡ true)
      × ((request_email_code env email s).1
          ≡ issued env email (find_or_create_by_email env email s).1)
unfolding request_email_code Repository.create delete_by_email
request_lem env email s fine = go (find_or_create_by_email env email s) fine
  where
    go :
        (x : Result (User × Bool) × Accounts)
        → is_ok (and_then x (send env email)).0 ≡ true
        → (is_ok x.0 ≡ true) × ((and_then x (send env email)).1 ≡ issued env email x.1)
    go (ok a, t) h = (refl, refl)
    go (err e, t) h = absurd (false≢true h)

issued-found :
    (env : Env) (email : Text) (t : Accounts) (u : User)
    → find_by_email (normalize_email email) t ≡ some u
    → find_by_email (normalize_email email) (issued env email t) ≡ some u
unfolding Repository.create delete_by_email
issued-found env email t u h = h

-- From a sound table, when the code for an address is asked for and the call succeeds, and argon2
-- hashes whatever it is given, then the code that was mailed signs the address in, within ten
-- minutes, if its account (when there was one) is not deleted or was deleted no more than 90 days
-- before the sign-in.
pub request_email_code-verify_email_code :
    (env env' : Env) (email : Text) (s : Accounts)
    → ((t : String) → is_some (env'.hash t) ≡ true)
    → IsSound s
    → is_ok (request_email_code env email s).0 ≡ true
    → may_enter env' email s ≡ true
    → leb env'.now (env.now + 600_000) ≡ true
    → is_ok (verify_email_code env' email env.code (request_email_code env email s).1).0 ≡ true
unfolding verify_email_code
request_email_code-verify_email_code env env' email s hashes sound fine may timely =
    let t = (find_or_create_by_email env email s).1 in
    let (made, e) = request_lem env email s fine in
    let (u, found, may') = found_lem env env' email s made may in
    let sound' : IsSound (issued env email t) =
      subst IsSound e ((request_email_code-IsSound env email).at s sound) in
    subst (λ r. is_ok (verify_email_code env' email env.code r).0 ≡ true) (sym e)
      (ap (λ x. is_ok (and_then x λ _. admit env' email).0)
          (check_code_right env' email env.code (issued env email t)
            (issued-is_right env env' email t timely))
        ∙ admit-ok env' email (issued env email t) u hashes sound'
            (issued-found env email t u found) may')
