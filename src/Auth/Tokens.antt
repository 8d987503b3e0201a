-- ===== src/Auth/Tokens.antt =====
-- Refresh tokens, under `issueTokens`, `verifyRefreshToken` and `logout` of src/auth/auth.service.ts.
use ventura_api.Common.{
  ◌≡◌, refl, ◌∙◌, true, false, not, Option, none, some, String, Uuid, find-update, Option-cases,
  inl, inr, find-fits, str_eq,
}
use ventura_api.Common.Action.{ok, or_raise, map_state}
use ventura_api.Accounts.{Accounts, Env}
use ventura_api.User.Entity.{User}
use ventura_api.User.Repository.{UpdateUser, no_change, has_id, apply_patch, find_by_id, update_row}
use ventura_api.User.Service.{set_refresh_token, clear_refresh_token}
use ventura_api.User.Sound.{IsSound}
use ventura_api.User.Unique.{IsPlain, update_row-written}
use ventura_api.Auth.Entity.{AuthTokens}
use ventura_api.Auth.Service.{issue_tokens, verify_refresh_token, logout}

abbrev hash_patch : Option String → UpdateUser
hash_patch h = record no_change { hashed_refresh_token = some h }

hash_patch-IsPlain : (h : Option String) → IsPlain (hash_patch h)
hash_patch-IsPlain h = record { email = refl; google_id = refl; apple_id = refl; defined = refl }

missing_lem :
    (env : Env) (id : Uuid) (s : Accounts)
    → find_by_id id s ≡ none
    → (update_row env id (hash_patch none) s).1 ≡ s
unfolding update_row
missing_lem env id s missing = rw (missing, update_row) refl

-- the account after its hash is written
written_lem :
    (env : Env) (id : Uuid) (h : Option String) (s : Accounts) (u : User)
    → IsSound s
    → find_by_id id s ≡ some u
    → find_by_id id (update_row env id (hash_patch h) s).1 ≡ some (apply_patch (hash_patch h) u)
written_lem env id h s u sound found =
    rw (update_row-written env id (hash_patch h) s u (hash_patch-IsPlain h) sound found) (
      find-update (has_id id) (apply_patch (hash_patch h)) s.users u found
        (find-fits (has_id id) s.users u found))

set_state :
    (env : Env) (id : Uuid) (h : String) (s : Accounts)
    → (set_refresh_token env id h s).1 ≡ (update_row env id (hash_patch (some h)) s).1
unfolding set_refresh_token
set_state env id h s = map_state (update_row env id (hash_patch (some h))) (λ _. tt) s

issue_state :
    (env : Env) (id : Uuid) (h : String) (s : Accounts)
    → env.hash (env.refresh_token id) ≡ some h
    → (issue_tokens env id s).1 ≡ (update_row env id (hash_patch (some h)) s).1
unfolding issue_tokens
issue_state env id h s e =
    rw (e, issue_tokens, or_raise)
      (map_state {B = AuthTokens} (set_refresh_token env id h)
          (λ _. record { access_token = env.access_token id; refresh_token = env.refresh_token id })
          s
        ∙ set_state env id h s)

logout_state :
    (env : Env) (id : Uuid) (s : Accounts)
    → (logout env id s).1 ≡ (update_row env id (hash_patch none) s).1
unfolding logout clear_refresh_token
logout_state env id s = map_state (update_row env id (hash_patch none)) (λ _. tt) s

-- After tokens are issued to an account that is there, with argon2 answering for the hash of the
-- issued refresh token as it does for the plain text that was hashed, the refresh tokens that
-- `verifyRefreshToken` accepts for the account are those equal to the issued one.
pub issue_tokens-verify_refresh_token :
    (env env' : Env) (id : Uuid) (token hashed : String) (s : Accounts) (u : User)
    → IsSound s
    → find_by_id id s ≡ some u
    → env.hash (env.refresh_token id) ≡ some hashed
    → not (str_eq hashed "") ≡ true
    → env'.verify hashed token ≡ some (str_eq (env.refresh_token id) token)
    → (verify_refresh_token env' id token (issue_tokens env id s).1).0
      ≡ ok (str_eq (env.refresh_token id) token)
issue_tokens-verify_refresh_token env env' id token hashed s u sound found hashes full verifies =
    rw
      (
        issue_state env id hashed s hashes,
        written_lem env id (some hashed) s u sound found,
        full,
        verifies,
      )
      refl

-- After `logout` of a sound table no refresh token is accepted for the account.
pub logout-verify_refresh_token :
    (env env' : Env) (id : Uuid) (token : String) (s : Accounts)
    → IsSound s
    → (verify_refresh_token env' id token (logout env id s).1).0 ≡ ok false
logout-verify_refresh_token env env' id token s sound =
    rw (logout_state env id s) (elim (Option-cases (find_by_id id s)) [
      | inl missing ↦ rw (missing_lem env id s missing, missing) refl
      | inr (u, found) ↦ rw (written_lem env id none s u sound found) refl
    ])
