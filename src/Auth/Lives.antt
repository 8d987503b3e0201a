-- ===== src/Auth/Lives.antt =====
-- The calls of src/auth/auth.service.ts that succeed on sound tables.
use ventura_api.Common.{◌≡◌, refl, ap, true, String, Uuid, is_some, Option-cases, inl, inr}
use ventura_api.Common.Keeps.{keeps_rules, is_ok, Lives, lives_rules}
use ventura_api.Accounts.{Env, Mail}
use ventura_api.User.Entity.{Text, User}
use ventura_api.User.Repository.{UpdateUser, find_by_id, update_row}
use ventura_api.User.Service.{mark_email_verified, set_refresh_token}
use ventura_api.User.Sound.{IsSound, update_row-kept}
use ventura_api.User.Kept.{mark_email_verified-IsSound, set_refresh_token-IsSound}
use ventura_api.User.Unique.{IsPlain, update_row-written}
use ventura_api.Auth.Repository.{delete_by_email}
use ventura_api.Auth.Service.{mail, issue_tokens, build_auth_result, complete}
use ventura_api.Auth.Kept.{delete_by_email-IsSound, mail-IsSound}

update_row-Lives :
    (env : Env) (id : Uuid) (patch : UpdateUser)
    → IsPlain patch
    → Lives IsSound (update_row env id patch)
unfolding update_row
update_row-Lives env id patch h = record {
  at = λ s sound. elim (Option-cases (find_by_id id s)) [
    | inl missing ↦ rw (missing, update_row) refl
    | inr (u, found) ↦ ap (λ x. is_ok x.0) (update_row-written env id patch s u h sound found)
  ];
}

mark_email_verified-Lives : (env : Env) (id : Uuid) → Lives IsSound (mark_email_verified env id)
unfolding mark_email_verified
mark_email_verified-Lives env id = search (lives_rules, update_row-Lives, update_row-kept) depth 10

set_refresh_token-Lives :
    (env : Env) (id : Uuid) (h : String) → Lives IsSound (set_refresh_token env id h)
unfolding set_refresh_token
set_refresh_token-Lives env id h = search (lives_rules, update_row-Lives, update_row-kept) depth 10

mail-Lives : (m : Mail) → Lives IsSound (mail m)
mail-Lives m = record { at = λ s h. refl }

delete_by_email-Lives : (e : Text) → Lives IsSound (delete_by_email e)
unfolding delete_by_email
delete_by_email-Lives e = record { at = λ s h. refl }

module _ (env : Env) (hashes : (t : String) → is_some (env.hash t) ≡ true) where
  build_auth_result-Lives : (u : User) → Lives IsSound (build_auth_result env u)
  unfolding build_auth_result issue_tokens
  build_auth_result-Lives u =
      search (lives_rules, keeps_rules, hashes, set_refresh_token-Lives, set_refresh_token-IsSound)
        depth 12

  pub complete-Lives : (e : Text) (u v : User) → Lives IsSound (complete env e u v)
  unfolding complete
  complete-Lives e u v =
      search
        (
          lives_rules, keeps_rules, mark_email_verified-Lives, mark_email_verified-IsSound,
          mail-Lives, mail-IsSound, delete_by_email-Lives, delete_by_email-IsSound,
          build_auth_result-Lives,
        )
        depth 12
