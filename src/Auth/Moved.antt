-- ===== src/Auth/Moved.antt =====
-- Google accounts whose address is no longer that of the user, under `signInWithGoogle` of
-- src/auth/auth.service.ts.
use ventura_api.Common.{
  ◌≡◌, refl, Bool, true, false, none, some, String, List, [], ◌∷◌, find, arith, or_default, str_eq,
  Bool-cases, inl, inr,
}
use ventura_api.Common.Action.{err, or_raise, if_found}
use ventura_api.Accounts.{Accounts, Env}
use ventura_api.User.Entity.{Text, User}
use ventura_api.User.Repository.{
  any, same_id, collides, find_by_email, new_row, not_written, create,
}
use ventura_api.User.Service.{normalize_email}
use ventura_api.User.SignUp.{is_empty, google_row, create_with_google}
use ventura_api.Auth.Providers.{GooglePayload, google_dto, sign_in_with_google}

abbrev pub has_google_id : String → User → Bool
has_google_id google_id u = same_id (some google_id) u.google_id

google-collides :
    (row : User) (g : String) (us : List User) (u : User)
    → row.google_id ≡ some g
    → find (has_google_id g) us ≡ some u
    → any (collides row) us ≡ true
google-collides row g [] u h k = cc
google-collides row g (x ∷ us) u h k = elim (Bool-cases (same_id (some g) x.google_id)) [
  | inl here ↦ let same : same_id row.google_id x.google_id ≡ true = rw h here in ground arith
  | inr later ↦
      let rest : any (collides row) us ≡ true = google-collides row g us u h (rw later at k) in
      ground arith
]

-- the address in a payload, empty when there is none
abbrev pub address : GooglePayload → Text
address payload = or_default payload.email []

-- Sign-in with a verified Google token that has an address and an id fails with an internal error
-- when an account has this Google id but no account has this address, as after a change of the
-- address of the account.
pub sign_in_with_google-not_written :
    (env : Env) (payload : GooglePayload) (s : Accounts) (u : User)
    → is_empty (address payload) ≡ false
    → str_eq payload.sub "" ≡ false
    → find (has_google_id payload.sub) s.users ≡ some u
    → find_by_email (normalize_email (address payload)) s ≡ none
    → (sign_in_with_google env (some payload) s).0 ≡ err not_written
unfolding sign_in_with_google create_with_google create
sign_in_with_google-not_written env payload s u full named linked moved =
    let row = new_row env (google_row (google_dto payload (address payload))) s in
    rw
      (
        full,
        named,
        or_raise,
        moved,
        if_found,
        google-collides row payload.sub s.users u refl linked,
      )
      refl
