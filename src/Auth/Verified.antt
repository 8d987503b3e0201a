-- ===== src/Auth/Verified.antt =====
-- What `verifyEmailCode` of src/auth/auth.service.ts asks of the emailed code, and what becomes of it.
use ventura_api.Common.{
  ◌+◌, ◌≡◌, ◌⊎◌, refl, sym, ◌∙◌, Bool, true, false, ◌&&◌, Option, none, some, String, Uuid, find,
  ltb, leb, arith, Bool-cases, Option-cases, inl, inr, str_eq, List,
}
use mathlib.Core.Bool.{and-eq-true_iff, false≢true}
use ventura_api.Common.Action.{Result, ok, err, and_then, or_raise, raise, ◌>>=◌}
use ventura_api.Common.Keeps.{Keeps, keeps_rules, Done, Ends, Ends->>=, Ends-Keeps}
use ventura_api.Accounts.{Accounts, Env, Mail}
use ventura_api.User.Entity.{Text, User}
use ventura_api.User.Repository.{UpdateUser, find_by_id, refused, update_row}
use ventura_api.User.Service.{set_refresh_token}
use ventura_api.Auth.Entity.{VerificationCode, AuthResult}
use ventura_api.Auth.Repository.{code_id, find_code, increment_attempts, delete_by_email}
use ventura_api.Auth.Service.{
  max_code_attempts, invalid_code, not_expired, count_guess, check_code, complete, admit,
  verify_email_code, mail, issue_tokens, build_auth_result,
}
use ventura_api.Auth.Guesses.{deleted_lem}

-- the guess is that of a code that is there, not expired, and not locked
abbrev pub opens : Env → String → Option VerificationCode → Bool
opens env guess none = false
opens env guess (some c) = leb env.now c.expires_at && ltb c.attempts 5 && str_eq c.code guess

abbrev pub is_right : Env → Text → String → Accounts → Bool
is_right env email guess s = opens env guess (find_code email s)

-- the outcome of a guess
abbrev pub Verified : {A : Type 0} → Env → Text → String → Accounts → Result A × Accounts → Type 0
Verified env email guess s (ok r, s') =
    (is_right env email guess s ≡ true) × (find_code email s' ≡ none)
Verified env email guess s (err e, s') =
    (is_right env email guess s ≡ true) ⊎ ((e ≡ invalid_code) × (s'.users ≡ s.users))

-- no code for the address
abbrev NoCode : Text → Accounts → Type 0
NoCode email s = find_code email s ≡ none

mail-NoCode : (email : Text) (m : Mail) → Keeps (NoCode email) (mail m)
mail-NoCode email m = record { at = λ s h. h }

update_row-NoCode :
    (email : Text) (env : Env) (id : Uuid) (patch : UpdateUser)
    → Keeps (NoCode email) (update_row env id patch)
unfolding update_row
update_row-NoCode email env id patch = record {
  at = λ s h. elim (Option-cases (find_by_id id s)) [
    | inl missing ↦ rw (missing, update_row) h
    | inr (u, found) ↦
        rw (found, update_row)
          (elim (Bool-cases (refused env id patch u s.users)) [
            | inl refuses ↦ rw refuses h
            | inr accepts ↦ rw accepts h
          ])
  ];
}

build_auth_result-NoCode :
    (email : Text) (env : Env) (u : User) → Keeps (NoCode email) (build_auth_result env u)
unfolding build_auth_result issue_tokens set_refresh_token
build_auth_result-NoCode email env u = search (keeps_rules, update_row-NoCode) depth 10

delete-Ends :
    {B : Type 0} (email : Text) (f : Unit {0} → Accounts → Result B × Accounts)
    → ((a : Unit {0}) → Keeps (NoCode email) (f a))
    → Ends (NoCode email) (delete_by_email email >>= f)
delete-Ends email f h = Ends-Keeps (delete_by_email email) f (deleted_lem email) h

admit-Ends : (env : Env) (email : Text) → Ends (NoCode email) (admit env email)
unfolding admit complete
admit-Ends env email =
    search (Ends->>=, delete-Ends, keeps_rules, mail-NoCode, build_auth_result-NoCode) depth 12

-- the table of users as it was
abbrev SameUsers : List User → Accounts → Type 0
SameUsers us s = s.users ≡ us

increment_attempts-SameUsers :
    (us : List User) (id : Uuid) → Keeps (SameUsers us) (increment_attempts id)
unfolding increment_attempts
increment_attempts-SameUsers us id = record {
  at = λ s h. elim (Option-cases (find (code_id id) s.verification_codes)) [
    | inl missing ↦ rw (missing, increment_attempts) h
    | inr (c, found) ↦ rw (found, increment_attempts) h
  ];
}

delete_by_email-SameUsers :
    (us : List User) (email : Text) → Keeps (SameUsers us) (delete_by_email email)
unfolding delete_by_email
delete_by_email-SameUsers us email = record { at = λ s h. h }

check_code-SameUsers :
    (us : List User) (env : Env) (email : Text) (guess : String)
    → Keeps (SameUsers us) (check_code env email guess)
unfolding check_code count_guess
check_code-SameUsers us env email guess =
    search (keeps_rules, increment_attempts-SameUsers, delete_by_email-SameUsers) depth 12

pub check_code_right :
    (env : Env) (email : Text) (guess : String) (s : Accounts)
    → is_right env email guess s ≡ true
    → check_code env email guess s ≡ (ok tt, s)
unfolding check_code
check_code_right env email guess s h = elim (Option-cases (find_code email s)) [
  | inl missing ↦ absurd (false≢true (rw missing at h))
  | inr (c, found) ↦
      let right : opens env guess (some c) ≡ true = rw found at h in
      let (timely, same) =
        (and-eq-true_iff (leb env.now c.expires_at && ltb c.attempts 5) _).0 right in
      let live : ltb c.expires_at env.now ≡ false = ground arith in
      let open_ : leb max_code_attempts c.attempts ≡ false = ground arith in
      rw (found, check_code, not_expired, live, or_raise, open_, same) refl
]

count_guess_ok :
    (email : Text) (c : VerificationCode) (s : Accounts) → (count_guess email c s).0 ≡ ok tt
unfolding count_guess increment_attempts delete_by_email
count_guess_ok email c s = elim (Option-cases (find (code_id c.id) s.verification_codes)) [
  | inl missing ↦ rw (missing, count_guess, increment_attempts) refl
  | inr (d, found) ↦
      rw (found, count_guess, increment_attempts)
        (elim (Bool-cases (leb max_code_attempts (d.attempts + 1))) [
          | inl last ↦ rw (last, delete_by_email) refl
          | inr more ↦ rw more refl
        ])
]

then_raise :
    (x : Result (Unit {0}) × Accounts)
    → x.0 ≡ ok tt
    → (and_then x λ _. raise {A = Unit {0}} invalid_code).0 ≡ err invalid_code
then_raise (ok a, s) h = refl
then_raise (err e, s) h = cc

check_code_wrong :
    (env : Env) (email : Text) (guess : String) (s : Accounts)
    → is_right env email guess s ≡ false
    → (check_code env email guess s).0 ≡ err invalid_code
unfolding check_code count_guess
check_code_wrong env email guess s h = elim (Option-cases (find_code email s)) [
  | inl missing ↦ rw (missing, check_code, not_expired, or_raise) refl
  | inr (c, found) ↦ elim (Bool-cases (ltb c.expires_at env.now)) [
    | inl late ↦ rw (found, check_code, not_expired, late, or_raise) refl
    | inr live ↦ elim (Bool-cases (leb max_code_attempts c.attempts)) [
      | inl locked ↦ rw (found, check_code, not_expired, live, or_raise, locked) refl
      | inr open_ ↦ elim (Bool-cases (str_eq c.code guess)) [
        | inl same ↦
            let wrong : opens env guess (some c) ≡ false = rw found at h in
            let timely : leb env.now c.expires_at ≡ true = ground arith in
            let free : ltb c.attempts 5 ≡ true = ground arith in
            absurd (false≢true (sym wrong ∙ rw (timely, free, same) refl))
        | inr differs ↦
            rw (found, check_code, not_expired, live, or_raise, open_, differs)
              (then_raise (count_guess email c s) (count_guess_ok email c s))
      ]
    ]
  ]
]

-- A call of `verifyEmailCode` that succeeds was given the code of the address, not expired and with
-- fewer than five attempts, and leaves no code for the address. One that fails was given that code
-- too, or it fails as an invalid code and leaves the table of users as it was.
pub verify_email_code-Verified :
    (env : Env) (email : Text) (guess : String) (s : Accounts)
    → Verified env email guess s (verify_email_code env email guess s)
unfolding verify_email_code
verify_email_code-Verified env email guess s = elim (Bool-cases (is_right env email guess s)) [
  | inl right ↦
      rw (verify_email_code, check_code_right env email guess s right)
        (admitted right (admit env email s) ((admit-Ends env email).at s))
  | inr wrong ↦
      refused_lem (check_code env email guess s) (check_code_wrong env email guess s wrong)
        ((check_code-SameUsers s.users env email guess).at s refl)
]
  where
    admitted :
        is_right env email guess s ≡ true
        → (x : Result AuthResult × Accounts) → Done (NoCode email) x
        → Verified env email guess s x
    admitted right (ok r, s') done = (right, done)
    admitted right (err e, s') done = inl right

    refused_lem :
        (x : Result (Unit {0}) × Accounts)
        → x.0 ≡ err invalid_code
        → x.1.users ≡ s.users
        → Verified env email guess s (and_then x λ _. admit env email)
    refused_lem (ok a, s') h k = cc
    refused_lem (err e, s') h k = inr (cc, k)
