-- ===== src/Auth/Guesses.antt =====
-- Histories of guesses at an emailed code, under `verifyEmailCode` of src/auth/auth.service.ts.
use ventura_api.Common.{
  ◌+◌, ◌≤◌, ◌≡◌, refl, ap, Bool, true, false, not, ◌&&◌, none, some, String, List, [], ◌∷◌, All,
  Uuid, find, find-fits, find-update, find-update_other, filter, update, length, ltb, leb,
  if◌then◌else◌, arith, Bool-cases, inl, inr, str_eq,
}
use mathlib.Core.Bool.{and-eq-true_iff}
use ventura_api.Common.Action.{ok, err, and_then, raise, or_raise}
use ventura_api.Accounts.{Accounts, Env}
use ventura_api.User.Entity.{Text}
use ventura_api.Auth.Entity.{VerificationCode}
use ventura_api.Auth.Repository.{
  of_email, code_id, find_code, count_attempt, increment_attempts, delete_by_email,
}
use ventura_api.Auth.Service.{
  max_code_attempts, invalid_code, not_expired, count_guess, check_code, admit, verify_email_code,
}

false_of_not : (b : Bool) → not b ≡ true → b ≡ false
false_of_not true h = cc
false_of_not false h = refl

-- the state after guesses at the code for an address, each in the environment of its call
unfoldable pub run_guesses : Text → List (Env × String) → Accounts → Accounts
unfolding verify_email_code
run_guesses email [] s = s
run_guesses email ((env, guess) ∷ guesses) s =
    run_guesses email guesses (verify_email_code env email guess s).1

-- the guess is wrong, and is made before the code expires
abbrev pub is_wrong : VerificationCode → Env × String → Bool
is_wrong c (env, guess) = not (str_eq c.code guess) && leb env.now c.expires_at

-- the row is the code for the address, and the row with its id
pub record IsCurrent (email : Text) (c : VerificationCode) (s : Accounts) : Type 0 where
  pub by_email : find_code email s ≡ some c
  pub by_id : find (code_id c.id) s.verification_codes ≡ some c

find-filter :
    (q : VerificationCode → Bool) (cs : List VerificationCode)
    → find q (filter (λ c. not (q c)) cs) ≡ none
find-filter q [] = refl
find-filter q (x ∷ cs) = elim (Bool-cases (q x)) [
  | inl here ↦ rw here (find-filter q cs)
  | inr other ↦ rw (other, other) (find-filter q cs)
]

pub deleted_lem : (email : Text) (s : Accounts) → find_code email (delete_by_email email s).1 ≡ none
unfolding delete_by_email
deleted_lem email s = find-filter (of_email email) s.verification_codes

-- a guess when there is no code
pub absent_lem :
    (env : Env) (email : Text) (guess : String) (s : Accounts)
    → find_code email s ≡ none
    → verify_email_code env email guess s ≡ (err invalid_code, s)
unfolding verify_email_code check_code
absent_lem env email guess s h = rw (h, verify_email_code, check_code, not_expired, or_raise) refl

-- one attempt more on a code
abbrev bump : Uuid → Accounts → Accounts
bump id s = record s { verification_codes = update (code_id id) count_attempt s.verification_codes }

-- the state after a counted guess
abbrev counted : Text → VerificationCode → Accounts → Accounts
counted email c s =
    if leb max_code_attempts (c.attempts + 1)
    then (delete_by_email email (bump c.id s)).1
    else bump c.id s

count_guess_lem :
    (email : Text) (c : VerificationCode) (s : Accounts)
    → find (code_id c.id) s.verification_codes ≡ some c
    → count_guess email c s ≡ (ok tt, counted email c s)
unfolding count_guess increment_attempts delete_by_email
count_guess_lem email c s h =
    rw (h, count_guess, increment_attempts)
      (elim (Bool-cases (leb max_code_attempts (c.attempts + 1))) [
        | inl last ↦ rw (last, delete_by_email) refl
        | inr more ↦ rw more refl
      ])

abbrev after_wrong : Text → VerificationCode → Accounts → Accounts
after_wrong email c s =
    if leb max_code_attempts c.attempts then (delete_by_email email s).1 else counted email c s

wrong_guess :
    (env : Env) (email : Text) (guess : String) (c : VerificationCode) (s : Accounts)
    → IsCurrent email c s
    → is_wrong c (env, guess) ≡ true
    → verify_email_code env email guess s ≡ (err invalid_code, after_wrong email c s)
unfolding verify_email_code check_code delete_by_email
wrong_guess env email guess c s h wrong =
    let (differs, early) = (and-eq-true_iff (not (str_eq c.code guess)) _).0 wrong in
    let other : str_eq c.code guess ≡ false = false_of_not (str_eq c.code guess) differs in
    let live : ltb c.expires_at env.now ≡ false = ground arith in
    rw (h.by_email, verify_email_code, check_code, not_expired, live, or_raise)
      (elim (Bool-cases (leb max_code_attempts c.attempts)) [
        | inl locked ↦ rw (locked, delete_by_email) refl
        | inr open_ ↦
            rw (open_, other)
              (ap
                (λ x.
                  and_then (and_then x (λ _. raise {A = Unit {0}} invalid_code))
                    (λ _. admit env email))
                (count_guess_lem email c s h.by_id))
      ])

bump-IsCurrent :
    (email : Text) (c : VerificationCode) (s : Accounts)
    → IsCurrent email c s
    → IsCurrent email (count_attempt c) (bump c.id s)
bump-IsCurrent email c s h = record {
  by_email =
      find-update_other (code_id c.id) (of_email email) count_attempt s.verification_codes c h.by_id
        h.by_email (find-fits (of_email email) s.verification_codes c h.by_email);
  by_id =
      find-update (code_id c.id) count_attempt s.verification_codes c h.by_id
        (find-fits (code_id c.id) s.verification_codes c h.by_id);
}

-- no code stays none
run_guesses_absent :
    (email : Text) (guesses : List (Env × String)) (s : Accounts)
    → find_code email s ≡ none
    → find_code email (run_guesses email guesses s) ≡ none
unfolding run_guesses
run_guesses_absent email [] s h = h
run_guesses_absent email ((env, guess) ∷ guesses) s h =
    let e : (verify_email_code env email guess s).1 ≡ s =
      ap (λ x. x.1) (absent_lem env email guess s h) in
    rw (e, run_guesses) (run_guesses_absent email guesses s h)

run_guesses-none :
    (email : Text) (guesses : List (Env × String)) (c : VerificationCode) (s : Accounts)
    → IsCurrent email c s
    → All (λ g. is_wrong c g ≡ true) guesses
    → 1 ≤ length guesses
    → max_code_attempts ≤ c.attempts + length guesses
    → find_code email (run_guesses email guesses s) ≡ none
unfolding run_guesses
run_guesses-none email [] c s h wrong some_ enough = elim some_ [ ]
run_guesses-none email ((env, guess) ∷ guesses) c s h wrong some_ enough =
    let e : (verify_email_code env email guess s).1 ≡ after_wrong email c s =
      ap (λ x. x.1) (wrong_guess env email guess c s h wrong.0) in
    rw (e, run_guesses)
      (elim (Bool-cases (leb max_code_attempts c.attempts)) [
        | inl locked ↦ rw locked (run_guesses_absent email guesses _ (deleted_lem email s))
        | inr open_ ↦ rw open_ (elim (Bool-cases (leb max_code_attempts (c.attempts + 1))) [
          | inl last ↦
              rw last (run_guesses_absent email guesses _ (deleted_lem email (bump c.id s)))
          | inr more ↦ rw more (
              run_guesses-none email guesses (count_attempt c) (bump c.id s)
                (bump-IsCurrent email c s h) wrong.1 (ground arith) (ground arith))
        ])
      ])

-- After a history of wrong guesses at the unexpired code for an address, which are at least one and
-- with the code's earlier attempts at least five, every further guess, right or wrong and at any
-- time, is refused by the same error and changes nothing.
pub run_guesses-verify_email_code :
    (email : Text) (guesses : List (Env × String)) (c : VerificationCode) (s : Accounts) (env : Env)
    (guess : String)
    → IsCurrent email c s
    → All (λ g. is_wrong c g ≡ true) guesses
    → 1 ≤ length guesses
    → 5 ≤ c.attempts + length guesses
    → verify_email_code env email guess (run_guesses email guesses s)
      ≡ (err invalid_code, run_guesses email guesses s)
run_guesses-verify_email_code email guesses c s env guess h wrong some_ enough =
    absent_lem env email guess (run_guesses email guesses s)
      (run_guesses-none email guesses c s h wrong some_ enough)
