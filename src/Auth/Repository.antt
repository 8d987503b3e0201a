-- ===== src/Auth/Repository.antt =====
-- src/auth/infrastructure/postgres-verification-code.repository.ts
use ventura_api.Common.{
  ℕ, suc, ◌+◌, Bool, not, Option, none, some, String, ◌∷◌, Uuid, Time, find, filter, update, ◌==◌,
}
use ventura_api.Common.Text.{same_codes}
use ventura_api.Common.Action.{ok, modify}
use ventura_api.Accounts.{Accounts, Env, Service}
use ventura_api.User.Entity.{Text}
use ventura_api.Auth.Entity.{VerificationCode}

abbrev pub of_email : Text → VerificationCode → Bool
of_email email c = same_codes c.email email

abbrev pub code_id : Uuid → VerificationCode → Bool
code_id id c = c.id == id

unfoldable pub create : Env → Text → String → Time → Service VerificationCode
create env email code expires_at s =
    let row : VerificationCode = record {
      id = env.uuid s.drawn;
      email = email;
      code = code;
      expires_at = expires_at;
      attempts = 0;
    } in
    (ok row, record s { verification_codes = row ∷ s.verification_codes; drawn = suc s.drawn })

abbrev pub find_code : Text → Accounts → Option VerificationCode
find_code email s = find (of_email email) s.verification_codes

abbrev pub count_attempt : VerificationCode → VerificationCode
count_attempt c = record c { attempts = c.attempts + 1 }

-- the new count
unfoldable pub increment_attempts : Uuid → Service ℕ
increment_attempts id s = elim (find (code_id id) s.verification_codes) [
  | none ↦ (ok 0, s)
  | some c ↦ (
    ok (c.attempts + 1),
    record s { verification_codes = update (code_id id) count_attempt s.verification_codes },
  )
]

unfoldable pub delete_by_email : Text → Service (Unit {0})
delete_by_email email =
    modify λ s. record s {
      verification_codes = filter (λ c. not (of_email email c)) s.verification_codes;
    }
