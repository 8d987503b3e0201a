-- ===== src/Tests/Accounts.antt =====
-- The theorems on users, sign-in and businesses at work on a small table of two users.
use ventura_api.Common.{
  ℕ, ◌+◌, ◌≡◌, refl, true, false, none, some, String, List, [], ◌∷◌, arith, str_eq,
}
use ventura_api.Common.Text.{codes, tidy}
use ventura_api.Common.Action.{ok, err, forbidden}
use ventura_api.Common.Keeps.{is_ok}
use ventura_api.Accounts.{Accounts, Env}
use ventura_api.User.Entity.{owner, User}
use ventura_api.User.Repository.{apply_patch, not_written}
use ventura_api.User.Password.{CreatePasswordDto, create_password, verify_credentials}
use ventura_api.User.Lifecycle.{delete_account, reactivate_if_within_window}
use ventura_api.User.SignUp.{AppleParams, create_with_apple}
use ventura_api.User.Sound.{IsSound}
use ventura_api.User.Returns.{Returned, delete_account-Returned}
use ventura_api.User.Apple.{create_with_apple-not_written}
use ventura_api.User.Passwords.{set_password, create_password-verify_credentials}
use ventura_api.Auth.Entity.{VerificationCode}
use ventura_api.Auth.Service.{
  invalid_code, issue_tokens, verify_refresh_token, logout, request_email_code, verify_email_code,
}
use ventura_api.Auth.Providers.{GooglePayload, sign_in_with_google}
use ventura_api.Auth.Guesses.{run_guesses, run_guesses-verify_email_code}
use ventura_api.Auth.Verified.{Verified, verify_email_code-Verified}
use ventura_api.Auth.Tokens.{issue_tokens-verify_refresh_token, logout-verify_refresh_token}
use ventura_api.Auth.Admitted.{request_email_code-verify_email_code}
use ventura_api.Auth.Guard.{can_activate, allowed_emails, delete_account-can_activate}
use ventura_api.Auth.Moved.{sign_in_with_google-not_written}
use ventura_api.Business.Service.{CreateBusinessDto, create}
use ventura_api.Business.Linked.{Linked, create-Linked}
use ventura_api.History.{Call, sign_up, confirm_change, log_out, run, run-IsSound}

-- a hash that shows what was hashed
abbrev hashed : String → String
hashed plain = String.◌∷◌ "h" plain

abbrev env : Env
env = record {
  uuid = λ n. 100 + n;
  label = λ n. "NUM";
  now = 1000;
  code = "123456";
  hash = λ plain. some (hashed plain);
  verify = λ h plain. some (str_eq h (hashed plain));
  access_token = λ id. "access";
  refresh_token = λ id. "refresh";
  deletes_objects = true;
  rejects_undefined = true;
}

abbrev later : Env
later = record env { now = 2000 }

abbrev user : ℕ → String → String → User
user id email google_id = record {
  id = id;
  short_id = "USR";
  role = owner;
  first_name = codes "Kofi";
  last_name = none;
  email = codes email;
  google_id = some google_id;
  apple_id = none;
  password = none;
  hashed_refresh_token = none;
  avatar_url = none;
  avatar_key = none;
  business_id = none;
  is_system = false;
  is_active = true;
  is_email_verified = false;
  deleted = false;
  deleted_at = none;
}

abbrev pub kofi : User
kofi = user 1 "kofi@shop.gh" "g1"

abbrev pending : VerificationCode
pending = record {
  id = 9;
  email = codes "kofi@shop.gh";
  code = "123456";
  expires_at = 601_000;
  attempts = 0;
}

abbrev pub accounts : Accounts
accounts = record {
  users = kofi ∷ user 2 "esi@shop.gh" "g2" ∷ [];
  email_changes = [];
  verification_codes = pending ∷ [];
  businesses = [];
  mailed = [];
  emitted = [];
  deleted_objects = [];
  drawn = 0;
}

accounts-IsSound : IsSound accounts
unfolding tidy
accounts-IsSound = record { unique = (refl, (refl, tt)); normal = (refl, (refl, tt)); pending = tt }

abbrev calls : List (Env × Call)
calls =
    (env, sign_up (codes "Ama") (codes " Ama@Shop.gh "))
    ∷ (later, confirm_change 1 "123456")
    ∷ (later, log_out 1)
    ∷ []

run-IsSound_example : IsSound (run calls accounts)
run-IsSound_example = run-IsSound calls accounts accounts-IsSound

abbrev guesses : List (Env × String)
guesses =
    (env, "000000")
    ∷ (env, "000001")
    ∷ (later, "000002")
    ∷ (later, "000003")
    ∷ (later, "000004")
    ∷ []

run_guesses-verify_email_code_example :
    verify_email_code later
      (codes "kofi@shop.gh")
      "123456"
      (run_guesses (codes "kofi@shop.gh") guesses accounts)
    ≡ (err invalid_code, run_guesses (codes "kofi@shop.gh") guesses accounts)
run_guesses-verify_email_code_example =
    run_guesses-verify_email_code (codes "kofi@shop.gh") guesses pending accounts later "123456"
      (record { by_email = refl; by_id = refl }) (refl, (refl, (refl, (refl, (refl, tt)))))
      (omega arith) (omega arith)

verify_email_code-Verified_example :
    Verified env
      (codes "kofi@shop.gh")
      "123456"
      accounts
      (verify_email_code env (codes "kofi@shop.gh") "123456" accounts)
verify_email_code-Verified_example =
    verify_email_code-Verified env (codes "kofi@shop.gh") "123456" accounts

request_email_code-verify_email_code_example :
    is_ok
      (verify_email_code later
        (codes "esi@shop.gh")
        "123456"
        (request_email_code env (codes "esi@shop.gh") accounts).1).0
    ≡ true
unfolding tidy request_email_code
request_email_code-verify_email_code_example =
    request_email_code-verify_email_code env later (codes "esi@shop.gh") accounts (λ t. refl)
      accounts-IsSound refl refl refl

issue_tokens-verify_refresh_token_example :
    (verify_refresh_token later 1 "stolen" (issue_tokens env 1 accounts).1).0 ≡ ok false
issue_tokens-verify_refresh_token_example =
    issue_tokens-verify_refresh_token env later 1 "stolen" (hashed "refresh") accounts kofi
      accounts-IsSound refl refl refl refl

logout-verify_refresh_token_example :
    (verify_refresh_token later 1 "refresh" (logout env 1 accounts).1).0 ≡ ok false
logout-verify_refresh_token_example =
    logout-verify_refresh_token env later 1 "refresh" accounts accounts-IsSound

abbrev first_password : CreatePasswordDto
first_password = record { user_id = 1; email = codes "Kofi@shop.gh"; new_password = "secret" }

create_password-verify_credentials_example :
    (is_ok (create_password env first_password accounts).0 ≡ true)
    × ((verify_credentials later first_password.email "secret"
          (create_password env first_password accounts).1).0
        ≡ ok (some (apply_patch (set_password (hashed "secret")) kofi)))
unfolding tidy
create_password-verify_credentials_example =
    create_password-verify_credentials env later first_password "secret" (hashed "secret") accounts
      kofi accounts-IsSound refl refl refl refl refl refl

delete_account-Returned_example :
    Returned true 1 accounts
      (delete_account env 1 accounts).1
      (reactivate_if_within_window later 1 (delete_account env 1 accounts).1)
delete_account-Returned_example =
    delete_account-Returned env later accounts kofi accounts-IsSound refl refl

abbrev kiosk : CreateBusinessDto
kiosk = record { name = "Kiosk"; categories = none }

create-Linked_example : Linked 1 accounts (create env 1 kiosk accounts)
create-Linked_example = create-Linked env 1 kiosk accounts

abbrev moved : GooglePayload
moved = record {
  email = some (codes "kofi@mail.gh");
  sub = "g1";
  given_name = some (codes "Kofi");
  name = none;
  family_name = none;
  picture = none;
}

sign_in_with_google-not_written_example :
    (sign_in_with_google env (some moved) accounts).0 ≡ err not_written
unfolding tidy
sign_in_with_google-not_written_example =
    sign_in_with_google-not_written env moved accounts kofi refl refl refl refl

abbrev apple : AppleParams
apple = record {
  apple_id = "a1";
  email = codes "kofi@shop.gh";
  first_name = none;
  last_name = none;
}

create_with_apple-not_written_example :
    create_with_apple env apple accounts ≡ (err not_written, accounts)
unfolding tidy
create_with_apple-not_written_example =
    create_with_apple-not_written env apple accounts kofi refl accounts-IsSound refl refl refl

-- the guard, with the address on the list and in another case
delete_account-can_activate_example :
    ((can_activate (codes "x@y.z, Kofi@shop.gh") (some 1) accounts).0 ≡ ok true)
    × ((can_activate (codes "kofi@shop.gh") (some 1) (delete_account env 1 accounts).1).0
        ≡ err (forbidden "Administrator access required."))
unfolding allowed_emails tidy
delete_account-can_activate_example =
    delete_account-can_activate env (codes "x@y.z, Kofi@shop.gh") (codes "kofi@shop.gh") accounts
      kofi accounts-IsSound refl refl
