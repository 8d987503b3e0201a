-- ===== src/Accounts.antt =====
-- The state that the services for users, sign-in and businesses share: their tables, newest row
-- first, and what has left the process. The environment supplies what the code does not compute.
use ventura_api.Common.{ℕ, Bool, Option, String, List, Uuid, Time}
use ventura_api.Common.Action.{Action}
use ventura_api.User.Entity.{Text, User, EmailChange, UserEvent}
use ventura_api.Auth.Entity.{VerificationCode}
use ventura_api.Business.Entity.{Business}

-- a mail that was handed to the mail service
pub data Mail : Type 0 where
  verification_code : Text → String → ℕ → Mail
  welcome : Text → Text → Mail

pub record Accounts : Type 0 where
  pub users : List User
  pub email_changes : List EmailChange
  pub verification_codes : List VerificationCode
  pub businesses : List Business
  -- newest first
  pub mailed : List Mail
  -- the account events that were emitted, with the user and the time, newest first
  pub emitted : List (UserEvent × Uuid × Time)
  -- keys of the stored objects that were deleted, newest first
  pub deleted_objects : List String
  -- how many row ids have been drawn
  pub drawn : ℕ

-- `uuid`, `label` and `now` are as in Db. `code` is the six digits drawn by `generateCode` in the
-- call and `hash` is `argon2.hash` with the salts of the call (`none` when it throws); `verify hashed
-- plain` is `argon2.verify` (`none` when it throws). `access_token` and `refresh_token` sign the
-- tokens of the call for a user. `deletes_objects` says whether the object store accepts a deletion,
-- and `rejects_undefined` whether the ORM refuses to assign `undefined` to a required column.
pub record Env : Type 0 where
  pub uuid : ℕ → Uuid
  pub label : ℕ → String
  pub now : Time
  pub code : String
  pub hash : String → Option String
  pub verify : String → String → Option Bool
  pub access_token : Uuid → String
  pub refresh_token : Uuid → String
  pub deletes_objects : Bool
  pub rejects_undefined : Bool

abbrev pub Service : Type 0 → Type 0
Service A = Action Accounts A
