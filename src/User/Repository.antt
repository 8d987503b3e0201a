-- ===== src/User/Repository.antt =====
-- src/user/infrastructure/postgres-user.repository.ts, postgres-email-change.repository.ts and the
-- unique columns of src/user/domain/postgres.user-entity.ts, whose violation is an internal error.
use ventura_api.Common.{
  suc, Bool, true, false, not, ◌&&◌, ◌||◌, Option, none, some, String, List, [], ◌∷◌, Uuid, Time,
  find, filter, update, remove, ltb, ◌==◌, if◌then◌else◌, or_default, patched, str_eq,
}
use ventura_api.Common.Text.{is_text, same_codes}
use ventura_api.Common.Action.{Error, ok, err, internal, modify}
use ventura_api.Accounts.{Accounts, Env, Service}
use ventura_api.User.Entity.{Text, owner, User, EmailChange}

-- `ICreateUser`, of the keys that the services give
pub record CreateUser : Type 0 where
  pub first_name : Text
  pub email : Text
  pub last_name : Option Text
  pub google_id : Option String
  pub apple_id : Option String
  pub avatar_url : Option String
  pub is_email_verified : Bool

-- a key of a patch for a required column: it can be there with the value `undefined`
pub data Key (A : Type 0) : Type 0 where
  absent undefined : Key A
  set : A → Key A

-- `IUpdateUser`: a field that is `none` is not written, `some none` writes null
pub record UpdateUser : Type 0 where
  pub first_name : Key Text
  pub last_name : Option (Option Text)
  pub email : Option Text
  pub google_id : Option String
  pub apple_id : Option String
  pub password : Option String
  pub hashed_refresh_token : Option (Option String)
  pub avatar_url : Option (Option String)
  pub avatar_key : Option (Option String)
  pub business_id : Option Uuid
  pub is_email_verified : Option Bool
  pub deleted : Option Bool
  pub deleted_at : Option (Option Time)

-- the patch that writes nothing
abbrev pub no_change : UpdateUser
no_change = record {
  first_name = absent;
  last_name = none;
  email = none;
  google_id = none;
  apple_id = none;
  password = none;
  hashed_refresh_token = none;
  avatar_url = none;
  avatar_key = none;
  business_id = none;
  is_email_verified = none;
  deleted = none;
  deleted_at = none;
}

abbrev pub any : (User → Bool) → List User → Bool
any p [] = false
any p (u ∷ us) = p u || any p us

abbrev pub same_id : Option String → Option String → Bool
same_id none t = false
same_id (some s) none = false
same_id (some s) (some t) = str_eq s t

-- two rows that the primary key or a unique index keeps apart
abbrev pub collides : User → User → Bool
collides u v =
    u.id == v.id
    || same_codes u.email v.email
    || same_id u.google_id v.google_id
    || same_id u.apple_id v.apple_id

abbrev pub has_id : Uuid → User → Bool
has_id id u = u.id == id

abbrev pub has_email : Text → User → Bool
has_email email u = same_codes u.email email

abbrev pub has_apple_id : String → User → Bool
has_apple_id apple_id u = is_text u.apple_id apple_id

abbrev pub written : Key Text → Text → Text
written absent old = old
written undefined old = old
written (set new) old = new

abbrev pub is_undefined : Key Text → Bool
is_undefined absent = false
is_undefined undefined = true
is_undefined (set new) = false

abbrev pub apply_patch : UpdateUser → User → User
apply_patch p u = record u {
  first_name = written p.first_name u.first_name;
  last_name = or_default p.last_name u.last_name;
  email = or_default p.email u.email;
  google_id = patched p.google_id u.google_id;
  apple_id = patched p.apple_id u.apple_id;
  password = patched p.password u.password;
  hashed_refresh_token = or_default p.hashed_refresh_token u.hashed_refresh_token;
  avatar_url = or_default p.avatar_url u.avatar_url;
  avatar_key = or_default p.avatar_key u.avatar_key;
  business_id = patched p.business_id u.business_id;
  is_email_verified = or_default p.is_email_verified u.is_email_verified;
  deleted = or_default p.deleted u.deleted;
  deleted_at = or_default p.deleted_at u.deleted_at;
}

abbrev pub not_written : Error
not_written = internal "The user could not be written."

abbrev pub find_by_id : Uuid → Accounts → Option User
find_by_id id s = find (has_id id) s.users

abbrev pub find_by_email : Text → Accounts → Option User
find_by_email email s = find (has_email email) s.users

abbrev pub find_by_apple_id : String → Accounts → Option User
find_by_apple_id apple_id s = find (has_apple_id apple_id) s.users

-- a new row (postgres.user-entity.ts)
abbrev pub new_row : Env → CreateUser → Accounts → User
new_row env data' s = record {
  id = env.uuid s.drawn;
  short_id = env.label s.drawn;
  role = owner;
  first_name = data'.first_name;
  last_name = data'.last_name;
  email = data'.email;
  google_id = data'.google_id;
  apple_id = data'.apple_id;
  password = none;
  hashed_refresh_token = none;
  avatar_url = data'.avatar_url;
  avatar_key = none;
  business_id = none;
  is_system = false;
  is_active = true;
  is_email_verified = data'.is_email_verified;
  deleted = false;
  deleted_at = none;
}

unfoldable pub create : Env → CreateUser → Service User
create env data' s =
    let row = new_row env data' s in
    if any (collides row) s.users
    then (err not_written, record s { drawn = suc s.drawn })
    else (ok row, record s { users = row ∷ s.users; drawn = suc s.drawn })

-- the write of the patched row: refused by `assign`, or by a unique index over the other rows
abbrev pub refused : Env → Uuid → UpdateUser → User → List User → Bool
refused env id patch u users =
    (is_undefined patch.first_name && env.rejects_undefined)
    || any (collides (apply_patch patch u)) (remove (has_id id) users)

unfoldable pub update_row : Env → Uuid → UpdateUser → Service (Option User)
update_row env id patch s = elim (find_by_id id s) [
  | none ↦ (ok none, s)
  | some u ↦ if refused env id patch u s.users then (err not_written, s) else (
    ok (some (apply_patch patch u)),
    record s { users = update (has_id id) (apply_patch patch) s.users },
  )
]

unfoldable pub hard_delete : Uuid → Service (Option User)
hard_delete id s = elim (find_by_id id s) [
  | none ↦ (ok none, s)
  | some u ↦ (ok (some u), record s { users = remove (has_id id) s.users })
]

unfoldable pub delete_by_user_id : Uuid → Service (Unit {0})
delete_by_user_id user_id =
    modify
      λ s. record s { email_changes = filter (λ c. not (c.user_id == user_id)) s.email_changes }

unfoldable pub create_email_change : EmailChange → Service (Unit {0})
create_email_change change = modify λ s. record s { email_changes = change ∷ s.email_changes }

abbrev pub is_valid : Uuid → String → Time → EmailChange → Bool
is_valid user_id code now c = c.user_id == user_id && str_eq c.code code && ltb now c.expires_at

abbrev pub find_valid : Uuid → String → Time → Accounts → Option EmailChange
find_valid user_id code now s = find (is_valid user_id code now) s.email_changes
