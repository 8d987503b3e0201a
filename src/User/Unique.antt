-- ===== src/User/Unique.antt =====
-- Lookups and writes of users on tables whose rows are kept apart.
use ventura_api.Common.{
  ◌≡◌, refl, ap, ◌∙◌, Bool, true, false, none, some, List, [], ◌∷◌, Uuid, find, update, remove,
  if◌then◌else◌, arith, Bool-cases, inl, inr, ==_iff,
}
use mathlib.Core.Path.{subst}
use mathlib.Core.Option.{some-injective}
use ventura_api.Common.Tidy.{same_codes_refl}
use ventura_api.Common.Action.{Result, ok}
use ventura_api.Accounts.{Accounts, Env}
use ventura_api.User.Entity.{User, UserEvent}
use ventura_api.User.Repository.{
  UpdateUser, any, collides, has_id, has_email, apply_patch, find_by_id, is_undefined, update_row,
}
use ventura_api.User.Lifecycle.{patch_and_emit}
use ventura_api.User.Apart.{IsUnique, collides_comm}
use ventura_api.User.Sound.{IsSound}

-- a row that is found does not collide with a row that collides with none
any-find :
    (q p : User → Bool) (us : List User) (u : User)
    → any q us ≡ false
    → find p us ≡ some u
    → q u ≡ false
any-find q p [] u h k = cc
any-find q p (x ∷ us) u h k = ground (arith, any-find q p us u)

-- a row found by any test is the row found by a test that tells it from the others
find-find :
    (q r : User → Bool) (us : List User) (u : User)
    → IsUnique us
    → find q us ≡ some u
    → r u ≡ true
    → ((x : User) → collides x u ≡ false → r x ≡ false)
    → find r us ≡ some u
find-find q r [] u h k own apart = k
find-find q r (x ∷ us) u h k own apart = elim (Bool-cases (q x)) [
  | inl here ↦
      let same : x ≡ u = some-injective _ _ (rw here at k) in
      let fits : r x ≡ true = ap r same ∙ own in rw fits (ap some same)
  | inr later ↦
      let k' : find q us ≡ some u = rw later at k in
      rw (apart x (any-find (collides x) q us u h.0 k')) (find-find q r us u h.1 k' own apart)
]

-- a row found by any test is the row with its id, and the row with its address
pub find-has_id :
    (q : User → Bool) (us : List User) (u : User)
    → IsUnique us
    → find q us ≡ some u
    → find (has_id u.id) us ≡ some u
find-has_id q us u h k =
    find-find q (has_id u.id) us u h k ((==_iff _ _).1 refl) (λ x apart. ground arith)

pub find-has_email :
    (q : User → Bool) (us : List User) (u : User)
    → IsUnique us
    → find q us ≡ some u
    → find (has_email u.email) us ≡ some u
find-has_email q us u h k =
    find-find q (has_email u.email) us u h k (same_codes_refl u.email) (λ x apart. ground arith)

others_apart :
    (id : Uuid) (us : List User) (u : User)
    → IsUnique us
    → find (has_id id) us ≡ some u
    → any (collides u) (remove (has_id id) us) ≡ false
others_apart id [] u h k = refl
others_apart id (x ∷ us) u h k = elim (Bool-cases (has_id id x)) [
  | inl here ↦
      let same : x ≡ u = some-injective _ _ (rw here at k) in
      rw here (subst (λ y. any (collides y) us ≡ false) same h.0)
  | inr later ↦
      let k' : find (has_id id) us ≡ some u = rw later at k in
      let apart : collides u x ≡ false =
        collides_comm u x ∙ any-find (collides x) (has_id id) us u h.0 k' in
      rw (later, any, apart) (others_apart id us u h.1 k')
]

-- the patch leaves every column that must be unique, and has no undefined key
pub record IsPlain (patch : UpdateUser) : Type 0 where
  pub email : patch.email ≡ none
  pub google_id : patch.google_id ≡ none
  pub apple_id : patch.apple_id ≡ none
  pub defined : is_undefined patch.first_name ≡ false

plain_lem :
    (patch : UpdateUser) → IsPlain patch → (u : User) → collides (apply_patch patch u) ≡ collides u
plain_lem patch h u = rw (h.email, h.google_id, h.apple_id) refl

-- such a patch of a row that is there is written
pub update_row-written :
    (env : Env) (id : Uuid) (patch : UpdateUser) (s : Accounts) (u : User)
    → IsPlain patch
    → IsSound s
    → find_by_id id s ≡ some u
    → update_row env id patch s ≡ (
      ok (some (apply_patch patch u)),
      record s { users = update (has_id id) (apply_patch patch) s.users },
    )
unfolding update_row
update_row-written env id patch s u h sound found =
    let apart : any (collides (apply_patch patch u)) (remove (has_id id) s.users) ≡ false =
      ap (λ q. any q (remove (has_id id) s.users)) (plain_lem patch h u)
      ∙ others_apart id s.users u sound.unique found in
    rw (found, update_row, h.defined, apart) refl

-- a conditional call whose test fails, or holds
module _ {A : Type 0} (b : Bool) (m n : Accounts → Result A × Accounts) (s : Accounts) where
  pub if_false : b ≡ false → (if b then m else n) s ≡ n s
  if_false h = rw h refl

  pub if_true : b ≡ true → (if b then m else n) s ≡ m s
  if_true h = rw h refl

-- such a patch, and the event of it
pub patch_and_emit_lem :
    (env : Env) (event : UserEvent) (patch : UpdateUser) (s : Accounts) (u : User)
    → IsPlain patch
    → IsSound s
    → find_by_id u.id s ≡ some u
    → patch_and_emit env event patch u s ≡ (
      ok (apply_patch patch u),
      record s {
        users = update (has_id u.id) (apply_patch patch) s.users;
        emitted = (event, u.id, env.now) ∷ s.emitted;
      },
    )
patch_and_emit_lem env event patch s u h sound found =
    rw (update_row-written env u.id patch s u h sound found) refl
