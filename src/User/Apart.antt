-- ===== src/User/Apart.antt =====
-- Users that no unique index of src/user/domain/postgres.user-entity.ts takes for one another.
use ventura_api.Common.{
  ℕ, ◌≡◌, ◌↔◌, refl, sym, ◌∙◌, Bool, true, false, Option, none, some, String, List, [], ◌∷◌, find,
  update, remove, arith, Bool-cases, inl, inr, ◌==◌, str_eq, eq_iff,
}
use mathlib.Core.Path.{subst}
use mathlib.Core.Option.{some-injective}
use ventura_api.Common.Tidy.{same_codes_comm}
use ventura_api.User.Entity.{User}
use ventura_api.User.Repository.{any, same_id, collides}

-- no two rows share an id, an address, a Google id or an Apple id
abbrev pub IsUnique : List User → Type 0
IsUnique [] = Unit
IsUnique (u ∷ us) = (any (collides u) us ≡ false) × IsUnique us

str_eq_comm : (s t : String) → str_eq s t ≡ str_eq t s
str_eq_comm s t = go (str_eq s t) (str_eq t s) (eq_iff s t) (eq_iff t s)
  where
    go : (a b : Bool) → (a ≡ true) ↔ (s ≡ t) → (b ≡ true) ↔ (t ≡ s) → a ≡ b
    go true b h k = sym (k.1 (sym (h.0 refl)))
    go false true h k = h.1 (sym (k.0 refl))
    go false false h k = refl

same_id_comm : (a b : Option String) → same_id a b ≡ same_id b a
same_id_comm none none = refl
same_id_comm none (some t) = refl
same_id_comm (some s) none = refl
same_id_comm (some s) (some t) = str_eq_comm s t

==_comm : (a b : ℕ) → (a == b) ≡ (b == a)
==_comm a b = ground arith

pub collides_comm : (u v : User) → collides u v ≡ collides v u
collides_comm u v =
    rw
      (
        ==_comm u.id v.id,
        same_codes_comm u.email v.email,
        same_id_comm u.google_id v.google_id,
        same_id_comm u.apple_id v.apple_id,
      )
      refl

any_head : (q : User → Bool) (x : User) (us : List User) → any q (x ∷ us) ≡ false → q x ≡ false
any_head q x us h = ground arith

any_tail : (q : User → Bool) (x : User) (us : List User) → any q (x ∷ us) ≡ false → any q us ≡ false
any_tail q x us h = ground arith

module _ (p : User → Bool) (f : User → User) where
  any-update :
      (q : User → Bool) (us : List User) (u : User)
      → any q us ≡ false
      → find p us ≡ some u
      → q (f u) ≡ false
      → any q (update p f us) ≡ false
  any-update q [] u h k l = refl
  any-update q (x ∷ us) u h k l = ground (arith, any-update q us u)

  pub IsUnique-update :
      (us : List User) (u : User)
      → IsUnique us
      → find p us ≡ some u
      → any (collides (f u)) (remove p us) ≡ false
      → IsUnique (update p f us)
  IsUnique-update [] u h k l = tt
  IsUnique-update (x ∷ us) u h k l = elim (Bool-cases (p x)) [
    | inl here ↦
        let same : x ≡ u = some-injective _ _ (rw here at k) in
        rw here (subst (λ y. any (collides (f y)) us ≡ false) (sym same) (rw here at l), h.1)
    | inr later ↦
        let l' : any (collides (f u)) (x ∷ remove p us) ≡ false = rw later at l in
        let k' : find p us ≡ some u = rw later at k in
        rw later (
          any-update (collides x) us u h.0 k'
              (collides_comm x (f u) ∙ any_head (collides (f u)) x (remove p us) l'),
          IsUnique-update us u h.1 k' (any_tail (collides (f u)) x (remove p us) l'),
        )
  ]

module _ (p : User → Bool) where
  any-remove : (q : User → Bool) (us : List User) → any q us ≡ false → any q (remove p us) ≡ false
  any-remove q [] h = refl
  any-remove q (x ∷ us) h = ground (arith, any-remove q us)

  pub IsUnique-remove : (us : List User) → IsUnique us → IsUnique (remove p us)
  IsUnique-remove [] h = tt
  IsUnique-remove (x ∷ us) h = elim (Bool-cases (p x)) [
    | inl here ↦ rw here h.1
    | inr later ↦ rw later (any-remove (collides x) us h.0, IsUnique-remove us h.1)
  ]
