-- ===== src/Customer/Moved.antt =====
-- The addresses of the customers of a business, under `update` of
-- src/customer/application/customer.service.ts.
use ventura_api.Common.{
  or_false_left, or_false_right, ℕ, ◌≡◌, ◌⊎◌, refl, sym, ap, ◌∙◌, Bool, true, false, not, ◌&&◌,
  Option, none, some, String, List, [], ◌∷◌, Uuid, map, find, find-fits, update, ◌==◌, ==_iff,
  arith, or_default, Bool-cases, Option-cases, inl, inr, str_eq, eq_iff,
}
use mathlib.Core.Path.{subst}
use mathlib.Core.Bool.{and-eq-true_iff, false≢true}
use mathlib.Core.List.{cons-ne-nil}
use mathlib.Core.Option.{some-injective}
use ventura_api.Common.Text.{is_text, codes, lower}
use ventura_api.Common.Tidy.{same_codes_comm}
use ventura_api.Common.Action.{or_raise, map_state}
use ventura_api.Db.{Db}
use ventura_api.Customer.Entity.{Customer}
use ventura_api.Customer.Repository
use ventura_api.Customer.Repository.{UpdateCustomer, at, apply_patch}
use ventura_api.Customer.Service.{is_taken, is_taken_by_other, get_by_id}
use ventura_api.Customer.Service as Service
use ventura_api.Customer.Distinct.{same_email, clashes, IsDistinct, is_taken-clashes}

some_codes : (a : String) → not (str_eq a "") ≡ true → (c : ℕ) × (cs : List ℕ) × (codes a ≡ c ∷ cs)
some_codes String.[] h = cc
some_codes (String.◌∷◌ c s) h = (_, _, refl)

-- the address `e` of a customer of business `b` is also that of `d`
abbrev twin : Uuid → Option String → Customer → Bool
twin b e d = d.business_id == b && same_email e d.email

module _ (p : Customer → Bool) (f : Customer → Customer) where
  clashes-find :
      (b : Uuid) (e : Option String) (cs : List Customer) (a : Customer)
      → clashes b e cs ≡ false
      → find p cs ≡ some a
      → twin b e a ≡ false
  clashes-find b e [] a h k = cc
  clashes-find b e (x ∷ cs) a h k = ground (arith, clashes-find b e cs a)

  clashes-update :
      (b : Uuid) (e : Option String) (cs : List Customer) (a : Customer)
      → clashes b e cs ≡ false
      → find p cs ≡ some a
      → twin b e (f a) ≡ false
      → clashes b e (update p f cs) ≡ false
  clashes-update b e [] a h k l = refl
  clashes-update b e (x ∷ cs) a h k l = ground (arith, clashes-update b e cs a)

cons_nonempty : (s : String) (c : ℕ) (cs : List ℕ) → codes s ≡ c ∷ cs → not (str_eq s "") ≡ true
cons_nonempty s c cs e = elim (Bool-cases (str_eq s "")) [
  | inl empty ↦ absurd (cons-ne-nil c cs (sym e ∙ ap codes ((eq_iff s "").0 empty)))
  | inr full ↦ rw full refl
]

same_email_nonempty :
    (a b : String) → same_email (some a) (some b) ≡ true → same_email (some b) (some a) ≡ true
same_email_nonempty a String.[] h =
    let (there, same) = (and-eq-true_iff (not (str_eq a "")) _).0 h in
    let (c, cs, e) = some_codes a there in absurd (false≢true (rw e at same))
same_email_nonempty a (String.◌∷◌ c s) h =
    (and-eq-true_iff (not (str_eq (String.◌∷◌ c s) "")) _).1 (
      cons_nonempty (String.◌∷◌ c s) _ _ refl,
      same_codes_comm (map lower (codes (String.◌∷◌ c s))) (map lower (codes a))
          ∙ ((and-eq-true_iff (not (str_eq a "")) _).0 h).1,
    )

same_email_comm : (d e : Option String) → same_email d e ≡ false → same_email e d ≡ false
same_email_comm none none h = refl
same_email_comm none (some b) h = refl
same_email_comm (some a) none h = refl
same_email_comm (some a) (some b) h = elim (Bool-cases (same_email (some b) (some a))) [
  | inl same ↦ absurd (false≢true (sym h ∙ same_email_nonempty b a same))
  | inr other ↦ other
]

twin_comm :
    (c d : Customer) → twin c.business_id c.email d ≡ false → twin d.business_id d.email c ≡ false
twin_comm c d h = elim (Bool-cases (c.business_id == d.business_id)) [
  | inr other ↦ rw other refl
  | inl same ↦
      let here : (d.business_id == c.business_id) ≡ true =
        (==_iff _ _).1 (sym ((==_iff c.business_id d.business_id).0 same)) in
      rw same (same_email_comm c.email d.email (rw here at h))
]

module _ (p : Customer → Bool) (f : Customer → Customer) where
  -- one customer's address changes, to one that nobody has or not at all
  IsDistinct-update :
      (cs : List Customer) (a : Customer)
      → IsDistinct cs
      → find p cs ≡ some a
      → (f a).business_id ≡ a.business_id
      → ((f a).email ≡ a.email) ⊎ (clashes (f a).business_id (f a).email cs ≡ false)
      → IsDistinct (update p f cs)
  IsDistinct-update [] a h k b e = tt
  IsDistinct-update (x ∷ cs) a h k b e = elim (Bool-cases (p x)) [
    | inl here ↦
        let same : x ≡ a = some-injective _ _ (rw here at k) in
        rw here (
          subst (λ y. clashes (f y).business_id (f y).email cs ≡ false) (sym same)
              (elim e [
                | inl kept ↦
                    rw (b, kept) (subst (λ y. clashes y.business_id y.email cs ≡ false) same h.0)
                | inr free ↦ or_false_right _ _ free
              ]),
          h.1,
        )
    | inr later ↦
        let k' : find p cs ≡ some a = rw later at k in
        rw later (
          clashes-update p f x.business_id x.email cs a h.0 k' (elim e [
            | inl kept ↦ rw (b, kept) (clashes-find p f x.business_id x.email cs a h.0 k')
            | inr free ↦ twin_comm (f a) x (or_false_left _ _ free)
          ]),
          IsDistinct-update cs a h.1 k' b
              (elim e [ inl kept ↦ inl kept | inr free ↦ inr (or_false_right _ _ free) ]),
        )
  ]

is_text_eq : (o : Option String) (s : String) → is_text o s ≡ true → o ≡ some s
is_text_eq none s h = cc
is_text_eq (some t) s h = ap some ((eq_iff t s).0 h)

module _ {F : Type 0} where
  -- the address stays, or it is one that nobody has
  free_or_kept :
      (b : Uuid) (dto : UpdateCustomer) (c : Customer) (db : Db F)
      → is_taken_by_other b c dto db ≡ false
      → ((apply_patch dto c).email ≡ c.email)
        ⊎ (clashes b (apply_patch dto c).email db.customers ≡ false)
  free_or_kept b dto c db h = go dto.email h
    where
      go :
          (e : Option (Option String))
          → (not (is_text c.email (or_default (or_default e none) ""))
              && is_taken b (or_default e none) db)
            ≡ false
          → (or_default e c.email ≡ c.email)
            ⊎ (clashes b (or_default e c.email) db.customers ≡ false)
      go none k = inl refl
      go (some none) k = inr (sym (is_taken-clashes b none db) ∙ refl)
      go (some (some s)) k = elim (Bool-cases (is_text c.email s)) [
        | inl same ↦ inl (sym (is_text_eq c.email s same))
        | inr other ↦ inr (sym (is_taken-clashes b (some s) db) ∙ rw other at k)
      ]

  write :
      (b id : Uuid) (dto : UpdateCustomer) (c : Customer) (db : Db F)
      → IsDistinct db.customers
      → Repository.find_by_id b id db ≡ some c
      → is_taken_by_other b c dto db ≡ false
      → IsDistinct (Repository.update_row b id dto db).1.customers
  unfolding Repository.update_row
  write b id dto c db h found free =
      let here : c.business_id ≡ b =
        (==_iff _ _).0 ((and-eq-true_iff _ _).0 (find-fits (at b id) db.customers c found)).1 in
      rw (found, Repository.update_row)
        (IsDistinct-update (at b id) (apply_patch dto) db.customers c h found refl (
          subst
            (λ x.
              ((apply_patch dto c).email ≡ c.email)
              ⊎ (clashes x (apply_patch dto c).email db.customers ≡ false))
            (sym here) (free_or_kept b dto c db free)))

  -- If the addresses of the customers of every business differ up to case (empty ones aside), they
  -- still do after `update` of a customer, successful or not.
  pub update-IsDistinct :
      (b id : Uuid) (dto : UpdateCustomer) (db : Db F)
      → IsDistinct db.customers
      → IsDistinct (Service.update b id dto db).1.customers
  unfolding Service.update get_by_id
  update-IsDistinct b id dto db h = elim (Option-cases (Repository.find_by_id b id db)) [
    | inl missing ↦ rw (missing, Service.update, get_by_id, or_raise) h
    | inr (c, found) ↦
        rw (found, Service.update, get_by_id, or_raise)
          (elim (Bool-cases (is_taken_by_other b c dto db)) [
            | inl taken ↦ rw taken h
            | inr free ↦ rw free (
                rw (map_state (Repository.update_row b id dto) (λ u. or_default u c) db)
                  (write b id dto c db h found free))
          ])
  ]
