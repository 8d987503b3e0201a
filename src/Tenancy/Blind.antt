-- ===== src/Tenancy/Blind.antt =====
-- Calls that read the rows of one business alone and change nothing.
use ventura_api.Common.{
  Bool, false, ◌≡◌, refl, sym, ap, ◌∙◌, List, [], ◌∷◌, Option, none, some, Uuid, ◌&&◌, filter, find,
  if◌then◌else◌, Bool-cases, inl, inr,
}
use ventura_api.Common.Action.{Error, Result, ok, err, and_then, ◌>>=◌, pure, raise, gets, or_raise}
use ventura_api.Db.{Db, Service}
use ventura_api.Tenancy.{Same}

-- what a query finds of the rows that have passed a test of it before
module _ {A : Type 0} (p q : A → Bool) where
  filter-filter :
      ((a : A) → p a ≡ false → q a ≡ false)
      → (rows : List A) → filter q rows ≡ filter q (filter p rows)
  filter-filter entails [] = refl
  filter-filter entails (a ∷ rows) = elim (Bool-cases (p a)) [
    | inl fits ↦ rw fits (ap (λ rest. if q a then a ∷ rest else rest) (filter-filter entails rows))
    | inr fails ↦ rw (fails, entails a fails) (filter-filter entails rows)
  ]

  find-filter : (rows : List A) → find (λ a. q a && p a) rows ≡ find q (filter p rows)
  find-filter [] = refl
  find-filter (a ∷ rows) = elim (Bool-cases (p a)) [
    | inl fits ↦ elim (Bool-cases (q a)) [
      | inl here ↦ rw (fits, here) refl
      | inr later ↦ rw (fits, later, find-filter rows) refl
    ]
    | inr fails ↦ elim (Bool-cases (q a)) [
      | inl here ↦ rw (fails, here, find-filter rows) refl
      | inr later ↦ rw (fails, later, find-filter rows) refl
    ]
  ]

  -- a query that asks for the test
  pub same_filter :
      ((a : A) → p a ≡ false → q a ≡ false)
      → (rows rows' : List A) → filter p rows' ≡ filter p rows
      → filter q rows ≡ filter q rows'
  same_filter entails rows rows' e =
      filter-filter entails rows ∙ ap (filter q) (sym e) ∙ sym (filter-filter entails rows')

  pub same_find :
      (rows rows' : List A)
      → filter p rows' ≡ filter p rows
      → find (λ a. q a && p a) rows ≡ find (λ a. q a && p a) rows'
  same_find rows rows' e = find-filter rows ∙ ap (find q) (sym e) ∙ sym (find-filter rows')

module _ {F : Type 0} where
  -- the result is the same wherever the rows of the business are, and nothing is written
  pub record Blind {A : Type 0} (b : Uuid) (m : Service F A) : Type 0 where
    pub result : (db db' : Db F) → Same b db db' → (m db).0 ≡ (m db').0
    pub state : (db : Db F) → (m db).1 ≡ db

  module _ {A : Type 0} (b : Uuid) where
    pub Blind-pure : (a : A) → Blind b (pure a)
    Blind-pure a = record { result = λ db db' h. refl; state = λ db. refl }

    pub Blind-raise : (e : Error) → Blind b (raise {A = A} e)
    Blind-raise e = record { result = λ db db' h. refl; state = λ db. refl }

    pub Blind-or_raise : (o : Option A) (e : Error) → Blind b (or_raise o e)
    Blind-or_raise none e = record { result = λ db db' h. refl; state = λ db. refl }
    Blind-or_raise (some a) e = record { result = λ db db' h. refl; state = λ db. refl }

    pub Blind-gets :
        (g : Db F → A) → ((db db' : Db F) → Same b db db' → g db ≡ g db') → Blind b (gets g)
    Blind-gets g h = record { result = λ db db' k. ap ok (h db db' k); state = λ db. refl }

  module _ {A B : Type 0} (b : Uuid) where
    pub Blind->>= :
        (m : Service F A) (f : A → Service F B)
        → Blind b m
        → ((a : A) → Blind b (f a))
        → Blind b (m >>= f)
    Blind->>= m f h k = record {
      result = λ db db' same.
          ap (λ s. (and_then ((m db).0, s) f).0) (h.state db)
          ∙ ap (λ r. (and_then (r, db) f).0) (h.result db db' same)
          ∙ then_result (m db').0 db db' same
          ∙ ap (λ s. (and_then ((m db').0, s) f).0) (sym (h.state db'));
      state = λ db. then_state (m db) ∙ h.state db;
    }
      where
        then_result :
            (r : Result A) (db db' : Db F)
            → Same b db db'
            → (and_then (r, db) f).0 ≡ (and_then (r, db') f).0
        then_result (ok a) db db' same = (k a).result db db' same
        then_result (err e) db db' same = refl

        then_state : (x : Result A × Db F) → (and_then x f).1 ≡ x.1
        then_state (ok a, db) = (k a).state db
        then_state (err e, db) = refl
