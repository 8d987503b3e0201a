-- ===== src/Common/Lists.antt =====
-- Tables as lists of rows: searching, changing the first row that fits, and sums over rows.
use Prim.Native.Nat.{ℕ, zero, suc, ◌+◌, ◌-◌, ◌<◌, min}
use mathlib.Core.Path.{◌≡◌, refl, sym, ap, ◌∙◌, subst}
use mathlib.Core.Logic.{inl, inr}
use native.Mathlib.Nat.{zero-add}
use mathlib.Core.Bool.{Bool, true, false, ◌||◌}
use mathlib.Core.List.{List, [], ◌∷◌, ◌++◌}
use mathlib.Core.Option.{Option, none, some, some-injective}
use native.Mathlib.Omega.{arith}
use ventura_api.Common.Tests.{◌==◌, if◌then◌else◌, Bool-cases}

module _ {ℓ} {A : Type ℓ} where
  abbrev pub length : List A → ℕ
  length [] = 0
  length (x ∷ xs) = suc (length xs)

  abbrev pub filter : (A → Bool) → List A → List A
  filter p [] = []
  filter p (x ∷ xs) = let rest = filter p xs in if p x then x ∷ rest else rest

  -- the first row that fits
  abbrev pub find : (A → Bool) → List A → Option A
  find p [] = none
  find p (x ∷ xs) = if p x then some x else find p xs

  -- changes the first row that fits
  abbrev pub update : (A → Bool) → (A → A) → List A → List A
  update p f [] = []
  update p f (x ∷ xs) = if p x then f x ∷ xs else x ∷ update p f xs

  -- drops the first row that fits
  abbrev pub remove : (A → Bool) → List A → List A
  remove p [] = []
  remove p (x ∷ xs) = if p x then xs else x ∷ remove p xs

  -- changes every row that fits
  abbrev pub update_all : (A → Bool) → (A → A) → List A → List A
  update_all p f [] = []
  update_all p f (x ∷ xs) = (if p x then f x else x) ∷ update_all p f xs

  abbrev pub count : (A → Bool) → List A → ℕ
  count p [] = 0
  count p (x ∷ xs) = (if p x then 1 else 0) + count p xs

  abbrev pub sum_by : (A → ℕ) → List A → ℕ
  sum_by f [] = 0
  sum_by f (x ∷ xs) = f x + sum_by f xs

  abbrev pub All {κ} : (A → Type κ) → List A → Type κ
  All P [] = Unit
  All P (x ∷ xs) = P x × All P xs

  pub sum_by-append : (f : A → ℕ) (xs ys : List A) → sum_by f (xs ++ ys) ≡ sum_by f xs + sum_by f ys
  sum_by-append f [] ys = omega arith
  sum_by-append f (x ∷ xs) ys = omega (arith, sum_by-append f xs ys)

  pub find-fits : (p : A → Bool) (xs : List A) (a : A) → find p xs ≡ some a → p a ≡ true
  find-fits p [] a e = cc
  find-fits p (x ∷ xs) a e = ground (arith, find-fits p xs a)

  -- What the first fitting row is after a change that keeps it fitting.
  pub find-update :
      (p : A → Bool) (f : A → A) (xs : List A) (a : A)
      → find p xs ≡ some a
      → p (f a) ≡ true
      → find p (update p f xs) ≡ some (f a)
  find-update p f [] a e k = cc
  find-update p f (x ∷ xs) a e k = ground (arith, find-update p f xs a)

  -- a change of the first row that fits, when that is also the first that fits another test
  pub find-update_other :
      (p q : A → Bool) (f : A → A) (xs : List A) (a : A)
      → find p xs ≡ some a
      → find q xs ≡ some a
      → q (f a) ≡ true
      → find q (update p f xs) ≡ some (f a)
  find-update_other p q f [] a h k l = cc
  find-update_other p q f (x ∷ xs) a h k l = elim (Bool-cases (p x)) [
    | inl here ↦
        let same : x ≡ a = some-injective _ _ (rw here at h) in
        let fits : q (f x) ≡ true = ap (λ y. q (f y)) same ∙ l in
        rw (here, fits) (ap some (ap f same))
    | inr later ↦ elim (Bool-cases (q x)) [
      | inl first ↦
          let same : x ≡ a = some-injective _ _ (rw first at k) in
          let own : p a ≡ true = find-fits p xs a (rw later at h) in cc
      | inr other ↦
          rw (later, other) (find-update_other p q f xs a (rw later at h) (rw other at k) l)
    ]
  ]

  -- two changes of the first row that fits, as one
  pub update-update :
      (p : A → Bool) (f g h : A → A) (xs : List A) (a : A)
      → find p xs ≡ some a
      → p (f a) ≡ true
      → g (f a) ≡ h a
      → update p g (update p f xs) ≡ update p h xs
  update-update p f g h [] a e k l = refl
  update-update p f g h (x ∷ xs) a e k l = elim (Bool-cases (p x)) [
    | inl here ↦
        let same : x ≡ a = some-injective _ _ (rw here at e) in
        let fits : p (f x) ≡ true = ap (λ y. p (f y)) same ∙ k in
        rw (here, fits) (ap (λ y. y ∷ xs) (ap (λ y. g (f y)) same ∙ l ∙ ap h (sym same)))
    | inr later ↦
        rw (later, later) (ap (λ ys. x ∷ ys) (update-update p f g h xs a (rw later at e) k l))
  ]

  -- The sum over the rows moves by what the changed row moves.
  pub sum_by-update :
      (g : A → ℕ) (p : A → Bool) (f : A → A) (xs : List A) (a : A)
      → find p xs ≡ some a
      → sum_by g (update p f xs) + g a ≡ sum_by g xs + g (f a)
  sum_by-update g p f [] a e = cc
  sum_by-update g p f (x ∷ xs) a e = ground (arith, sum_by-update g p f xs a)

module _ {ℓ κ} {A : Type ℓ} (P : A → Type κ) where
  pub All-find : (p : A → Bool) (xs : List A) (a : A) → All P xs → find p xs ≡ some a → P a
  All-find p [] a h e = cc
  All-find p (x ∷ xs) a h e = elim (Bool-cases (p x)) [
    | inl here ↦ subst P (some-injective _ _ (rw here at e)) h.0
    | inr later ↦ All-find p xs a h.1 (rw later at e)
  ]

  pub All-update :
      (p : A → Bool) (f : A → A) (xs : List A) (a : A)
      → All P xs
      → find p xs ≡ some a
      → P (f a)
      → All P (update p f xs)
  All-update p f [] a h e k = h
  All-update p f (x ∷ xs) a h e k = elim (Bool-cases (p x)) [
    | inl here ↦ rw here (subst (λ y. P (f y)) (sym (some-injective _ _ (rw here at e))) k, h.1)
    | inr later ↦ rw later (h.0, All-update p f xs a h.1 (rw later at e) k)
  ]

  pub All-update_all :
      (p : A → Bool) (f : A → A) (xs : List A)
      → All P xs
      → ((a : A) → p a ≡ true → P a → P (f a))
      → All P (update_all p f xs)
  All-update_all p f [] h k = tt
  All-update_all p f (x ∷ xs) h k = elim (Bool-cases (p x)) [
    | inl here ↦ rw here (k x here h.0, All-update_all p f xs h.1 k)
    | inr other ↦ rw other (h.0, All-update_all p f xs h.1 k)
  ]

abbrev pub mem : ℕ → List ℕ → Bool
mem a [] = false
mem a (x ∷ xs) = x == a || mem a xs

module _ {ℓ} {A : Type ℓ} where
  abbrev pub get_elem? : List A → ℕ → Option A
  get_elem? [] i = none
  get_elem? (x ∷ xs) zero = some x
  get_elem? (x ∷ xs) (suc i) = get_elem? xs i

  abbrev pub take : ℕ → List A → List A
  take zero xs = []
  take (suc n) [] = []
  take (suc n) (x ∷ xs) = x ∷ take n xs

  abbrev pub drop : ℕ → List A → List A
  drop zero xs = xs
  drop (suc n) [] = []
  drop (suc n) (x ∷ xs) = drop n xs

  pub get_elem?-take :
      (n : ℕ) (xs : List A) (i : ℕ) → i < n → get_elem? (take n xs) i ≡ get_elem? xs i
  get_elem?-take zero xs i h = elim h [ ]
  get_elem?-take (suc n) [] i h = refl
  get_elem?-take (suc n) (x ∷ xs) zero h = refl
  get_elem?-take (suc n) (x ∷ xs) (suc i) h = get_elem?-take n xs i (omega arith)

  pub get_elem?-drop :
      (n : ℕ) (xs : List A) (i : ℕ) → get_elem? (drop n xs) i ≡ get_elem? xs (n + i)
  get_elem?-drop zero xs i = rw zero-add
  get_elem?-drop (suc n) [] i = refl
  get_elem?-drop (suc n) (x ∷ xs) i =
      let e : suc n + i ≡ suc (n + i) = omega arith in rw e (get_elem?-drop n xs i)

  pub length-take-drop :
      (n k : ℕ) (xs : List A) → length (take n (drop k xs)) ≡ min n (length xs - k)
  length-take-drop zero k xs = omega arith
  length-take-drop (suc n) zero [] = omega arith
  length-take-drop (suc n) zero (x ∷ xs) = omega (arith, length-take-drop n zero xs)
  length-take-drop (suc n) (suc k) [] = omega arith
  length-take-drop (suc n) (suc k) (x ∷ xs) = omega (arith, length-take-drop (suc n) k xs)

module _ {ℓ κ} {A : Type ℓ} (P : A → Type κ) where
  pub All-take : (n : ℕ) (xs : List A) → All P xs → All P (take n xs)
  All-take zero xs h = tt
  All-take (suc n) [] h = tt
  All-take (suc n) (x ∷ xs) h = (h.0, All-take n xs h.1)

  pub All-drop : (n : ℕ) (xs : List A) → All P xs → All P (drop n xs)
  All-drop zero xs h = h
  All-drop (suc n) [] h = tt
  All-drop (suc n) (x ∷ xs) h = All-drop n xs h.1

  pub All-remove : (p : A → Bool) (xs : List A) → All P xs → All P (remove p xs)
  All-remove p [] h = tt
  All-remove p (x ∷ xs) h = elim (Bool-cases (p x)) [
    | inl here ↦ rw here h.1
    | inr later ↦ rw later (h.0, All-remove p xs h.1)
  ]

  -- of the rows that pass a test that entails P
  pub All-filter : (p : A → Bool) (xs : List A) → ((a : A) → p a ≡ true → P a) → All P (filter p xs)
  All-filter p [] h = tt
  All-filter p (x ∷ xs) h = elim (Bool-cases (p x)) [
    | inl here ↦ rw here (h x here, All-filter p xs h)
    | inr other ↦ rw other (All-filter p xs h)
  ]
