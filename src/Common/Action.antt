-- ===== src/Common/Action.antt =====
-- A service call: state and exceptions. What was written before a throw stays written.
use mathlib.Core.Path.{subst}
use ventura_api.Common.{◌≡◌, refl, sym, Bool, Option, none, some, String, if◌then◌else◌}

-- Nest's HTTP exceptions, with their messages; `internal` is any other error, answered by 500.
pub data Error : Type 0 where
  not_found bad_request conflict forbidden unauthorized internal : String → Error

-- `error.message`
abbrev pub message : Error → String
message (not_found s) = s
message (bad_request s) = s
message (conflict s) = s
message (forbidden s) = s
message (unauthorized s) = s
message (internal s) = s

pub data Result (A : Type 0) : Type 0 where
  ok : A → Result A
  err : Error → Result A

abbrev pub Action : Type 0 → Type 0 → Type 0
Action S A = S → Result A × S

module _ {S A : Type 0} where
  abbrev pub pure : A → Action S A
  pure a s = (ok a, s)

  abbrev pub raise : Error → Action S A
  raise e s = (err e, s)

  abbrev pub gets : (S → A) → Action S A
  gets f s = (ok (f s), s)

  -- `if (!o) throw e`
  abbrev pub or_raise : Option A → Error → Action S A
  or_raise none e = raise e
  or_raise (some a) _ = pure a

  -- `try { m } catch (e) { h(e) }`
  abbrev pub catch : Action S A → (Error → Action S A) → Action S A
  catch m h s = let (r, s') = m s in elim r [ ok a ↦ (ok a, s') | err e ↦ h e s' ]

-- what comes after a call that ended with `x`
abbrev pub and_then : {S A B : Type 0} → Result A × S → (A → Action S B) → Result B × S
and_then x f = elim x.0 [ ok a ↦ f a x.1 | err e ↦ raise e x.1 ]

infixl 5 ◌>>=◌ ◌>>◌
abbrev pub ◌>>=◌ : {S A B : Type 0} → Action S A → (A → Action S B) → Action S B
◌>>=◌ m f s = and_then (m s) f

abbrev pub ◌>>◌ : {S A B : Type 0} → Action S A → Action S B → Action S B
m >> k = m >>= λ _. k

-- `if (o) return f(o)`, then `m`
abbrev pub if_found : {S A B : Type 0} → Option A → (A → Action S B) → Action S B → Action S B
if_found none f m = m
if_found (some a) f m = f a

abbrev pub raise_if : {S : Type 0} → Bool → Error → Action S (Unit {0})
raise_if c e s = (if c then err e else ok tt, s)

abbrev pub modify : {S : Type 0} → (S → S) → Action S (Unit {0})
modify f s = (ok tt, f s)

module _ {S A B : Type 0} where
  -- a call after one that succeeded
  pub >>=-ok :
      (m : Action S A) (f : A → Action S B) (s : S) (a : A)
      → (m s).0 ≡ ok a
      → (m >>= f) s ≡ f a (m s).1
  >>=-ok m f s a h = rw (h, ◌>>=◌)

-- an action that only reads
abbrev pub ReadOnly : {S A : Type 0} → Action S A → Type 0
ReadOnly {S} m = (s : S) → (m s).1 ≡ s

module _ {S A B : Type 0} where
  -- What holds after a reading action and its continuation: of a failure in place, or of the
  -- continuation from the same state.
  pub ReadOnly-elim {ℓ} :
      (P : Result B × S → Type ℓ) (m : Action S A) (f : A → Action S B) (s : S)
      → ReadOnly m
      → ((e : Error) → P (err e, s))
      → ((a : A) → P (f a s))
      → P ((m >>= f) s)
  ReadOnly-elim P m f s h fails goes = cases (m s) (h s)
    where
      cases : (x : Result A × S) → x.1 ≡ s → P (and_then x f)
      cases (ok a, s') e = subst (λ t. P (f a t)) (sym e) (goes a)
      cases (err x, s') e = subst (λ t. P (err x, t)) (sym e) (fails x)

  pub >>=-ReadOnly :
      (m : Action S A) (f : A → Action S B)
      → ReadOnly m
      → ((a : A) → ReadOnly (f a))
      → ReadOnly (m >>= f)
  >>=-ReadOnly m f h k s = ReadOnly-elim (λ x. x.1 ≡ s) m f s h (λ e. refl) (λ a. k a s)

  -- a result that is only mapped leaves the state to the call before
  pub map_state : (m : Action S A) (f : A → B) (s : S) → ((m >>= λ a. pure (f a)) s).1 ≡ (m s).1
  map_state m f s = cases (m s)
    where
      cases : (x : Result A × S) → (and_then x (λ a. pure (f a))).1 ≡ x.1
      cases (ok a, s') = refl
      cases (err e, s') = refl
