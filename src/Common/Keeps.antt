-- ===== src/Common/Keeps.antt =====
-- Invariants of a state under the calls of Action, with a rule for each way to build a call.
use ventura_api.Common.Tests.{if◌then◌else◌, Option-cases, is_some}
use mathlib.Core.Path.{◌≡◌, refl}
use mathlib.Core.Logic.{inl, inr}
use mathlib.Core.Bool.{Bool, true, false}
use mathlib.Core.Option.{Option, none, some}
use ventura_api.Common.Action.{
  Error, Result, ok, err, Action, and_then, ◌>>=◌, pure, raise, gets, or_raise, raise_if, if_found,
  catch,
}

-- the invariant holds after the call, successful or not, if it held before
pub record Keeps {S A : Type 0} (I : S → Type 0) (m : Action S A) : Type 0 where
  pub at : (s : S) → I s → I (m s).1

module _ {S : Type 0} {I : S → Type 0} where
  module _ {A : Type 0} where
    pub Keeps-pure : (a : A) → Keeps I (pure a)
    Keeps-pure a = record { at = λ s h. h }

    pub Keeps-raise : (e : Error) → Keeps I (raise {A = A} e)
    Keeps-raise e = record { at = λ s h. h }

    pub Keeps-gets : (f : S → A) → Keeps I (gets f)
    Keeps-gets f = record { at = λ s h. h }

    pub Keeps-or_raise : (o : Option A) (e : Error) → Keeps I (or_raise o e)
    Keeps-or_raise none e = record { at = λ s h. h }
    Keeps-or_raise (some a) e = record { at = λ s h. h }

    pub Keeps-if :
        (b : Bool) (m n : Action S A) → Keeps I m → Keeps I n → Keeps I (if b then m else n)
    Keeps-if true m n h k = h
    Keeps-if false m n h k = k

  pub Keeps-raise_if : (c : Bool) (e : Error) → Keeps I (raise_if c e)
  Keeps-raise_if c e = record { at = λ s h. h }

  pub Keeps-catch :
      {A : Type 0} (m : Action S A) (h : Error → Action S A)
      → Keeps I m
      → ((e : Error) → Keeps I (h e))
      → Keeps I (catch m h)
  Keeps-catch {A} m h k l = record { at = λ s i. go (m s) (k.at s i) }
    where
      go : (x : Result A × S) → I x.1 → I (catch (λ _. x) h x.1).1
      go (ok a, s) i = i
      go (err e, s) i = (l e).at s i

  module _ {A B : Type 0} where
    pub Keeps->>= :
        (m : Action S A) (f : A → Action S B)
        → Keeps I m
        → ((a : A) → Keeps I (f a))
        → Keeps I (m >>= f)
    Keeps->>= m f h k = record { at = λ s i. go (m s) (h.at s i) }
      where
        go : (x : Result A × S) → I x.1 → I (and_then x f).1
        go (ok a, s') j = (k a).at s' j
        go (err e, s') j = j

    pub Keeps-if_found :
        (o : Option A) (f : A → Action S B) (m : Action S B)
        → ((a : A) → Keeps I (f a))
        → Keeps I m
        → Keeps I (if_found o f m)
    Keeps-if_found none f m h k = k
    Keeps-if_found (some a) f m h k = h a

    -- a row that is looked up, and then used
    pub Keeps-found :
        (g : S → Option A) (e : Error) (f : A → Action S B)
        → ((s : S) (a : A) → I s → g s ≡ some a → I (f a s).1)
        → Keeps I (gets g >>= λ o. or_raise o e >>= f)
    Keeps-found g e f h = record {
      at = λ s i. elim (Option-cases (g s)) [
        | inl missing ↦ rw (missing, or_raise) i
        | inr (a, found) ↦ rw (found, or_raise) (h s a i found)
      ];
    }

pub ruleset keeps_rules = (
  Keeps-pure, Keeps-raise, Keeps-gets, Keeps-or_raise, Keeps-if, Keeps-raise_if, Keeps->>=,
  Keeps-if_found, Keeps-catch,
)

-- The property holds after the call, if the call succeeds.
abbrev pub Done : {S A : Type 0} → (S → Type 0) → Result A × S → Type 0
Done P (ok a, s) = P s
Done P (err e, s) = Unit

pub record Ends {S A : Type 0} (P : S → Type 0) (m : Action S A) : Type 0 where
  pub at : (s : S) → Done P (m s)

module _ {S A B : Type 0} {P : S → Type 0} where
  pub Ends->>= : (m : Action S A) (f : A → Action S B) → ((a : A) → Ends P (f a)) → Ends P (m >>= f)
  Ends->>= m f h = record { at = λ s. go (m s) }
    where
      go : (x : Result A × S) → Done P (and_then x f)
      go (ok a, s) = (h a).at s
      go (err e, s) = tt

  -- what the first call brings about and the rest keeps
  pub Ends-Keeps :
      (m : Action S A) (f : A → Action S B)
      → ((s : S) → P (m s).1)
      → ((a : A) → Keeps P (f a))
      → Ends P (m >>= f)
  Ends-Keeps m f h k = record { at = λ s. go (m s) (h s) }
    where
      done : (x : Result B × S) → P x.1 → Done P x
      done (ok b, s) i = i
      done (err e, s) i = tt

      go : (x : Result A × S) → P x.1 → Done P (and_then x f)
      go (ok a, s) i = done (f a s) ((k a).at s i)
      go (err e, s) i = tt

abbrev pub is_ok : {A : Type 0} → Result A → Bool
is_ok (ok a) = true
is_ok (err e) = false

-- from a state of the invariant the call succeeds
pub record Lives {S A : Type 0} (I : S → Type 0) (m : Action S A) : Type 0 where
  pub at : (s : S) → I s → is_ok (m s).0 ≡ true

module _ {S A : Type 0} {I : S → Type 0} where
  pub Lives-pure : (a : A) → Lives I (pure a)
  Lives-pure a = record { at = λ s h. refl }

  pub Lives-if :
      (b : Bool) (m n : Action S A) → Lives I m → Lives I n → Lives I (if b then m else n)
  Lives-if true m n h k = h
  Lives-if false m n h k = k

  pub Lives-or_raise : (o : Option A) (e : Error) → is_some o ≡ true → Lives I (or_raise o e)
  Lives-or_raise none e h = record { at = λ s i. h }
  Lives-or_raise (some a) e h = record { at = λ s i. refl }

module _ {S A B : Type 0} {I : S → Type 0} where
  pub Lives->>= :
      (m : Action S A) (f : A → Action S B)
      → Lives I m
      → Keeps I m
      → ((a : A) → Lives I (f a))
      → Lives I (m >>= f)
  Lives->>= m f h k l = record { at = λ s i. go (m s) (h.at s i) (k.at s i) }
    where
      go : (x : Result A × S) → is_ok x.0 ≡ true → I x.1 → is_ok (and_then x f).0 ≡ true
      go (ok a, s) e i = (l a).at s i
      go (err e', s) e i = e

pub ruleset lives_rules = (Lives-pure, Lives-if, Lives-or_raise, Lives->>=)
