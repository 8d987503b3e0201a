-- ===== src/Common/Tidy.antt =====
-- `trim` and `toLowerCase` on code points.
use Prim.Native.Nat.{ℕ}
use mathlib.Core.Path.{◌≡◌, refl}
use mathlib.Core.Logic.{inl, inr}
use mathlib.Core.Bool.{true, false}
use mathlib.Core.List.{List, [], ◌∷◌, map}
use native.Mathlib.Omega.{arith}
use ventura_api.Common.Tests.{Bool-cases}
use ventura_api.Common.Text.{lower, is_space, keep_before, trim_start, trim_end, tidy, same_codes}

lower-lower : (c : ℕ) → lower (lower c) ≡ lower c
lower-lower c = ground arith

is_space-lower : (c : ℕ) → is_space (lower c) ≡ is_space c
is_space-lower c = ground arith

map-lower-lower : (cs : List ℕ) → map lower (map lower cs) ≡ map lower cs
map-lower-lower [] = refl
map-lower-lower (c ∷ cs) = rw (lower-lower c, map-lower-lower cs) refl

trim_start-lower : (cs : List ℕ) → trim_start (map lower cs) ≡ map lower (trim_start cs)
unfolding trim_start
trim_start-lower [] = refl
trim_start-lower (c ∷ cs) = rw (is_space-lower c) (elim (Bool-cases (is_space c)) [
  | inl space ↦ rw space (trim_start-lower cs)
  | inr other ↦ rw other refl
])

trim_end-lower : (cs : List ℕ) → trim_end (map lower cs) ≡ map lower (trim_end cs)
unfolding trim_end
trim_end-lower [] = refl
trim_end-lower (c ∷ cs) = rw (trim_end-lower cs) (go (trim_end cs))
  where
    go : (r : List ℕ) → keep_before (lower c) (map lower r) ≡ map lower (keep_before c r)
    go [] =
        rw (is_space-lower c)
          (elim (Bool-cases (is_space c)) [ inl space ↦ rw space refl | inr other ↦ rw other refl ])
    go (d ∷ ds) = refl

trim_end-trim_end : (cs : List ℕ) → trim_end (trim_end cs) ≡ trim_end cs
unfolding trim_end
trim_end-trim_end [] = refl
trim_end-trim_end (c ∷ cs) = go (trim_end cs) (trim_end-trim_end cs)
  where
    go : (r : List ℕ) → trim_end r ≡ r → trim_end (keep_before c r) ≡ keep_before c r
    go [] h = elim (Bool-cases (is_space c)) [
      | inl space ↦ rw space refl
      | inr other ↦ rw (other, trim_end, other) refl
    ]
    go (d ∷ ds) h = rw (trim_end, h) refl

trim_start-trim_end :
    (cs : List ℕ) → trim_start (trim_end (trim_start cs)) ≡ trim_end (trim_start cs)
unfolding trim_start trim_end
trim_start-trim_end [] = refl
trim_start-trim_end (c ∷ cs) = elim (Bool-cases (is_space c)) [
  | inl space ↦ rw space (trim_start-trim_end cs)
  | inr other ↦ rw (other, trim_end) (go (trim_end cs) other)
]
  where
    go : (r : List ℕ) → is_space c ≡ false → trim_start (keep_before c r) ≡ keep_before c r
    go [] h = rw (h, trim_start, h) refl
    go (d ∷ ds) h = rw (trim_start, h) refl

pub tidy-tidy : (cs : List ℕ) → tidy (tidy cs) ≡ tidy cs
unfolding tidy
tidy-tidy cs =
    let y = trim_end (trim_start cs) in
    rw
      (
        trim_start-lower y,
        trim_start-trim_end cs,
        trim_end-lower y,
        trim_end-trim_end (trim_start cs),
        map-lower-lower y,
      )
      refl

pub same_codes_eq : (a b : List ℕ) → same_codes a b ≡ true → a ≡ b
same_codes_eq [] [] h = refl
same_codes_eq [] (d ∷ b) h = cc
same_codes_eq (c ∷ a) [] h = cc
same_codes_eq (c ∷ a) (d ∷ b) h = ground (arith, same_codes_eq a b)

pub same_codes_refl : (a : List ℕ) → same_codes a a ≡ true
same_codes_refl [] = refl
same_codes_refl (c ∷ a) = ground (arith, same_codes_refl a)

pub same_codes_comm : (a b : List ℕ) → same_codes a b ≡ same_codes b a
same_codes_comm [] [] = refl
same_codes_comm [] (d ∷ b) = refl
same_codes_comm (c ∷ a) [] = refl
same_codes_comm (c ∷ a) (d ∷ b) = ground (arith, same_codes_comm a b)
