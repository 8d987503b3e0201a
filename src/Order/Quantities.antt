-- ===== src/Order/Quantities.antt =====
-- The `Map<string, …>` and `Set<string>` of `updateItems`, as lists in insertion order.
use ventura_api.Common.{
  ℕ, ◌+◌, Option, none, some, List, [], ◌∷◌, ◌++◌, Uuid, filter, mem, not, ◌==◌, if◌then◌else◌,
  or_default,
}

abbrev pub Map {ℓ} : Type ℓ → Type ℓ
Map V = List (Uuid × V)

module _ {ℓ} {V : Type ℓ} where
  abbrev pub get : Uuid → Map V → Option V
  get k [] = none
  get k ((j, v) ∷ m) = if j == k then some v else get k m

  -- `m.set(k, v)`
  abbrev pub set : Uuid → V → Map V → Map V
  set k v [] = (k, v) ∷ []
  set k v ((j, w) ∷ m) = if j == k then (j, v) ∷ m else (j, w) ∷ set k v m

  abbrev pub keys : Map V → List Uuid
  keys [] = []
  keys ((j, v) ∷ m) = j ∷ keys m

-- `m.get(k) ?? 0`
abbrev pub quantity_of : Uuid → Map ℕ → ℕ
quantity_of k m = or_default (get k m) 0

-- `m.set(k, (m.get(k) ?? 0) + n)`
abbrev pub add_quantity : Uuid → ℕ → Map ℕ → Map ℕ
add_quantity k n m = set k (quantity_of k m + n) m

-- `new Set([...a, ...b])`, of lists without repeats
abbrev pub union : List Uuid → List Uuid → List Uuid
union a b = a ++ filter (λ k. not (mem k a)) b
