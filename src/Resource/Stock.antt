-- ===== src/Resource/Stock.antt =====
-- The stock of one product and its ledger: the measures that the theorems on stock are stated in.
use ventura_api.Common.{
  ◌⊎◌, ℕ, ◌≡◌, refl, sym, ap, ◌∙◌, true, false, ◌&&◌, Option, none, some, List, [], ◌∷◌, Uuid, find,
  update, find-update, find-fits, ◌==◌, if◌then◌else◌, arith, Bool-cases, inl, inr,
}
use mathlib.Core.Bool.{false≢true}
use ventura_api.Common.Int.{ℤ, pos, ◌+ℤ◌, ◌-ℤ◌, +ℤ-zero, int_laws, ◌≤ℤ◌, negsuc, +ℤ_parts, -ℤ_parts}
use ventura_api.Db.{Db}
use ventura_api.Resource.Entity.{is_product, Resource, StockAdjustment}
use ventura_api.Resource.Repository.{at, find_by_id, balance_of, add_stock, enough_stock}

-- a change of a quantity that may be absent
abbrev pub shift : ℤ → Option ℤ → Option ℤ
shift d none = none
shift d (some q) = some (q +ℤ d)

pub shift_zero : (o : Option ℤ) → shift (pos 0) o ≡ o
shift_zero none = refl
shift_zero (some q) = ap some (omega int_laws)

pub shift-shift : (d e : ℤ) (o : Option ℤ) → shift e (shift d o) ≡ shift (d +ℤ e) o
shift-shift d e none = refl
shift-shift d e (some q) = ap some (omega int_laws)

module _ {F : Type 0} where
  abbrev pub stock_of_row : Option (Resource F) → Option ℤ
  stock_of_row none = none
  stock_of_row (some x) = if is_product x.type then some x.available_quantity else none

  -- the stock of a product of a business; `none` for a service and for an id that is not listed
  abbrev pub stock_of : Uuid → Uuid → Db F → Option ℤ
  stock_of b r db = stock_of_row (find_by_id b r db)

-- the sum of a product's ledger rows
abbrev pub ledger : Uuid → Uuid → List StockAdjustment → ℤ
ledger b r [] = pos 0
ledger b r (a ∷ rows) =
    (if a.resource_id == r && a.business_id == b then a.delta else pos 0) +ℤ ledger b r rows

module _ {F : Type 0} where
  -- the part of a product's stock that its ledger does not explain
  abbrev pub unexplained : Uuid → Uuid → Db F → Option ℤ
  unexplained b r db = shift (pos 0 -ℤ ledger b r db.adjustments) (stock_of b r db)

-- `n` if the product is number `s` of business `c`
abbrev pub if_product : Uuid → Uuid → Uuid → Uuid → ℤ → ℤ
if_product b r c s d = if s == r && c == b then d else pos 0

pub unexplained-shift :
    (d l : ℤ) (o : Option ℤ) → shift (pos 0 -ℤ (d +ℤ l)) (shift d o) ≡ shift (pos 0 -ℤ l) o
unexplained-shift d l none = refl
unexplained-shift d l (some q) = ap some (omega int_laws)

-- The stock covers the change: it is a rise, or it leaves at least nothing.
abbrev pub Covers : ℤ → Option ℤ → Type 0
Covers d none = ⊥
Covers d (some q) = (pos 0 ≤ℤ d) ⊎ (pos 0 ≤ℤ q +ℤ d)

-- The stock does not cover the change: it is a fall below zero.
abbrev pub Short : ℤ → Option ℤ → Type 0
Short d none = Unit
Short d (some q) = (d +ℤ pos 1 ≤ℤ pos 0) × (q +ℤ d +ℤ pos 1 ≤ℤ pos 0)

pub enough-Covers : (d q : ℤ) → enough_stock d q ≡ true → Covers d (some q)
enough-Covers (pos n) q h = inl (omega arith)
enough-Covers (negsuc n) q h =
    inr (ground (arith, -ℤ_parts (pos 0) (negsuc n), +ℤ_parts q (negsuc n)))

enough-Short : (d q : ℤ) → enough_stock d q ≡ false → Short d (some q)
enough-Short (pos n) q h = ground arith
enough-Short (negsuc n) q h = (
  omega int_laws,
  ground
      (arith, -ℤ_parts (pos 0) (negsuc n), +ℤ_parts q (negsuc n), +ℤ_parts (q +ℤ negsuc n) (pos 1)),
)

-- only a fall can be short
pub Short-of_pos : (n : ℕ) (o : Option ℤ) → Short (pos n) o → o ≡ none
Short-of_pos n none h = refl
Short-of_pos n (some q) h = let k = h.0 in absurd (omega int_laws)

module _ {F : Type 0} where
  pub Short-of_missing : (d : ℤ) (o : Option (Resource F)) → o ≡ none → Short d (stock_of_row o)
  Short-of_missing d o e = rw e tt

  pub Short-of_test :
      (d : ℤ) (o : Option (Resource F)) (row : Resource F)
      → o ≡ some row
      → (is_product row.type && enough_stock d row.available_quantity) ≡ false
      → Short d (stock_of_row o)
  Short-of_test d o row e h = rw e (elim (Bool-cases (is_product row.type)) [
    | inl yes_product ↦ rw yes_product (enough-Short d row.available_quantity (rw yes_product at h))
    | inr no_product ↦ rw no_product tt
  ])

  pub Covers-of_test :
      (d : ℤ) (o : Option (Resource F)) (row : Resource F)
      → o ≡ some row
      → (is_product row.type && enough_stock d row.available_quantity) ≡ true
      → Covers d (stock_of_row o)
  Covers-of_test d o row e h = rw e (elim (Bool-cases (is_product row.type)) [
    | inl yes_product ↦
        rw yes_product (enough-Covers d row.available_quantity (rw yes_product at h))
    | inr no_product ↦ let k : false ≡ true = rw no_product at h in absurd (false≢true k)
  ])

  -- the balance that the ledger row carries is the new stock
  pub stock-balance :
      (c s : Uuid) (d : ℤ) (rows : List (Resource F)) (row : Resource F)
      → find (at c s) rows ≡ some row
      → is_product row.type ≡ true
      → let found = find (at c s) (update (at c s) (add_stock d) rows) in
        stock_of_row found ≡ some (balance_of found)
  stock-balance c s d rows row e h =
      rw (find-update (at c s) (add_stock d) rows row e (find-fits (at c s) rows row e)) (rw h)

module _ {F : Type 0} (b r : Uuid) where
  pub stock-update :
      (c s : Uuid) (d : ℤ) (rows : List (Resource F))
      → stock_of_row (find (at b r) (update (at c s) (add_stock d) rows))
        ≡ shift (if_product b r c s d) (stock_of_row (find (at b r) rows))
  stock-update c s d [] = refl
  stock-update c s d (x ∷ rows) = ground (
    arith,
    stock-update c s d rows,
    shift_zero (stock_of_row (find (at b r) rows)),
    +ℤ-zero x.available_quantity,
  )

  -- From `db` to `db'` the product's stock moves by `d` and its ledger accounts for that; no order,
  -- invoice or customer changes.
  pub record Shifts (d : ℤ) (db db' : Db F) : Type 0 where
    pub stock : stock_of b r db' ≡ shift d (stock_of b r db)
    pub explained : unexplained b r db' ≡ unexplained b r db
    pub orders : db'.orders ≡ db.orders
    pub invoices : db'.invoices ≡ db.invoices
    pub customers : db'.customers ≡ db.customers

  pub Shifts-refl : (db : Db F) → Shifts (pos 0) db db
  Shifts-refl db = record {
    stock = sym (shift_zero (stock_of b r db));
    explained = refl;
    orders = refl;
    invoices = refl;
    customers = refl;
  }

  pub Shifts-trans :
      (d e : ℤ) {db db' db'' : Db F} → Shifts d db db' → Shifts e db' db'' → Shifts (d +ℤ e) db db''
  Shifts-trans d e {db} h k = record {
    stock = k.stock ∙ ap (shift e) h.stock ∙ shift-shift d e (stock_of b r db);
    explained = k.explained ∙ h.explained;
    orders = k.orders ∙ h.orders;
    invoices = k.invoices ∙ h.invoices;
    customers = k.customers ∙ h.customers;
  }
