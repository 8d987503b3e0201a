-- ===== src/Number.antt =====
-- What the code does with a JavaScript `number` that holds money: an IEEE double, taken as a type
-- with the operations used. Whole counts (quantities, stock, page numbers) are ℕ and ℤ instead.
pub mod Decimal
use ventura_api.Common.{ℕ, Bool}

pub record Number (F : Type 0) : Type 0 where
  -- the double nearest to n / 10 ^ k
  pub scaled : ℕ → ℕ → F
  pub add : F → F → F
  pub mul : F → F → F
  pub div : F → F → F
  -- `Math.round`
  pub round : F → F
  -- `a > b` and `a >= b`
  pub gt : F → F → Bool
  pub ge : F → F → Bool

module _ {F : Type 0} ⦃num : Number F⦄ where
  abbrev pub of_nat : ℕ → F
  of_nat n = num.scaled n 0

  -- `round2` of invoice.service.ts and dashboard.service.ts
  unfoldable pub round2 : F → F
  round2 n = num.div (num.round (num.mul n (of_nat 100))) (of_nat 100)
