-- ===== src/Number/Decimal.antt =====
-- Exact non-negative decimals with six places, the arithmetic that the doubles approximate. A
-- product or quotient that needs more places loses them; the money sums of the code need five.
use ventura_api.Common.{ℕ, suc, ◌+◌, ◌*◌, ◌/◌, ltb, leb, zero}
use ventura_api.Number.{Number}

abbrev pub Decimal : Type 0
Decimal = ℕ

abbrev pub unit : ℕ
unit = 1_000_000

abbrev shift_down : ℕ → ℕ → ℕ
shift_down n zero = n
shift_down n (suc k) = shift_down n k / 10

-- halves go up, as `Math.round` takes them
abbrev round_half_up : ℕ → ℕ
round_half_up n = (n + 500_000) / unit * unit

instance abbrev pub decimal_number : Number Decimal
decimal_number = record {
  scaled = λ n k. shift_down (n * unit) k;
  add = λ a b. a + b;
  mul = λ a b. a * b / unit;
  div = λ a b. a * unit / b;
  round = round_half_up;
  gt = λ a b. ltb b a;
  ge = λ a b. leb b a;
}

-- c / 100, for a whole number c of pesewas
abbrev pub cents : ℕ → Decimal
cents c = c * 10_000
