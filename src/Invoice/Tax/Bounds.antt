-- ===== src/Invoice/Tax/Bounds.antt =====
-- The tax breakdown of invoice.service.ts on exact decimals: how far the rounded levies are from the
-- rates of the law. The doubles that the code computes with approximate these decimals.
use ventura_api.Common.{ℕ, ◌+◌, ◌*◌, ◌/◌, ◌≤◌, ◌≡◌, refl, ap, ◌∙◌, arith}
use ventura_api.Number.{of_nat, round2}
use ventura_api.Number.Decimal.{Decimal, decimal_number, cents}
use ventura_api.Invoice.Tax.{nhil_rate, vat_rate, breakdown}

-- a decimal in whole pesewas, halves up
abbrev pub to_cents : Decimal → ℕ
to_cents x = (x + 5_000) / 10_000

times_hundred : (x : Decimal) → decimal_number.mul x (of_nat 100) ≡ x * 100
times_hundred x = omega arith

pub round2_lem : (x : Decimal) → round2 x ≡ cents (to_cents x)
unfolding round2
round2_lem x = omega arith

to_cents-cents : (c : ℕ) → to_cents (cents c) ≡ c
to_cents-cents c = omega arith

-- the levy of 2.5 % on c pesewas, and the VAT of 15 % on them with both levies, in pesewas
abbrev pub levy : ℕ → ℕ
levy c = (25 * c + 500) / 1_000

abbrev pub vat : ℕ → ℕ
vat c = (15 * (c + 2 * levy c) + 50) / 100

levy_lem : (c : ℕ) → round2 (decimal_number.mul (cents c) nhil_rate) ≡ cents (levy c)
levy_lem c = round2_lem (decimal_number.mul (cents c) nhil_rate) ∙ ap cents (omega arith)

vat_lem : (d : ℕ) → round2 (decimal_number.mul (cents d) vat_rate) ≡ cents ((15 * d + 50) / 100)
vat_lem d = round2_lem (decimal_number.mul (cents d) vat_rate) ∙ ap cents (omega arith)

-- adding whole pesewas is exact
whole : (x : Decimal) (c : ℕ) → x ≡ cents c → round2 x ≡ cents c
whole x c e = ap round2 e ∙ round2_lem (cents c) ∙ ap cents (to_cents-cents c)

whole_vat :
    (c : ℕ)
    → round2 (decimal_number.mul (cents c + cents (levy c) + cents (levy c)) vat_rate)
      ≡ cents (vat c)
whole_vat c =
    let d : cents c + cents (levy c) + cents (levy c) ≡ cents (c + 2 * levy c) = omega arith in
    ap (λ x. round2 (decimal_number.mul x vat_rate)) d ∙ vat_lem (c + 2 * levy c)

breakdown_lem :
    (c : ℕ)
    → breakdown (cents c) ≡ record {
      subtotal = cents c;
      nhil_amount = cents (levy c);
      getfund_amount = cents (levy c);
      vat_amount = cents (vat c);
      total_tax = cents (vat c + 2 * levy c);
      total_amount = cents (c + (vat c + 2 * levy c));
    }
unfolding breakdown
breakdown_lem c =
    rw
      (
        whole (cents c) c refl,
        levy_lem c,
        whole_vat c,
        whole (cents (vat c) + cents (levy c) + cents (levy c)) (vat c + 2 * levy c) (omega arith),
        whole (cents c + cents (vat c + 2 * levy c)) (c + (vat c + 2 * levy c)) (omega arith),
      )
      refl

-- The tax on a subtotal of c pesewas, on exact decimals: each of the three levies is a whole number
-- of pesewas; NHIL and GETFund are each within half a pesewa of 2.5 % of the subtotal, and the VAT
-- within half a pesewa of 15 % of the subtotal with these two; the tax is the sum of the three and the
-- total that of the subtotal and the tax, without a rounding error; and the tax is within 1.65 pesewas
-- of 20.75 % of the subtotal.
pub breakdown_bounds :
    (c : ℕ)
    → let b = breakdown (cents c) in
      (v : ℕ) × (n : ℕ) × (g : ℕ) × (b.subtotal ≡ cents c)
      × (b.nhil_amount ≡ cents n)
      × (b.getfund_amount ≡ cents g)
      × (b.vat_amount ≡ cents v)
      × (b.total_tax ≡ cents (v + n + g))
      × (b.total_amount ≡ cents (c + v + n + g))
      × ((1_000 * n ≤ 25 * c + 500) × (25 * c ≤ 1_000 * n + 500))
      × ((1_000 * g ≤ 25 * c + 500) × (25 * c ≤ 1_000 * g + 500))
      × ((100 * v ≤ 15 * (c + n + g) + 50) × (15 * (c + n + g) ≤ 100 * v + 50))
      × ((10_000 * (v + n + g) ≤ 2_075 * c + 16_500) × (2_075 * c ≤ 10_000 * (v + n + g) + 16_500))
breakdown_bounds c = rw (breakdown_lem c) (
  vat c,
  levy c,
  levy c,
  refl,
  refl,
  refl,
  refl,
  omega arith,
  omega arith,
  (omega arith, omega arith),
  (omega arith, omega arith),
  (omega arith, omega arith),
  (omega arith, omega arith),
)
