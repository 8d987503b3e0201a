-- ===== src/Invoice/Tax.antt =====
-- The Ghana tax breakdown that `create` of src/invoice/application/invoice.service.ts computes.
pub mod Bounds
use ventura_api.Common.{List, [], ◌∷◌}
use ventura_api.Number.{Number, round2}
use ventura_api.Order.Entity.{Order}

module _ {F : Type 0} ⦃num : Number F⦄ where
  abbrev pub vat_rate : F
  vat_rate = num.scaled 15 2

  abbrev pub nhil_rate : F
  nhil_rate = num.scaled 25 3

  abbrev pub getfund_rate : F
  getfund_rate = num.scaled 25 3

pub record Breakdown (F : Type 0) : Type 0 where
  pub subtotal : F
  pub nhil_amount : F
  pub getfund_amount : F
  pub vat_amount : F
  pub total_tax : F
  pub total_amount : F

module _ {F : Type 0} ⦃num : Number F⦄ where
  -- `orders.reduce((sum, o) => sum + o.totalAmount, acc)`
  unfoldable pub sum_orders : F → List (Order F) → F
  sum_orders acc [] = acc
  sum_orders acc (o ∷ orders) = sum_orders (num.add acc o.total_amount) orders

  unfoldable pub breakdown : F → Breakdown F
  breakdown sum =
      let subtotal = round2 sum in
      let nhil = round2 (num.mul subtotal nhil_rate) in
      let getfund = round2 (num.mul subtotal getfund_rate) in
      let vat = round2 (num.mul (num.add (num.add subtotal nhil) getfund) vat_rate) in
      let tax = round2 (num.add (num.add vat nhil) getfund) in
      record {
        subtotal = subtotal;
        nhil_amount = nhil;
        getfund_amount = getfund;
        vat_amount = vat;
        total_tax = tax;
        total_amount = round2 (num.add subtotal tax);
      }
