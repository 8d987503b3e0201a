-- ===== src/Dashboard/Windows.antt =====
-- The windows of src/dashboard/dashboard.service.ts.
use ventura_api.Common.{
  ℕ, ◌+◌, ◌-◌, ◌*◌, ◌≤◌, ◌≡◌, refl, Bool, true, ◌&&◌, Option, none, some, List, [], ◌∷◌, Uuid, Time,
  ltb, ◌==◌, if◌then◌else◌, arith,
}
use ventura_api.Number.Decimal.{Decimal, decimal_number, cents}
use ventura_api.Db.{Db}
use ventura_api.Invoice.Entity.{Invoice}
use ventura_api.Invoice.Repository.{since, before, sum_paid}
use ventura_api.Invoice.Tax.Bounds.{round2_lem}
use ventura_api.Dashboard.{day, sum_amount_paid, get_revenue}

-- a dated amount in two windows that meet
split_date :
    (t : Bool) (n x y z : ℕ) (date : Option Time)
    → x ≤ y
    → y ≤ z
    → (if t && since (some x) date && before (some z) date then n else 0)
      ≡ (if t && since (some x) date && before (some y) date then n else 0)
        + (if t && since (some y) date && before (some z) date then n else 0)
split_date t n x y z none h k = ground arith
split_date t n x y z (some d) h k = ground arith

within_all :
    (t : Bool) (n x z : ℕ) (date : Option Time)
    → (if t && since (some x) date && before (some z) date then n else 0)
      ≤ (if t && true && true then n else 0)
within_all t n x z none = ground arith
within_all t n x z (some d) = ground arith

abbrev is_paid : Uuid → Invoice Decimal → Bool
is_paid b i = i.business_id == b && ltb 0 i.amount_paid

-- A window that is cut at a moment has the sums of its two parts.
sum_paid-split :
    (b : Uuid) (x y z : Time) (rows : List (Invoice Decimal))
    → x ≤ y
    → y ≤ z
    → sum_paid b (some x) (some z) rows
      ≡ sum_paid b (some x) (some y) rows + sum_paid b (some y) (some z) rows
unfolding sum_paid
sum_paid-split b x y z [] h k = refl
sum_paid-split b x y z (i ∷ rows) h k = ground (
  arith,
  split_date (is_paid b i) i.amount_paid x y z i.payment_date h k,
  sum_paid-split b x y z rows h k,
)

sum_paid-le :
    (b : Uuid) (x z : Time) (rows : List (Invoice Decimal))
    → sum_paid b (some x) (some z) rows ≤ sum_paid b none none rows
unfolding sum_paid
sum_paid-le b x z [] = omega arith
sum_paid-le b x z (i ∷ rows) =
    ground
      (arith, within_all (is_paid b i) i.amount_paid x z i.payment_date, sum_paid-le b x z rows)

-- On exact decimals, the two figures of the dashboard for the last thirty days and the thirty days
-- before add up, to within a pesewa, to what `sumAmountPaid` gives for the sixty days, which is all that
-- the invoices whose last payment is dated in them have been paid so far, earlier payments included; and
-- they exceed the total that the dashboard shows by at most a pesewa and a half.
pub get_revenue_bounds :
    (sub : Decimal → Decimal → Decimal) (b : Uuid) (now : Time) (db : Db Decimal)
    → let r = get_revenue sub b now db in
      let paid = sum_amount_paid b (some (now - 60 * day)) (some now) db in
      (r.last_30_days + r.previous_30_days ≤ paid + cents 1)
      × (paid ≤ r.last_30_days + r.previous_30_days + cents 1)
      × (r.last_30_days + r.previous_30_days ≤ r.total + 15_000)
unfolding get_revenue
get_revenue_bounds sub b now db =
    let rows = db.invoices in
    let start30 = now - 30 * day in
    let start60 = now - 60 * day in
    let whole = sum_paid-split b start60 start30 now rows (omega arith) (omega arith) in
    let all = sum_paid-le b start60 now rows in
    omega (
      arith,
      whole,
      all,
      round2_lem (sum_paid b (some start30) (some now) rows),
      round2_lem (sum_paid b (some start60) (some start30) rows),
      round2_lem (sum_paid b none none rows),
    )
