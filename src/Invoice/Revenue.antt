-- ===== src/Invoice/Revenue.antt =====
-- `dailyRevenue` of src/invoice/infrastructure/postgres-invoice.repository.ts. A date is the number of
-- its UTC day, which orders dates as their text does.
use ventura_api.Common.{
  ℕ, suc, ◌+◌, ◌/◌, ◌≤◌, ◌≡◌, refl, ap, ◌∙◌, Bool, false, ◌&&◌, Option, none, some, List, [], ◌∷◌,
  Uuid, Time, sum_by, ltb, leb, ◌==◌, if◌then◌else◌, or_default, arith, Bool-cases, inl, inr,
  ==_iff,
}
use mathlib.Core.Path.{subst}
use ventura_api.Number.{Number, of_nat}
use ventura_api.Number.Decimal.{Decimal, decimal_number}
use ventura_api.Db.{Db}
use ventura_api.Invoice.Entity.{Invoice}
use ventura_api.Invoice.Repository.{since, before, paid_in, sum_paid}

pub record DailyRevenue (F : Type 0) : Type 0 where
  pub day : ℕ
  pub amount : F

-- `to_char(payment_date at time zone 'UTC', 'YYYY-MM-DD')`
abbrev pub day_of : Option Time → ℕ
day_of date = or_default date 0 / 86_400_000

-- `payment_date <= to`
abbrev pub until : Time → Option Time → Bool
until to none = false
until to (some t) = leb t to

module _ {F : Type 0} ⦃num : Number F⦄ where
  -- `group by 1`, `order by 1`
  unfoldable pub add_day : ℕ → F → List (DailyRevenue F) → List (DailyRevenue F)
  add_day day amount [] = record { day = day; amount = amount } ∷ []
  add_day day amount (d ∷ days) =
      let rest = add_day day amount days in
      if d.day == day
      then record { day = day; amount = num.add d.amount amount } ∷ days
      else (if ltb day d.day then record { day = day; amount = amount } ∷ d ∷ days else d ∷ rest)

  -- the `where` of the query
  abbrev pub in_range : Uuid → Time → Time → Invoice F → Bool
  in_range business_id from to i =
      i.business_id == business_id
      && num.gt i.amount_paid (of_nat 0)
      && since (some from) i.payment_date
      && until to i.payment_date

  unfoldable pub days_of : Uuid → Time → Time → List (Invoice F) → List (DailyRevenue F)
  unfolding add_day
  days_of business_id from to [] = []
  days_of business_id from to (i ∷ rows) =
      let rest = days_of business_id from to rows in
      if in_range business_id from to i
      then add_day (day_of i.payment_date) i.amount_paid rest
      else rest

  unfoldable pub daily_revenue : Uuid → Time → Time → Db F → List (DailyRevenue F)
  unfolding days_of
  daily_revenue business_id from to db = days_of business_id from to db.invoices

-- the amount that is listed for a day
abbrev pub listed_on : ℕ → DailyRevenue Decimal → ℕ
listed_on day d = if d.day == day then d.amount else 0

-- days from `n` on, each later than the one before
abbrev pub Later : ℕ → List (DailyRevenue Decimal) → Type 0
Later n [] = Unit
Later n (d ∷ days) = (n ≤ d.day) × Later (d.day + 1) days

add_day-listed :
    (day day' amount : ℕ) (days : List (DailyRevenue Decimal))
    → sum_by (listed_on day) (add_day day' amount days)
      ≡ sum_by (listed_on day) days + (if day' == day then amount else 0)
unfolding add_day
add_day-listed day day' amount [] = omega arith
add_day-listed day day' amount (d ∷ days) = ground (arith, add_day-listed day day' amount days)

add_day-Later :
    (n day amount : ℕ) (days : List (DailyRevenue Decimal))
    → n ≤ day
    → Later n days
    → Later n (add_day day amount days)
unfolding add_day
add_day-Later n day amount [] h k = (h, tt)
add_day-Later n day amount (d ∷ days) h (first, rest) = elim (Bool-cases (d.day == day)) [
  | inl same ↦ rw same (h, subst (λ x. Later (x + 1) days) ((==_iff d.day day).0 same) rest)
  | inr other ↦ rw other (elim (Bool-cases (ltb day d.day)) [
    | inl sooner ↦ rw sooner (h, (ground arith, rest))
    | inr later ↦ rw later (first, add_day-Later (d.day + 1) day amount days (ground arith) rest)
  ])
]

-- what an invoice whose last payment is dated on a day has been paid so far
abbrev pub last_paid_on : Uuid → Time → Time → ℕ → Invoice Decimal → ℕ
last_paid_on business_id from to day i =
    if in_range business_id from to i && day_of i.payment_date == day then i.amount_paid else 0

days_of-Later :
    (b : Uuid) (from to : Time) (rows : List (Invoice Decimal)) → Later 0 (days_of b from to rows)
unfolding days_of
days_of-Later b from to [] = tt
days_of-Later b from to (i ∷ rows) = elim (Bool-cases (in_range b from to i)) [
  | inl paid ↦ rw paid (
      add_day-Later 0 (day_of i.payment_date) i.amount_paid (days_of b from to rows) (omega arith)
        (days_of-Later b from to rows))
  | inr other ↦ rw other (days_of-Later b from to rows)
]

days_of-listed :
    (b : Uuid) (from to : Time) (day : ℕ) (rows : List (Invoice Decimal))
    → sum_by (listed_on day) (days_of b from to rows) ≡ sum_by (last_paid_on b from to day) rows
unfolding days_of
days_of-listed b from to day [] = refl
days_of-listed b from to day (i ∷ rows) = elim (Bool-cases (in_range b from to i)) [
  | inl paid ↦ rw paid (
      add_day-listed day (day_of i.payment_date) i.amount_paid (days_of b from to rows)
      ∙ omega (arith, days_of-listed b from to day rows))
  | inr other ↦ rw other (omega (arith, days_of-listed b from to day rows))
]

add_day-total :
    (day amount : ℕ) (days : List (DailyRevenue Decimal))
    → sum_by (λ d. d.amount) (add_day day amount days) ≡ sum_by (λ d. d.amount) days + amount
unfolding add_day
add_day-total day amount [] = omega arith
add_day-total day amount (d ∷ days) = ground (arith, add_day-total day amount days)

until-before : (to : Time) (date : Option Time) → until to date ≡ before (some (suc to)) date
until-before to none = refl
until-before to (some t) = ground arith

-- a date up to a moment is a date before the next
in_range-paid_in :
    (b : Uuid) (from to : Time) (i : Invoice Decimal)
    → in_range b from to i ≡ paid_in b (some from) (some (suc to)) i
in_range-paid_in b from to i =
    ap
      (λ x.
        i.business_id == b
        && decimal_number.gt i.amount_paid 0
        && since (some from) i.payment_date
        && x)
      (until-before to i.payment_date)

days_of-total :
    (b : Uuid) (from to : Time) (rows : List (Invoice Decimal))
    → sum_by (λ d. d.amount) (days_of b from to rows) ≡ sum_paid b (some from) (some (suc to)) rows
unfolding days_of sum_paid
days_of-total b from to [] = refl
days_of-total b from to (i ∷ rows) =
    rw (← in_range-paid_in b from to i) (elim (Bool-cases (in_range b from to i)) [
      | inl paid ↦ rw paid (
          add_day-total (day_of i.payment_date) i.amount_paid (days_of b from to rows)
          ∙ ap (λ n. n + i.amount_paid) (days_of-total b from to rows))
      | inr other ↦ rw other (days_of-total b from to rows)
    ])

-- With exact decimals, `dailyRevenue` lists days in their order and none twice. The amount of a day is
-- the sum, over the invoices of the business whose last payment is dated on that day and in the range,
-- of all that they have been paid so far, earlier payments included, and a day without such an invoice
-- has none. The amounts add up to what `sumAmountPaid` gives for the range with its last moment
-- included.
pub daily_revenue_lem :
    (b : Uuid) (from to : Time) (db : Db Decimal)
    → Later 0 (daily_revenue b from to db)
      × ((day : ℕ)
          → sum_by (listed_on day) (daily_revenue b from to db)
            ≡ sum_by (last_paid_on b from to day) db.invoices)
      × (sum_by (λ d. d.amount) (daily_revenue b from to db)
          ≡ sum_paid b (some from) (some (suc to)) db.invoices)
unfolding daily_revenue
daily_revenue_lem b from to db = (
  days_of-Later b from to db.invoices,
  λ day. days_of-listed b from to day db.invoices,
  days_of-total b from to db.invoices,
)
