-- ===== src/Tests/Reports.antt =====
-- The theorems on the dashboard and the search endpoint at work on the sample shop.
use ventura_api.Common.{
  ℕ, ◌+◌, ◌-◌, ◌*◌, ◌≤◌, ◌≡◌, refl, true, false, none, some, List, [], ◌∷◌, length, sum_by,
  if◌then◌else◌, ◌==◌, Uuid,
}
use ventura_api.Number.Decimal.{Decimal, decimal_number, cents}
use ventura_api.Db.{Db}
use ventura_api.Order.Best.{top_products}
use ventura_api.Order.Falling.{Falling}
use ventura_api.Order.Ranked.{Ranked, top_products_lem}
use ventura_api.Invoice.Entity.{Invoice, partially_paid}
use ventura_api.Invoice.Repository.{sum_paid}
use ventura_api.Invoice.Revenue.{daily_revenue, listed_on, last_paid_on, Later, daily_revenue_lem}
use ventura_api.Dashboard.{day, sum_amount_paid, get_revenue}
use ventura_api.Dashboard.Windows.{get_revenue_bounds}
use ventura_api.Common.Action.{Result, ok, err}
use ventura_api.Common.Text.{trimmed, truthy}
use ventura_api.Search.{SearchResults, no_results, search}
use ventura_api.Search.Found.{Found, search-Found}
use ventura_api.Samples.{shop, billed}

-- an invoice that is paid in part at a moment
abbrev paid_at : ℕ → ℕ → ℕ → Invoice Decimal
paid_at id time amount = record (billed id partially_paid amount) { payment_date = some time }

-- last payments on the first, the third and again the first of three days, and long before the sixtieth
abbrev books : Db Decimal
books = record shop {
  invoices =
      paid_at 40 (100 * day + 5) 2000
      ∷ paid_at 41 (98 * day) 700
      ∷ paid_at 42 (100 * day + 9) 300
      ∷ paid_at 43 (50 * day) 1100
      ∷ shop.invoices;
}

daily_revenue_lem_example :
    let days = daily_revenue 7 (95 * day) (101 * day) books in
    Later 0 days
    × ((date : ℕ)
        → sum_by (listed_on date) days
          ≡ sum_by (last_paid_on 7 (95 * day) (101 * day) date) books.invoices)
    × (sum_by (λ d. d.amount) days
        ≡ sum_paid 7 (some (95 * day)) (some (101 * day + 1)) books.invoices)
daily_revenue_lem_example = daily_revenue_lem 7 (95 * day) (101 * day) books

top_products_lem_example :
    (length (top_products 7 1 shop) ≤ 1)
    × Falling (top_products 7 1 shop)
    × ((r : Uuid) → Ranked r 7 shop (top_products 7 1 shop))
top_products_lem_example = top_products_lem 7 1 shop

get_revenue_bounds_example :
    let r = get_revenue (λ a b. a - b) 7 (101 * day) books in
    let paid = sum_amount_paid 7 (some (41 * day)) (some (101 * day)) books in
    (r.last_30_days + r.previous_30_days ≤ paid + cents 1)
    × (paid ≤ r.last_30_days + r.previous_30_days + cents 1)
    × (r.last_30_days + r.previous_30_days ≤ r.total + 15_000)
get_revenue_bounds_example = get_revenue_bounds (λ a b. a - b) 7 (101 * day) books

abbrev found_customers : Result (SearchResults Decimal) → ℕ
found_customers (ok r) = length r.customers
found_customers (err e) = 0

search-Found_example :
    Found 7 (trimmed " am ") shop (search 7 " am " shop)
    × (truthy (some (trimmed " am ")) ≡ false
        → search 7 " am " shop ≡ (ok (no_results (trimmed " am ")), shop))
search-Found_example = search-Found 7 " am " shop

-- Ama is found
search_am : found_customers (search 7 " am " shop).0 ≡ 1
unfolding search ventura_api.Common.Like.some_suffix
search_am = refl
