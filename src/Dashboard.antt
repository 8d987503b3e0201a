-- ===== src/Dashboard.antt =====
-- src/dashboard/dashboard.service.ts and the range of dashboard.controller.ts. The subtraction of
-- doubles, whose result may be negative, is an argument.
use ventura_api.Common.{
  ℕ, ◌-◌, ◌*◌, Bool, Option, none, some, String, List, map, Uuid, Time, if◌then◌else◌,
}
use ventura_api.Number.{Number, of_nat, round2}
use ventura_api.Db.{Db}
use ventura_api.Invoice.Entity.{InvoiceStatus, Invoice}
use ventura_api.Invoice.Repository.{sum_paid, recent}
use ventura_api.Invoice.Revenue.{DailyRevenue, daily_revenue}
use ventura_api.Resource.Repository.{count_low_stock}
use ventura_api.Order.Best.{TopProduct, top_products}
pub mod Windows

pub record Revenue (F : Type 0) : Type 0 where
  pub total : F
  pub last_30_days : F
  pub previous_30_days : F
  pub trend_percent : Option F

pub record Inventory : Type 0 where
  pub low_stock_count : ℕ
  pub top_products : List TopProduct

pub record RecentInvoice (F : Type 0) : Type 0 where
  pub invoice_id : Uuid
  pub invoice_number : String
  pub customer_name : Option String
  pub total_amount : F
  pub status : InvoiceStatus

pub record DashboardSummary (F : Type 0) : Type 0 where
  pub revenue : Revenue F
  pub inventory : Inventory
  pub recent_invoices : List (RecentInvoice F)
  pub daily_revenue : List (DailyRevenue F)

-- a day in milliseconds
abbrev pub day : ℕ
day = 24 * 60 * 60 * 1000

module _ {F : Type 0} ⦃num : Number F⦄ where
  abbrev pub sum_amount_paid : Uuid → Option Time → Option Time → Db F → F
  sum_amount_paid business_id from to db = sum_paid business_id from to db.invoices

  -- of the rounded sums of the two windows
  abbrev pub trend : (F → F → F) → F → F → Option F
  trend sub last previous =
      if num.gt previous (of_nat 0)
      then some (round2 (num.mul (num.div (sub last previous) previous) (of_nat 100)))
      else none

  unfoldable pub get_revenue : (F → F → F) → Uuid → Time → Db F → Revenue F
  get_revenue sub business_id now db =
      let start30 = now - 30 * day in
      let start60 = now - 60 * day in
      let last = round2 (sum_amount_paid business_id (some start30) (some now) db) in
      let previous = round2 (sum_amount_paid business_id (some start60) (some start30) db) in
      record {
        total = round2 (sum_amount_paid business_id none none db);
        last_30_days = last;
        previous_30_days = previous;
        trend_percent = trend sub last previous;
      }

module _ {F : Type 0} where
  unfoldable pub get_inventory : Uuid → Db F → Inventory
  get_inventory business_id db = record {
    low_stock_count = count_low_stock business_id db;
    top_products = top_products business_id 5 db;
  }

  abbrev pub to_recent : Invoice F → RecentInvoice F
  to_recent i = record {
    invoice_id = i.id;
    invoice_number = i.invoice_number;
    customer_name = i.customer_name;
    total_amount = i.total_amount;
    status = i.status;
  }

  unfoldable pub get_recent_invoices : Uuid → Db F → List (RecentInvoice F)
  unfolding recent
  get_recent_invoices business_id db = map to_recent (recent business_id 5 db)

module _ {F : Type 0} ⦃num : Number F⦄ where
  abbrev pub rounded : DailyRevenue F → DailyRevenue F
  rounded d = record d { amount = round2 d.amount }

  unfoldable pub get_daily_revenue : Uuid → ℕ → Time → Db F → List (DailyRevenue F)
  unfolding daily_revenue
  get_daily_revenue business_id range_days now db =
      map rounded (daily_revenue business_id (now - range_days * day) now db)

  unfoldable pub get_summary : (F → F → F) → Uuid → ℕ → Time → Db F → DashboardSummary F
  unfolding get_revenue get_inventory get_recent_invoices get_daily_revenue
  get_summary sub business_id range_days now db = record {
    revenue = get_revenue sub business_id now db;
    inventory = get_inventory business_id db;
    recent_invoices = get_recent_invoices business_id db;
    daily_revenue = get_daily_revenue business_id range_days now db;
  }
