-- ===== src/Search.antt =====
-- src/search/search.service.ts. The rows are returned as they are, without the responses that they are
-- mapped to.
use ventura_api.Common.{ℕ, Option, none, some, String, List, [], Uuid, if◌then◌else◌}
use ventura_api.Common.Int.{pos}
use ventura_api.Common.Text.{truthy, trimmed}
use ventura_api.Common.Action.{◌>>=◌, pure, gets}
use ventura_api.Paging.{Paginated}
use ventura_api.Db.{Db, Service}
use ventura_api.Customer.Entity.{Customer}
use ventura_api.Customer.Service as Customers
use ventura_api.Resource.Entity.{Resource}
use ventura_api.Resource.Listing as Resources
use ventura_api.Order.Entity.{Order}
use ventura_api.Order.Listing as Orders
use ventura_api.Invoice.Entity.{Invoice}
use ventura_api.Invoice.Listing as Invoices
use ventura_api.Appointment.Entity.{Appointment}
use ventura_api.Appointment.Service as Appointments
pub mod Found

abbrev pub per_group_limit : ℕ
per_group_limit = 5

pub record SearchResults (F : Type 0) : Type 0 where
  pub query : String
  pub customers : List Customer
  pub resources : List (Resource F)
  pub orders : List (Order F)
  pub invoices : List (Invoice F)
  pub appointments : List Appointment

module _ {F : Type 0} where
  -- `if (!query)`: nothing is looked for
  abbrev pub no_results : String → SearchResults F
  no_results query = record {
    query = query;
    customers = [];
    resources = [];
    orders = [];
    invoices = [];
    appointments = [];
  }

  -- the searches of a query that is not blank
  unfoldable pub search_all : Uuid → String → Service F (SearchResults F)
  unfolding Customers.list Resources.list Orders.list Invoices.list Appointments.search
  search_all business_id query = do
    customers ← Customers.list business_id (some (pos 1)) (some (pos per_group_limit)) (some query)
    resources ← gets (
        Resources.list business_id (some (pos 1)) (some (pos per_group_limit))
          (record { q = some query; type = none }))
    orders ← gets (
        Orders.list business_id (some (pos 1)) (some (pos per_group_limit))
          (record { q = some query; status = none; customer_id = none }))
    invoices ← gets (
        Invoices.list business_id (some (pos 1)) (some (pos per_group_limit))
          (record { q = some query; status = none; customer_id = none }))
    appointments ← Appointments.search business_id query per_group_limit
    pure (record {
      query = query;
      customers = customers.rows;
      resources = resources.rows;
      orders = orders.rows;
      invoices = invoices.rows;
      appointments = appointments;
    })

  -- by the trimmed query
  unfoldable pub search_for : Uuid → String → Service F (SearchResults F)
  unfolding search_all
  search_for business_id query =
      if truthy (some query) then search_all business_id query else pure (no_results query)

  unfoldable pub search : Uuid → String → Service F (SearchResults F)
  unfolding search_for trimmed
  search business_id q = search_for business_id (trimmed q)
