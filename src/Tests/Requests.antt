-- ===== src/Tests/Requests.antt =====
-- The theorems on the requests to the controllers at work on the sample shop and a neighbour of it.
use ventura_api.Common.{none, some, refl, List, [], ◌∷◌, Uuid}
use ventura_api.Number.Decimal.{Decimal, decimal_number}
use ventura_api.Accounts.{Accounts}
use ventura_api.Db.{Db, Env}
use ventura_api.Order.Entity.{cancelled}
use ventura_api.Tenancy.{Same}
use ventura_api.Tenancy.Isolated.{
  Request, create_order, delete_customer, update_order_status, run, run-Same,
}
use ventura_api.Samples.{shop, env, ama, basket}
use ventura_api.Order.Listing.{ListOrders}
use ventura_api.Tenancy.Private.{Read, show, orders, show-Read}
use ventura_api.Tests.Setup.{settled}

-- business 8 has a customer with the id of one of business 7
abbrev street : Db Decimal
street = record shop { customers = record ama { business_id = 8 } ∷ shop.customers }

-- Kofi, of business 7, places an order, cancels one and deletes a customer; a stranger tries to
abbrev requests : List (Env × Accounts × Uuid × Request Decimal)
requests =
    (env, settled, 1, create_order basket)
    ∷ (env, settled, 1, update_order_status 20 cancelled)
    ∷ (env, settled, 1, delete_customer 5)
    ∷ (env, settled, 4, delete_customer 5)
    ∷ []

run-Same_example : Same 8 street (run requests street)
run-Same_example = run-Same 8 requests street (refl, (refl, (refl, (refl, tt))))

abbrev all_orders : ListOrders
all_orders = record { q = some "ord"; status = none; customer_id = none }

-- the neighbour's customer does not show
shop-street : Same 7 shop street
shop-street = record {
  resources = refl;
  adjustments = refl;
  customers = refl;
  orders = refl;
  invoices = refl;
  appointments = refl;
}

show-Read_example : Read (show settled 1 (orders none none all_orders)) shop street
show-Read_example = show-Read settled 1 (orders none none all_orders) shop street shop-street
