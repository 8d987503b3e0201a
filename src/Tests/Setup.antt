-- ===== src/Tests/Setup.antt =====
-- The theorem on the set-up report at work on the owner of the sample shop.
use ventura_api.Common.{◌≡◌, true, false, none, some, [], ◌∷◌}
use ventura_api.Common.Action.{ok, err, not_found}
use ventura_api.Number.Decimal.{decimal_number}
use ventura_api.Accounts.{Accounts}
use ventura_api.User.Repository.{find_by_id}
use ventura_api.Setup.{get_status}
use ventura_api.Setup.Status.{expected, get_status_lem}
use ventura_api.Samples.{shop}
use ventura_api.Tests.Accounts.{kofi, accounts}

-- Kofi has the sample shop
abbrev pub settled : Accounts
settled = record accounts { users = record kofi { business_id = some 7 } ∷ [] }

get_status_lem_example : get_status 1 settled shop ≡ elim (find_by_id 1 settled) [
  | none ↦ err (not_found "User not found.")
  | some u ↦ ok (expected u.business_id shop)
]
get_status_lem_example = get_status_lem 1 settled shop

-- everything but an appointment
settled_status :
    get_status 1 settled shop
    ≡ ok (record {
      has_business = true;
      has_customers = true;
      has_resources = true;
      has_orders = true;
      has_invoices = true;
      has_appointments = false;
      complete = false;
    })
settled_status = get_status_lem 1 settled shop
