-- ===== src/Setup.antt =====
-- src/setup/setup.service.ts. A user of the accounts is looked up, and the tables of the shop are asked.
use ventura_api.Common.{
  ℕ, Bool, true, false, ◌&&◌, Option, none, some, List, [], ◌∷◌, Uuid, ltb, length, filter, ◌==◌,
}
use ventura_api.Common.Int.{pos}
use ventura_api.Common.Action.{Result, ok, err, not_found, ◌>>=◌, pure, gets}
use ventura_api.Paging.{Paginated}
use ventura_api.Accounts.{Accounts}
use ventura_api.User.Entity.{User}
use ventura_api.User.Service.{get_user_by_id, get_user_or_throw}
use ventura_api.Db.{Db, Service}
use ventura_api.Customer.Service as Customers
use ventura_api.Resource.Listing as Resources
use ventura_api.Order.Listing as Orders
use ventura_api.Invoice.Listing as Invoices
use ventura_api.Appointment.Service as Appointments
pub mod Status

pub record SetupStatus : Type 0 where
  pub has_business : Bool
  pub has_customers : Bool
  pub has_resources : Bool
  pub has_orders : Bool
  pub has_invoices : Bool
  pub has_appointments : Bool
  pub complete : Bool

-- before there is a business
abbrev pub nothing_yet : SetupStatus
nothing_yet = record {
  has_business = false;
  has_customers = false;
  has_resources = false;
  has_orders = false;
  has_invoices = false;
  has_appointments = false;
  complete = false;
}

-- `(await list(businessId, { limit: 1 })).meta.total > 0`
abbrev pub exists_in : {T : Type 0} → Paginated T → Bool
exists_in r = ltb 0 r.meta.total

module _ {F : Type 0} where
  unfoldable pub status_of : Uuid → Service F SetupStatus
  unfolding Customers.list Resources.list Orders.list Invoices.list Appointments.list
  status_of business_id = do
    customers ← Customers.list business_id none (some (pos 1)) none
    resources ←
        gets (Resources.list business_id none (some (pos 1)) (record { q = none; type = none }))
    orders ← gets (
        Orders.list business_id none (some (pos 1))
          (record { q = none; status = none; customer_id = none }))
    invoices ← gets (
        Invoices.list business_id none (some (pos 1))
          (record { q = none; status = none; customer_id = none }))
    appointments ← Appointments.list business_id none none
    pure (record {
      has_business = true;
      has_customers = exists_in customers;
      has_resources = exists_in resources;
      has_orders = exists_in orders;
      has_invoices = exists_in invoices;
      has_appointments = ltb 0 (length appointments);
      complete =
          exists_in customers
          && exists_in resources
          && exists_in orders
          && exists_in invoices
          && ltb 0 (length appointments);
    })

  -- by the business of the user
  abbrev pub status_for : Option Uuid → Service F SetupStatus
  status_for none = pure nothing_yet
  status_for (some business_id) = status_of business_id

  unfoldable pub get_status : Uuid → Accounts → Db F → Result SetupStatus
  unfolding status_of get_user_or_throw
  get_status user_id accounts db = elim (get_user_by_id user_id accounts).0 [
    | ok user ↦ (status_for user.business_id db).0
    | err e ↦ err e
  ]
