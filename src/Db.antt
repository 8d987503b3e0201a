-- ===== src/Db.antt =====
-- The state that the services share: the tables of the database, newest row first, and what has
-- left the process. The environment supplies what the code does not compute.
use ventura_api.Common.{ℕ, Bool, String, List, Uuid, Time}
use ventura_api.Common.Action.{Action}
use ventura_api.Resource.Entity.{Resource, StockAdjustment}
use ventura_api.Customer.Entity.{Customer}
use ventura_api.Order.Entity.{Order}
use ventura_api.Invoice.Entity.{Invoice}
use ventura_api.Appointment.Entity.{Appointment}

pub record Db (F : Type 0) : Type 0 where
  pub resources : List (Resource F)
  pub adjustments : List StockAdjustment
  pub customers : List Customer
  pub orders : List (Order F)
  pub invoices : List (Invoice F)
  pub appointments : List Appointment
  -- recipients and numbers of the invoices mailed, newest first
  pub mailed : List (String × String)
  -- keys of the stored objects that were deleted, newest first
  pub deleted_objects : List String
  -- how many row ids have been drawn
  pub drawn : ℕ

-- `uuid n` is the n-th id that PostgreSQL's `gen_random_uuid()` yields and `label n` the n-th public
-- number (nanoid); `now` is the clock during a call. `writes_orders` says whether the database
-- accepts writes of orders in this call, those of their links to invoices included, and
-- `writes_customers n` whether it accepts a customer with the n-th id.
pub record Env : Type 0 where
  pub uuid : ℕ → Uuid
  pub label : ℕ → String
  pub now : Time
  pub writes_orders : Bool
  pub writes_customers : ℕ → Bool

abbrev pub Service : Type 0 → Type 0 → Type 0
Service F A = Action (Db F) A
