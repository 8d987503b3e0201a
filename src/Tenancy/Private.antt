-- ===== src/Tenancy/Private.antt =====
-- What the GET requests to the controllers of src/ show of the tables.
use ventura_api.Common.{
  ◌≡◌, refl, Option, none, some, String, List, Uuid, Time, Option-cases, inl, inr,
}
use mathlib.Core.Path.{subst}
use ventura_api.Common.Int.{ℤ}
use ventura_api.Common.Action.{gets, ◌>>=◌}
use ventura_api.Paging.{Paginated}
use ventura_api.Accounts.{Accounts}
use ventura_api.User.Repository.{find_by_id}
use ventura_api.User.Service.{get_user_or_throw}
use ventura_api.Db.{Db, Service}
use ventura_api.Resource.Entity.{Resource, StockAdjustment}
use ventura_api.Resource.Service as ResourceService
use ventura_api.Resource.Listing as ResourceList
use ventura_api.Customer.Entity.{Customer}
use ventura_api.Customer.Service as CustomerService
use ventura_api.Order.Entity.{Order}
use ventura_api.Order.Service as OrderService
use ventura_api.Order.Listing as OrderList
use ventura_api.Invoice.Entity.{Invoice}
use ventura_api.Invoice.Service as InvoiceService
use ventura_api.Invoice.Listing as InvoiceList
use ventura_api.Appointment.Entity.{Appointment}
use ventura_api.Appointment.Service as AppointmentService
use ventura_api.Api.{answer, again, own_business, resolve_business_id, business_in}
use ventura_api.Api.Customers
use ventura_api.Api.Resources
use ventura_api.Api.Orders
use ventura_api.Api.Invoices
use ventura_api.Api.Appointments
use ventura_api.Tenancy.{Same}
use ventura_api.Tenancy.Blind.{Blind, Blind->>=}
use ventura_api.Tenancy.Reads.{
  again-Blind, customer-Blind, resource-Blind, order-Blind, invoice-Blind, appointment-Blind,
  customers-Blind, resources-Blind, orders-Blind, invoices-Blind, adjustments-Blind,
  appointments-Blind,
}

pub data Query : Type 0 where
  customers : Option ℤ → Option ℤ → Option String → Query
  resources : Option ℤ → Option ℤ → ResourceList.ListResources → Query
  orders : Option ℤ → Option ℤ → OrderList.ListOrders → Query
  invoices : Option ℤ → Option ℤ → InvoiceList.ListInvoices → Query
  appointments : Option Time → Option Time → Query
  adjustments : Uuid → Option ℤ → Option ℤ → Query
  customer resource order invoice appointment : Uuid → Query

-- what each of them answers
abbrev pub Shown : Type 0 → Query → Type 0
Shown F (customers page limit q) = Paginated Customer
Shown F (resources page limit opts) = Paginated (Resource F)
Shown F (orders page limit opts) = Paginated (Order F)
Shown F (invoices page limit opts) = Paginated (Invoice F)
Shown F (appointments from to) = List Appointment
Shown F (adjustments id page limit) = Paginated StockAdjustment
Shown F (customer id) = Customer
Shown F (resource id) = Resource F
Shown F (order id) = Order F
Shown F (invoice id) = Invoice F
Shown F (appointment id) = Appointment

module _ {F : Type 0} where
  abbrev pub show : Accounts → Uuid → (q : Query) → Service F (Shown F q)
  show accounts user_id (customers page limit q) = Customers.list accounts user_id page limit q
  show accounts user_id (resources page limit opts) =
      Resources.list accounts user_id page limit opts
  show accounts user_id (orders page limit opts) = Orders.list accounts user_id page limit opts
  show accounts user_id (invoices page limit opts) = Invoices.list accounts user_id page limit opts
  show accounts user_id (appointments from to) = Appointments.list accounts user_id from to
  show accounts user_id (adjustments id page limit) =
      Resources.list_adjustments accounts user_id id page limit
  show accounts user_id (customer id) = Customers.get_by_id accounts user_id id
  show accounts user_id (resource id) = Resources.get_by_id accounts user_id id
  show accounts user_id (order id) = Orders.get_by_id accounts user_id id
  show accounts user_id (invoice id) = Invoices.get_by_id accounts user_id id
  show accounts user_id (appointment id) = Appointments.get_by_id accounts user_id id

  -- the rows of the business are the same, if there is one
  abbrev pub Agree : Option Uuid → Db F → Db F → Type 0
  Agree none db db' = Unit
  Agree (some b) db db' = Same b db db'

  -- equal answers, and no change
  abbrev pub Read : {A : Type 0} → Service F A → Db F → Db F → Type 0
  Read m db db' = ((m db).0 ≡ (m db').0) × ((m db).1 ≡ db)

  answer-Read :
      {A : Type 0} (message : String) (handler : Uuid → Service F A) (user_id : Uuid)
      (accounts : Accounts) (db db' : Db F)
      → Agree (business_in (find_by_id user_id accounts)) db db'
      → ((b : Uuid) → Blind b (handler b))
      → Read (answer handler (resolve_business_id message user_id accounts)) db db'
  unfolding resolve_business_id get_user_or_throw
  answer-Read {A} message handler user_id accounts db db' agree h =
      elim (Option-cases (find_by_id user_id accounts)) [
        | inl missing ↦ rw (missing, resolve_business_id) (refl, refl)
        | inr (u, found) ↦
            rw (found, resolve_business_id)
              (go u.business_id (subst (λ o. Agree (business_in o) db db') found agree))
      ]
    where
      go :
          (o : Option Uuid) → Agree o db db' → Read (answer handler (own_business message o)) db db'
      go none k = (refl, refl)
      go (some b) k = ((h b).result db db' k, (h b).state db)

  -- A GET request to the controllers changes nothing, and its answer depends on the rows of the user's
  -- business alone: on two databases that agree in those, the answers are equal, errors included. A user
  -- who is unknown or has no business gets the same answer on any two.
  pub show-Read :
      (accounts : Accounts) (user_id : Uuid) (q : Query) (db db' : Db F)
      → Agree (business_in (find_by_id user_id accounts)) db db'
      → Read (show accounts user_id q) db db'
  unfolding Customers.list Customers.get_by_id Resources.list Resources.get_by_id
      Resources.list_adjustments Orders.list Orders.get_by_id Invoices.list Invoices.get_by_id
      Appointments.list Appointments.get_by_id
  show-Read accounts user_id (customers page limit q) db db' agree =
      answer-Read Customers.message (λ b. CustomerService.list b page limit q >>= again) user_id
        accounts db db' agree
        λ b.
          Blind->>= b (CustomerService.list b page limit q) again (customers-Blind b page limit q)
            (again-Blind b)
  show-Read accounts user_id (resources page limit opts) db db' agree =
      answer-Read Resources.message (λ b. gets (ResourceList.list b page limit opts) >>= again)
        user_id accounts db db' agree
        λ b.
          Blind->>= b (gets (ResourceList.list b page limit opts)) again
            (resources-Blind b page limit opts) (again-Blind b)
  show-Read accounts user_id (orders page limit opts) db db' agree =
      answer-Read Orders.message (λ b. gets (OrderList.list b page limit opts) >>= again) user_id
        accounts db db' agree
        λ b.
          Blind->>= b (gets (OrderList.list b page limit opts)) again
            (orders-Blind b page limit opts) (again-Blind b)
  show-Read accounts user_id (invoices page limit opts) db db' agree =
      answer-Read Invoices.message (λ b. gets (InvoiceList.list b page limit opts) >>= again)
        user_id accounts db db' agree
        λ b.
          Blind->>= b (gets (InvoiceList.list b page limit opts)) again
            (invoices-Blind b page limit opts) (again-Blind b)
  show-Read accounts user_id (appointments from to) db db' agree =
      answer-Read Appointments.message (λ b. AppointmentService.list b from to) user_id accounts db
        db' agree λ b. appointments-Blind b from to
  show-Read accounts user_id (adjustments id page limit) db db' agree =
      answer-Read Resources.message (λ b. ResourceList.list_adjustments b id page limit >>= again)
        user_id accounts db db' agree
        λ b.
          Blind->>= b (ResourceList.list_adjustments b id page limit) again
            (adjustments-Blind b id page limit) (again-Blind b)
  show-Read accounts user_id (customer id) db db' agree =
      answer-Read Customers.message (λ b. CustomerService.get_by_id b id) user_id accounts db db'
        agree λ b. customer-Blind b id
  show-Read accounts user_id (resource id) db db' agree =
      answer-Read Resources.message (λ b. ResourceService.get_by_id b id) user_id accounts db db'
        agree λ b. resource-Blind b id
  show-Read accounts user_id (order id) db db' agree =
      answer-Read Orders.message (λ b. OrderService.get_by_id b id) user_id accounts db db' agree
        λ b. order-Blind b id
  show-Read accounts user_id (invoice id) db db' agree =
      answer-Read Invoices.message (λ b. InvoiceService.get_by_id b id) user_id accounts db db'
        agree λ b. invoice-Blind b id
  show-Read accounts user_id (appointment id) db db' agree =
      answer-Read Appointments.message (λ b. AppointmentService.get_by_id b id) user_id accounts db
        db' agree λ b. appointment-Blind b id
