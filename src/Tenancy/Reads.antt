-- ===== src/Tenancy/Reads.antt =====
-- The reading calls of the services of src/ and the rows of one business.
use ventura_api.Common.{refl, ap, Option, some, String, [], ◌∷◌, Uuid, Time, ◌==◌, ◌&&◌}
use ventura_api.Common.Int.{ℤ}
use ventura_api.Common.Like.{searched}
use ventura_api.Common.Action.{gets, or_raise, not_found}
use ventura_api.Paging.{Paginated, paged}
use ventura_api.Tenancy.Blind.{
  Blind, Blind-pure, Blind-or_raise, Blind-gets, Blind->>=, same_filter, same_find,
}
use ventura_api.Resource.Repository as Stock
use ventura_api.Resource.Service as Resources
use ventura_api.Resource.Listing as ResourceList
use ventura_api.Customer.Repository as CustomerRows
use ventura_api.Customer.Service as Customers
use ventura_api.Order.Repository as OrderRows
use ventura_api.Order.Service as Orders
use ventura_api.Order.Listing as OrderList
use ventura_api.Invoice.Repository as InvoiceRows
use ventura_api.Invoice.Service as Invoices
use ventura_api.Invoice.Listing as InvoiceList
use ventura_api.Appointment.Repository as AppointmentRows
use ventura_api.Appointment.Service as Appointments
use ventura_api.Api.{again}

module _ {F : Type 0} (b : Uuid) where
  pub again-Blind : {T : Type 0} (page : Paginated T) → Blind {F = F} b (again page)
  unfolding again
  again-Blind page = Blind-pure b _

  pub customer-Blind : (id : Uuid) → Blind {F = F} b (Customers.get_by_id b id)
  unfolding Customers.get_by_id
  customer-Blind id =
      Blind->>= b (gets (CustomerRows.find_by_id b id))
        (λ o. or_raise o (not_found "Customer not found."))
        (Blind-gets b (CustomerRows.find_by_id b id) λ db db' same.
          same_find (λ x. x.business_id == b) (λ x. x.id == id) db.customers db'.customers
            same.customers)
        (λ o. Blind-or_raise b o (not_found "Customer not found."))

  pub resource-Blind : (id : Uuid) → Blind {F = F} b (Resources.get_by_id b id)
  unfolding Resources.get_by_id
  resource-Blind id =
      Blind->>= b (gets (Stock.find_by_id b id)) (λ o. or_raise o (not_found "Resource not found."))
        (Blind-gets b (Stock.find_by_id b id) λ db db' same.
          same_find (λ x. x.business_id == b) (λ x. x.id == id) db.resources db'.resources
            same.resources)
        (λ o. Blind-or_raise b o (not_found "Resource not found."))

  pub order-Blind : (id : Uuid) → Blind {F = F} b (Orders.get_by_id b id)
  unfolding Orders.get_by_id
  order-Blind id =
      Blind->>= b (gets (OrderRows.find_by_id b id))
        (λ o. or_raise o (not_found "Order not found."))
        (Blind-gets b (OrderRows.find_by_id b id) λ db db' same.
          same_find (λ x. x.business_id == b) (λ x. x.id == id) db.orders db'.orders same.orders)
        (λ o. Blind-or_raise b o (not_found "Order not found."))

  pub invoice-Blind : (id : Uuid) → Blind {F = F} b (Invoices.get_by_id b id)
  unfolding Invoices.get_by_id
  invoice-Blind id =
      Blind->>= b (gets (InvoiceRows.find_by_id b id))
        (λ o. or_raise o (not_found "Invoice not found."))
        (Blind-gets b (InvoiceRows.find_by_id b id) λ db db' same.
          same_find (λ x. x.business_id == b) (λ x. x.id == id) db.invoices db'.invoices
            same.invoices)
        (λ o. Blind-or_raise b o (not_found "Invoice not found."))

  pub appointment-Blind : (id : Uuid) → Blind {F = F} b (Appointments.get_by_id b id)
  unfolding Appointments.get_by_id
  appointment-Blind id =
      Blind->>= b (gets (AppointmentRows.find_by_id b id))
        (λ o. or_raise o (not_found "Appointment not found."))
        (Blind-gets b (AppointmentRows.find_by_id b id) λ db db' same.
          same_find (λ x. x.business_id == b) (λ x. x.id == id) db.appointments db'.appointments
            same.appointments)
        (λ o. Blind-or_raise b o (not_found "Appointment not found."))

  pub customers-Blind :
      (page limit : Option ℤ) (q : Option String) → Blind {F = F} b (Customers.list b page limit q)
  unfolding Customers.list CustomerRows.listed
  customers-Blind page limit q = Blind-gets {F = F} b _ λ db db' same. ap (paged page limit) (
      same_filter (λ x. x.business_id == b)
        (λ x. x.business_id == b && searched q (some x.name ∷ x.email ∷ x.phone ∷ []))
        (λ x h. rw h refl) db.customers db'.customers same.customers)

  pub resources-Blind :
      (page limit : Option ℤ) (opts : ResourceList.ListResources)
      → Blind {F = F} b (gets (ResourceList.list b page limit opts))
  unfolding ResourceList.list ResourceList.listed
  resources-Blind page limit opts = Blind-gets {F = F} b _ λ db db' same. ap (paged page limit) (
      same_filter (λ x. x.business_id == b) (ResourceList.is_listed b opts) (λ x h. rw h refl)
        db.resources db'.resources same.resources)

  pub orders-Blind :
      (page limit : Option ℤ) (opts : OrderList.ListOrders)
      → Blind {F = F} b (gets (OrderList.list b page limit opts))
  unfolding OrderList.list OrderList.listed
  orders-Blind page limit opts = Blind-gets {F = F} b _ λ db db' same. ap (paged page limit) (
      same_filter (λ x. x.business_id == b) (OrderList.is_listed b opts) (λ x h. rw h refl)
        db.orders db'.orders same.orders)

  pub invoices-Blind :
      (page limit : Option ℤ) (opts : InvoiceList.ListInvoices)
      → Blind {F = F} b (gets (InvoiceList.list b page limit opts))
  unfolding InvoiceList.list InvoiceList.listed
  invoices-Blind page limit opts = Blind-gets {F = F} b _ λ db db' same. ap (paged page limit) (
      same_filter (λ x. x.business_id == b) (InvoiceList.is_listed b opts) (λ x h. rw h refl)
        db.invoices db'.invoices same.invoices)

  pub adjustments-Blind :
      (id : Uuid) (page limit : Option ℤ)
      → Blind {F = F} b (ResourceList.list_adjustments b id page limit)
  unfolding ResourceList.list_adjustments
  adjustments-Blind id page limit =
      Blind->>= b (Resources.get_by_id b id) _ (resource-Blind id) λ _.
        Blind-gets {F = F} b _ λ db db' same. ap (paged page limit) (
          same_filter (λ x. x.business_id == b) (λ x. x.business_id == b && x.resource_id == id)
            (λ x h. rw h refl) db.adjustments db'.adjustments same.adjustments)

  pub appointments-Blind : (from to : Option Time) → Blind {F = F} b (Appointments.list b from to)
  unfolding Appointments.list AppointmentRows.listed
  appointments-Blind from to = Blind-gets {F = F} b _ λ db db' same. ap AppointmentRows.by_start (
      same_filter (λ x. x.business_id == b) (AppointmentRows.is_listed b from to) (λ x h. rw h refl)
        db.appointments db'.appointments same.appointments)
