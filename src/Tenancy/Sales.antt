-- ===== src/Tenancy/Sales.antt =====
-- The calls of src/customer, src/resource, src/order and src/appointment and the rows of another
-- business.
use ventura_api.Common.{Bool, false, ℕ, ◌≡◌, List, [], ◌∷◌, Option, none, some, String, Uuid, ◌==◌}
use mathlib.Core.Path.{subst, sym}
use ventura_api.Common.Keeps.{Keeps, Keeps->>=, Keeps-pure, keeps_rules}
use ventura_api.Number.{Number}
use ventura_api.Db.{Db, Env}
use ventura_api.Tenancy.{Same}
use ventura_api.Tenancy.Rows.{
  resource_row-Same, resource_removed-Same, resource-Same, customer_row-Same, customer_removed-Same,
  customer-Same, appointment_row-Same, appointment_removed-Same,
}
use ventura_api.Tenancy.Writes.{
  appointment-Same, order_row-Same, order-Same, record_adjustment-Same, delete_object-Same,
}
use ventura_api.Resource.Repository as Stock
use ventura_api.Resource.Service as Resources
use ventura_api.Resource.Service.{StockAdjustmentDto}
use ventura_api.Customer.Repository.{CreateCustomer, UpdateCustomer}
use ventura_api.Customer.Service as Customers
use ventura_api.Order.Entity.{OrderStatus}
use ventura_api.Order.Service.{CreateOrderItem, CreateOrderDto, create}
use ventura_api.Order.Status.{update_status}
use ventura_api.Order.Items.{update_items}
use ventura_api.Order.Kept.{
  adjust_stock-Keeps, update_status-Keeps, create-Keeps, update_items-Keeps,
}
use ventura_api.Appointment.Entity.{Invitee, AppointmentStatus}
use ventura_api.Appointment.Service as Appointments
use ventura_api.Appointment.Service.{CreateAppointmentDto, UpdateAppointmentDto}

module _ {F : Type 0} (b c : Uuid) (apart : (b == c) ≡ false) (old : Db F) where
  -- of the business b
  apart_from : (x : Uuid) → x ≡ b → (x == c) ≡ false
  apart_from x e = subst (λ y. (y == c) ≡ false) (sym e) apart

  pub customers_create-Same :
      (env : Env) (dto : CreateCustomer) → Keeps (Same c old) (Customers.create env b dto)
  unfolding Customers.create
  customers_create-Same env dto = search (keeps_rules, customer-Same b c apart old) depth 10

  import_rows-Same :
      (env : Env) (n : ℕ) (flags : List Bool) (dtos : List CreateCustomer)
      (result : Customers.BulkImportResult)
      → Keeps (Same c old) (Customers.import_rows env b n flags dtos result)
  unfolding Customers.import_rows Customers.import_row Customers.insert_row
  import_rows-Same env n flags [] result = Keeps-pure result
  import_rows-Same env n [] (dto ∷ dtos) result = Keeps-pure result
  import_rows-Same env n (d ∷ flags) (dto ∷ dtos) result =
      Keeps->>= (Customers.import_row env b n d dto result)
        (λ r. Customers.import_rows env b _ flags dtos r)
        (search (keeps_rules, customer-Same b c apart old) depth 14)
        (λ r. import_rows-Same env _ flags dtos r)

  pub bulk_create-Same :
      (env : Env) (dtos : List CreateCustomer)
      → Keeps (Same c old) (Customers.bulk_create env b dtos)
  unfolding Customers.bulk_create
  bulk_create-Same env dtos =
      import_rows-Same env 0 (Customers.batch_duplicates [] dtos) dtos
        (record { created = []; skipped = []; failed = [] })

  pub customers_update-Same :
      (id : Uuid) (dto : UpdateCustomer) → Keeps (Same c old) (Customers.update b id dto)
  unfolding Customers.update Customers.get_by_id
  customers_update-Same id dto = search (keeps_rules, customer_row-Same b c apart old) depth 14

  pub customers_delete-Same : (id : Uuid) → Keeps (Same c old) (Customers.delete b id)
  unfolding Customers.delete
  customers_delete-Same id = search (keeps_rules, customer_removed-Same b c apart old) depth 10

  pub resources_create-Same :
      (env : Env) (dto : Stock.CreateResource F) → Keeps (Same c old) (Resources.create env b dto)
  unfolding Resources.create Resources.assert_fields_match_type
  resources_create-Same env dto = search (keeps_rules, resource-Same b c apart old) depth 20

  delete_objects-Same : (keys : List String) → Keeps (Same c old) (Resources.delete_objects keys)
  unfolding Resources.delete_objects
  delete_objects-Same [] = Keeps-pure tt
  delete_objects-Same (k ∷ keys) =
      Keeps->>= (Resources.delete_object k) (λ _. Resources.delete_objects keys)
        (delete_object-Same c old k) (λ _. delete_objects-Same keys)

  drop_supporting-Same :
      (keys : List String) (new : Option (List String))
      → Keeps (Same c old) (Resources.drop_supporting keys new)
  unfolding Resources.drop_supporting
  drop_supporting-Same keys none = Keeps-pure tt
  drop_supporting-Same keys (some new) = delete_objects-Same (Resources.removed_keys keys new)

  pub resources_update-Same :
      (id : Uuid) (dto : Stock.UpdateResource F) → Keeps (Same c old) (Resources.update b id dto)
  unfolding Resources.update Resources.assert_fields_match_type Resources.get_by_id
      Resources.drop_primary
  resources_update-Same id dto =
      search
        (
          keeps_rules,
          resource_row-Same b c apart old,
          delete_object-Same c old,
          drop_supporting-Same,
        )
        depth 30

  pub resources_delete-Same : (id : Uuid) → Keeps (Same c old) (Resources.delete b id)
  unfolding Resources.delete
  resources_delete-Same id = search (keeps_rules, resource_removed-Same b c apart old) depth 10

  pub adjust_stock-Same :
      (env : Env) (id : Uuid) (dto : StockAdjustmentDto) (by : Uuid)
      → Keeps (Same c old) (Resources.adjust_stock env b id dto by)
  adjust_stock-Same =
      adjust_stock-Keeps (Same c old) b
        (λ e d own. record_adjustment-Same c old e d (apart_from d.business_id own))
        (order_row-Same b c apart old)
        (λ e d own. order-Same c old e d (apart_from d.business_id own))

  pub update_status-Same :
      (env : Env) (id : Uuid) (status : OrderStatus)
      → Keeps (Same c old) (update_status env b id status)
  update_status-Same =
      update_status-Keeps (Same c old) b
        (λ e d own. record_adjustment-Same c old e d (apart_from d.business_id own))
        (order_row-Same b c apart old)
        (λ e d own. order-Same c old e d (apart_from d.business_id own))

  validate_invitee-Same :
      (i : Invitee) → Keeps (Same c old) (Appointments.validate_invitee {F = F} b i)
  unfolding Appointments.validate_invitee Customers.get_by_id
  validate_invitee-Same i = go i.customer_id
    where
      go :
          (o : Option Uuid)
          → Keeps
              (Same c old)
              (Appointments.validate_invitee {F = F} b (record i { customer_id = o }))
      go none = Keeps-pure tt
      go (some x) = search keeps_rules depth 14

  validate_invitees-Same :
      (is : List Invitee) → Keeps (Same c old) (Appointments.validate_invitees {F = F} b is)
  unfolding Appointments.validate_invitees
  validate_invitees-Same [] = Keeps-pure tt
  validate_invitees-Same (i ∷ is) =
      Keeps->>= (Appointments.validate_invitee b i) (λ _. Appointments.validate_invitees b is)
        (validate_invitee-Same i) (λ _. validate_invitees-Same is)

  pub appointments_create-Same :
      (env : Env) (by : Uuid) (dto : CreateAppointmentDto)
      → Keeps (Same c old) (Appointments.create env b by dto)
  unfolding Appointments.create
  appointments_create-Same env by dto =
      search (keeps_rules, validate_invitees-Same, appointment-Same c old) depth 14

  pub appointments_update-Same :
      (id : Uuid) (dto : UpdateAppointmentDto) → Keeps (Same c old) (Appointments.update b id dto)
  unfolding Appointments.update Appointments.get_by_id
  appointments_update-Same id dto =
      search (keeps_rules, validate_invitees-Same, appointment_row-Same b c apart old) depth 20

  pub appointments_update_status-Same :
      (id : Uuid) (status : AppointmentStatus)
      → Keeps (Same c old) (Appointments.update_status b id status)
  unfolding Appointments.update_status Appointments.get_by_id
  appointments_update_status-Same id status =
      search (keeps_rules, appointment_row-Same b c apart old) depth 14

  pub appointments_delete-Same : (id : Uuid) → Keeps (Same c old) (Appointments.delete b id)
  unfolding Appointments.delete
  appointments_delete-Same id =
      search (keeps_rules, appointment_removed-Same b c apart old) depth 10

module _ {F : Type 0} ⦃num : Number F⦄ (b c : Uuid) (apart : (b == c) ≡ false) (old : Db F) where
  pub orders_create-Same :
      (env : Env) (dto : CreateOrderDto) → Keeps (Same c old) (create env b dto)
  orders_create-Same =
      create-Keeps (Same c old) b
        (λ e d own. record_adjustment-Same c old e d (apart_from b c apart old d.business_id own))
        (order_row-Same b c apart old)
        (λ e d own. order-Same c old e d (apart_from b c apart old d.business_id own))

  pub update_items-Same :
      (env : Env) (id : Uuid) (lines : List CreateOrderItem)
      → Keeps (Same c old) (update_items env b id lines)
  update_items-Same =
      update_items-Keeps (Same c old) b
        (λ e d own. record_adjustment-Same c old e d (apart_from b c apart old d.business_id own))
        (order_row-Same b c apart old)
        (λ e d own. order-Same c old e d (apart_from b c apart old d.business_id own))
