-- ===== src/Tenancy/Isolated.antt =====
-- The requests to the controllers of src/ that change a table of the shop, and the rows of a business
-- whose users send none of them.
use ventura_api.Common.{false, ◌≡◌, List, [], ◌∷◌, Uuid}
use ventura_api.Number.{Number}
use ventura_api.Accounts.{Accounts}
use ventura_api.User.Repository.{find_by_id}
use ventura_api.Db.{Db, Env}
use ventura_api.Resource.Repository.{CreateResource, UpdateResource}
use ventura_api.Resource.Service as ResourceService
use ventura_api.Resource.Service.{StockAdjustmentDto}
use ventura_api.Customer.Repository.{CreateCustomer, UpdateCustomer}
use ventura_api.Customer.Service as CustomerService
use ventura_api.Order.Entity.{OrderStatus}
use ventura_api.Order.Service as OrderService
use ventura_api.Order.Service.{CreateOrderItem, CreateOrderDto}
use ventura_api.Order.Items as OrderItems
use ventura_api.Order.Status as OrderStatuses
use ventura_api.Invoice.Entity.{InvoiceStatus}
use ventura_api.Invoice.Service as InvoiceService
use ventura_api.Invoice.Service.{CreateInvoiceDto}
use ventura_api.Invoice.Lifecycle as InvoiceLifecycle
use ventura_api.Invoice.Lifecycle.{RecordPaymentDto, SendInvoiceDto}
use ventura_api.Appointment.Entity.{AppointmentStatus}
use ventura_api.Appointment.Service as AppointmentService
use ventura_api.Appointment.Service.{CreateAppointmentDto, UpdateAppointmentDto}
use ventura_api.Api.{is_of, business_in, answer-Keeps}
use ventura_api.Api.Customers
use ventura_api.Api.Resources
use ventura_api.Api.Orders
use ventura_api.Api.Invoices
use ventura_api.Api.Appointments
use ventura_api.Tenancy.{Same, Same-refl, Same-trans}
use ventura_api.Tenancy.Sales.{
  customers_create-Same, bulk_create-Same, customers_update-Same, customers_delete-Same,
  resources_create-Same, adjust_stock-Same, resources_update-Same, resources_delete-Same,
  orders_create-Same, update_items-Same, update_status-Same, appointments_create-Same,
  appointments_update-Same, appointments_update_status-Same, appointments_delete-Same,
}
use ventura_api.Tenancy.Bills.{
  invoices_create-Same, record_payment-Same, send-Same, invoices_update_status-Same,
}

pub data Request (F : Type 0) : Type 0 where
  create_customer : CreateCustomer → Request F
  import_customers : List CreateCustomer → Request F
  update_customer : Uuid → UpdateCustomer → Request F
  delete_customer : Uuid → Request F
  create_resource : CreateResource F → Request F
  adjust_stock : Uuid → StockAdjustmentDto → Request F
  update_resource : Uuid → UpdateResource F → Request F
  delete_resource : Uuid → Request F
  create_order : CreateOrderDto → Request F
  update_order_items : Uuid → List CreateOrderItem → Request F
  update_order_status : Uuid → OrderStatus → Request F
  create_invoice : CreateInvoiceDto → Request F
  record_payment : Uuid → RecordPaymentDto F → Request F
  send_invoice : Uuid → SendInvoiceDto → Request F
  update_invoice_status : Uuid → InvoiceStatus → Request F
  create_appointment : CreateAppointmentDto → Request F
  update_appointment : Uuid → UpdateAppointmentDto → Request F
  update_appointment_status : Uuid → AppointmentStatus → Request F
  delete_appointment : Uuid → Request F

module _ {F : Type 0} ⦃num : Number F⦄ where
  -- the database after a request of a user
  abbrev pub handle : Env → Accounts → Uuid → Request F → Db F → Db F
  handle env accounts user_id (create_customer dto) db =
      (Customers.create env accounts user_id dto db).1
  handle env accounts user_id (import_customers dtos) db =
      (Customers.import_customers env accounts user_id dtos db).1
  handle env accounts user_id (update_customer id dto) db =
      (Customers.update accounts user_id id dto db).1
  handle env accounts user_id (delete_customer id) db = (Customers.delete accounts user_id id db).1
  handle env accounts user_id (create_resource dto) db =
      (Resources.create env accounts user_id dto db).1
  handle env accounts user_id (adjust_stock id dto) db =
      (Resources.adjust_stock env accounts user_id id dto db).1
  handle env accounts user_id (update_resource id dto) db =
      (Resources.update accounts user_id id dto db).1
  handle env accounts user_id (delete_resource id) db = (Resources.delete accounts user_id id db).1
  handle env accounts user_id (create_order dto) db = (Orders.create env accounts user_id dto db).1
  handle env accounts user_id (update_order_items id items) db =
      (Orders.update_items env accounts user_id id items db).1
  handle env accounts user_id (update_order_status id status) db =
      (Orders.update_status env accounts user_id id status db).1
  handle env accounts user_id (create_invoice dto) db =
      (Invoices.create env accounts user_id dto db).1
  handle env accounts user_id (record_payment id dto) db =
      (Invoices.record_payment env accounts user_id id dto db).1
  handle env accounts user_id (send_invoice id dto) db =
      (Invoices.send env accounts user_id id dto db).1
  handle env accounts user_id (update_invoice_status id status) db =
      (Invoices.update_status env accounts user_id id status db).1
  handle env accounts user_id (create_appointment dto) db =
      (Appointments.create env accounts user_id dto db).1
  handle env accounts user_id (update_appointment id dto) db =
      (Appointments.update accounts user_id id dto db).1
  handle env accounts user_id (update_appointment_status id status) db =
      (Appointments.update_status accounts user_id id status db).1
  handle env accounts user_id (delete_appointment id) db =
      (Appointments.delete accounts user_id id db).1

  -- Requests, each in the environment and with the accounts of its time, and the users that sent them.
  abbrev pub run : List (Env × Accounts × Uuid × Request F) → Db F → Db F
  run [] db = db
  run ((env, accounts, user_id, request) ∷ requests) db =
      run requests (handle env accounts user_id request db)

  -- no request is of a user of the business
  abbrev pub Outside : Uuid → List (Env × Accounts × Uuid × Request F) → Type 0
  Outside c [] = Unit
  Outside c ((env, accounts, user_id, request) ∷ requests) =
      (is_of c (business_in (find_by_id user_id accounts)) ≡ false) × Outside c requests

  handle-Same :
      (c : Uuid) (env : Env) (accounts : Accounts) (user_id : Uuid) (request : Request F)
      (db : Db F)
      → is_of c (business_in (find_by_id user_id accounts)) ≡ false
      → Same c db (handle env accounts user_id request db)
  unfolding Appointments.create Appointments.delete Appointments.update Appointments.update_status
      Customers.create Customers.delete Customers.import_customers Customers.update Invoices.create
      Invoices.record_payment Invoices.send Invoices.update_status Orders.create Orders.update_items
      Orders.update_status Resources.adjust_stock Resources.create Resources.delete Resources.update
  handle-Same c env accounts user_id (create_customer dto) db outside =
      (answer-Keeps (Same c db) c Customers.message (λ b. CustomerService.create env b dto) user_id
          accounts outside (λ b apart. customers_create-Same b c apart db env dto)).at
        db (Same-refl c db)
  handle-Same c env accounts user_id (import_customers dtos) db outside =
      (answer-Keeps (Same c db) c Customers.message (λ b. CustomerService.bulk_create env b dtos)
          user_id accounts outside (λ b apart. bulk_create-Same b c apart db env dtos)).at
        db (Same-refl c db)
  handle-Same c env accounts user_id (update_customer id dto) db outside =
      (answer-Keeps (Same c db) c Customers.message (λ b. CustomerService.update b id dto) user_id
          accounts outside (λ b apart. customers_update-Same b c apart db id dto)).at
        db (Same-refl c db)
  handle-Same c env accounts user_id (delete_customer id) db outside =
      (answer-Keeps (Same c db) c Customers.message (λ b. CustomerService.delete b id) user_id
          accounts outside (λ b apart. customers_delete-Same b c apart db id)).at
        db (Same-refl c db)
  handle-Same c env accounts user_id (create_resource dto) db outside =
      (answer-Keeps (Same c db) c Resources.message (λ b. ResourceService.create env b dto) user_id
          accounts outside (λ b apart. resources_create-Same b c apart db env dto)).at
        db (Same-refl c db)
  handle-Same c env accounts user_id (adjust_stock id dto) db outside =
      (answer-Keeps (Same c db) c Resources.message
          (λ b. ResourceService.adjust_stock env b id dto user_id) user_id accounts outside
          (λ b apart. adjust_stock-Same b c apart db env id dto user_id)).at
        db (Same-refl c db)
  handle-Same c env accounts user_id (update_resource id dto) db outside =
      (answer-Keeps (Same c db) c Resources.message (λ b. ResourceService.update b id dto) user_id
          accounts outside (λ b apart. resources_update-Same b c apart db id dto)).at
        db (Same-refl c db)
  handle-Same c env accounts user_id (delete_resource id) db outside =
      (answer-Keeps (Same c db) c Resources.message (λ b. ResourceService.delete b id) user_id
          accounts outside (λ b apart. resources_delete-Same b c apart db id)).at
        db (Same-refl c db)
  handle-Same c env accounts user_id (create_order dto) db outside =
      (answer-Keeps (Same c db) c Orders.message (λ b. OrderService.create env b dto) user_id
          accounts outside (λ b apart. orders_create-Same b c apart db env dto)).at
        db (Same-refl c db)
  handle-Same c env accounts user_id (update_order_items id items) db outside =
      (answer-Keeps (Same c db) c Orders.message (λ b. OrderItems.update_items env b id items)
          user_id accounts outside (λ b apart. update_items-Same b c apart db env id items)).at
        db (Same-refl c db)
  handle-Same c env accounts user_id (update_order_status id status) db outside =
      (answer-Keeps (Same c db) c Orders.message (λ b. OrderStatuses.update_status env b id status)
          user_id accounts outside (λ b apart. update_status-Same b c apart db env id status)).at
        db (Same-refl c db)
  handle-Same c env accounts user_id (create_invoice dto) db outside =
      (answer-Keeps (Same c db) c Invoices.message (λ b. InvoiceService.create env b dto) user_id
          accounts outside (λ b apart. invoices_create-Same b c apart db env dto)).at
        db (Same-refl c db)
  handle-Same c env accounts user_id (record_payment id dto) db outside =
      (answer-Keeps (Same c db) c Invoices.message
          (λ b. InvoiceLifecycle.record_payment env b id dto) user_id accounts outside
          (λ b apart. record_payment-Same b c apart db env id dto)).at
        db (Same-refl c db)
  handle-Same c env accounts user_id (send_invoice id dto) db outside =
      (answer-Keeps (Same c db) c Invoices.message (λ b. InvoiceLifecycle.send env b id dto) user_id
          accounts outside (λ b apart. send-Same b c apart db env id dto)).at
        db (Same-refl c db)
  handle-Same c env accounts user_id (update_invoice_status id status) db outside =
      (answer-Keeps (Same c db) c Invoices.message
          (λ b. InvoiceLifecycle.update_status env b id status) user_id accounts outside
          (λ b apart. invoices_update_status-Same b c apart db env id status)).at
        db (Same-refl c db)
  handle-Same c env accounts user_id (create_appointment dto) db outside =
      (answer-Keeps (Same c db) c Appointments.message
          (λ b. AppointmentService.create env b user_id dto) user_id accounts outside
          (λ b apart. appointments_create-Same b c apart db env user_id dto)).at
        db (Same-refl c db)
  handle-Same c env accounts user_id (update_appointment id dto) db outside =
      (answer-Keeps (Same c db) c Appointments.message (λ b. AppointmentService.update b id dto)
          user_id accounts outside (λ b apart. appointments_update-Same b c apart db id dto)).at
        db (Same-refl c db)
  handle-Same c env accounts user_id (update_appointment_status id status) db outside =
      (answer-Keeps (Same c db) c Appointments.message
          (λ b. AppointmentService.update_status b id status) user_id accounts outside
          (λ b apart. appointments_update_status-Same b c apart db id status)).at
        db (Same-refl c db)
  handle-Same c env accounts user_id (delete_appointment id) db outside =
      (answer-Keeps (Same c db) c Appointments.message (λ b. AppointmentService.delete b id) user_id
          accounts outside (λ b apart. appointments_delete-Same b c apart db id)).at
        db (Same-refl c db)

  -- Requests to the controllers, in any number and order and with any outcome, leave every row of a
  -- business as it is, if each of them is sent by a user who is unknown, has no business or belongs to
  -- another one.
  pub run-Same :
      (c : Uuid) (requests : List (Env × Accounts × Uuid × Request F)) (db : Db F)
      → Outside c requests
      → Same c db (run requests db)
  run-Same c [] db outside = Same-refl c db
  run-Same c ((env, accounts, user_id, request) ∷ requests) db (first, rest) =
      let next = handle env accounts user_id request db in
      Same-trans c db next (run requests next) (handle-Same c env accounts user_id request db first)
        (run-Same c requests next rest)
