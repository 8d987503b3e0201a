-- ===== src/Api/Customers.antt =====
-- src/customer/application/customer.controller.ts.
use ventura_api.Common.{String, List, Uuid, Option}
use ventura_api.Common.Int.{ℤ}
use ventura_api.Common.Action.{◌>>=◌}
use ventura_api.Paging.{Paginated}
use ventura_api.Customer.Entity.{Customer}
use ventura_api.Customer.Repository.{CreateCustomer, UpdateCustomer}
use ventura_api.Customer.Service
use ventura_api.Accounts.{Accounts}
use ventura_api.Db as Shop
use ventura_api.Db.{Env}
use ventura_api.Api.{resolve_business_id, answer, again}

abbrev pub message : String
message = "You must create a business before managing customers."

module _ {F : Type 0} where
  unfoldable pub create : Env → Accounts → Uuid → CreateCustomer → Shop.Service F Customer
  unfolding resolve_business_id Service.create
  create env accounts user_id dto =
      answer (λ b. Service.create env b dto) (resolve_business_id message user_id accounts)

  unfoldable pub import_customers :
      Env → Accounts → Uuid → List CreateCustomer → Shop.Service F Service.BulkImportResult
  unfolding resolve_business_id Service.bulk_create
  import_customers env accounts user_id customers =
      answer (λ b. Service.bulk_create env b customers)
        (resolve_business_id message user_id accounts)

  unfoldable pub update : Accounts → Uuid → Uuid → UpdateCustomer → Shop.Service F Customer
  unfolding resolve_business_id Service.update
  update accounts user_id id dto =
      answer (λ b. Service.update b id dto) (resolve_business_id message user_id accounts)

  unfoldable pub delete : Accounts → Uuid → Uuid → Shop.Service F Customer
  unfolding resolve_business_id Service.delete
  delete accounts user_id id =
      answer (λ b. Service.delete b id) (resolve_business_id message user_id accounts)

  unfoldable pub list :
      Accounts → Uuid → Option ℤ → Option ℤ → Option String → Shop.Service F (Paginated Customer)
  unfolding resolve_business_id Service.list again
  list accounts user_id page limit q =
      answer (λ b. Service.list b page limit q >>= again)
        (resolve_business_id message user_id accounts)

  unfoldable pub get_by_id : Accounts → Uuid → Uuid → Shop.Service F Customer
  unfolding resolve_business_id Service.get_by_id
  get_by_id accounts user_id id =
      answer (λ b. Service.get_by_id b id) (resolve_business_id message user_id accounts)
