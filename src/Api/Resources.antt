-- ===== src/Api/Resources.antt =====
-- src/resource/application/resource.controller.ts.
use ventura_api.Common.{String, Uuid, Option}
use ventura_api.Common.Int.{ℤ}
use ventura_api.Common.Action.{◌>>=◌, gets}
use ventura_api.Paging.{Paginated}
use ventura_api.Resource.Entity.{Resource, StockAdjustment}
use ventura_api.Resource.Repository.{CreateResource, UpdateResource}
use ventura_api.Resource.Service
use ventura_api.Resource.Listing
use ventura_api.Accounts.{Accounts}
use ventura_api.Db as Shop
use ventura_api.Db.{Env}
use ventura_api.Api.{resolve_business_id, answer, again}

abbrev pub message : String
message = "You must create a business before managing resources."

module _ {F : Type 0} where
  unfoldable pub create : Env → Accounts → Uuid → CreateResource F → Shop.Service F (Resource F)
  unfolding resolve_business_id Service.create
  create env accounts user_id dto =
      answer (λ b. Service.create env b dto) (resolve_business_id message user_id accounts)

  unfoldable pub adjust_stock :
      Env → Accounts → Uuid → Uuid → Service.StockAdjustmentDto → Shop.Service F StockAdjustment
  unfolding resolve_business_id Service.adjust_stock
  adjust_stock env accounts user_id id dto =
      answer (λ b. Service.adjust_stock env b id dto user_id)
        (resolve_business_id message user_id accounts)

  unfoldable pub update : Accounts → Uuid → Uuid → UpdateResource F → Shop.Service F (Resource F)
  unfolding resolve_business_id Service.update
  update accounts user_id id dto =
      answer (λ b. Service.update b id dto) (resolve_business_id message user_id accounts)

  unfoldable pub delete : Accounts → Uuid → Uuid → Shop.Service F (Resource F)
  unfolding resolve_business_id Service.delete
  delete accounts user_id id =
      answer (λ b. Service.delete b id) (resolve_business_id message user_id accounts)

  unfoldable pub list :
      Accounts
      → Uuid
      → Option ℤ
      → Option ℤ
      → Listing.ListResources
      → Shop.Service F (Paginated (Resource F))
  unfolding resolve_business_id Listing.list again
  list accounts user_id page limit opts =
      answer (λ b. gets (Listing.list b page limit opts) >>= again)
        (resolve_business_id message user_id accounts)

  unfoldable pub get_by_id : Accounts → Uuid → Uuid → Shop.Service F (Resource F)
  unfolding resolve_business_id Service.get_by_id
  get_by_id accounts user_id id =
      answer (λ b. Service.get_by_id b id) (resolve_business_id message user_id accounts)

  unfoldable pub list_adjustments :
      Accounts → Uuid → Uuid → Option ℤ → Option ℤ → Shop.Service F (Paginated StockAdjustment)
  unfolding resolve_business_id Listing.list_adjustments again
  list_adjustments accounts user_id id page limit =
      answer (λ b. Listing.list_adjustments b id page limit >>= again)
        (resolve_business_id message user_id accounts)
