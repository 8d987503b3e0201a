-- ===== src/Api/Orders.antt =====
-- src/order/application/order.controller.ts.
use ventura_api.Common.{String, List, Uuid, Option}
use ventura_api.Common.Int.{ℤ}
use ventura_api.Common.Action.{◌>>=◌, gets}
use ventura_api.Paging.{Paginated}
use ventura_api.Number.{Number}
use ventura_api.Order.Entity.{OrderStatus, Order}
use ventura_api.Order.Service
use ventura_api.Order.Items
use ventura_api.Order.Status
use ventura_api.Order.Listing
use ventura_api.Accounts.{Accounts}
use ventura_api.Db as Shop
use ventura_api.Db.{Env}
use ventura_api.Api.{resolve_business_id, answer, again}

abbrev pub message : String
message = "You must create a business before managing orders."

module _ {F : Type 0} ⦃num : Number F⦄ where
  unfoldable pub create : Env → Accounts → Uuid → Service.CreateOrderDto → Shop.Service F (Order F)
  unfolding resolve_business_id Service.create
  create env accounts user_id dto =
      answer (λ b. Service.create env b dto) (resolve_business_id message user_id accounts)

  unfoldable pub update_items :
      Env → Accounts → Uuid → Uuid → List Service.CreateOrderItem → Shop.Service F (Order F)
  unfolding resolve_business_id Items.update_items
  update_items env accounts user_id id items =
      answer (λ b. Items.update_items env b id items) (resolve_business_id message user_id accounts)

  unfoldable pub update_status :
      Env → Accounts → Uuid → Uuid → OrderStatus → Shop.Service F (Order F)
  unfolding resolve_business_id Status.update_status
  update_status env accounts user_id id status =
      answer (λ b. Status.update_status env b id status)
        (resolve_business_id message user_id accounts)

module _ {F : Type 0} where
  unfoldable pub list :
      Accounts
      → Uuid
      → Option ℤ
      → Option ℤ
      → Listing.ListOrders
      → Shop.Service F (Paginated (Order F))
  unfolding resolve_business_id Listing.list again
  list accounts user_id page limit opts =
      answer (λ b. gets (Listing.list b page limit opts) >>= again)
        (resolve_business_id message user_id accounts)

  unfoldable pub get_by_id : Accounts → Uuid → Uuid → Shop.Service F (Order F)
  unfolding resolve_business_id Service.get_by_id
  get_by_id accounts user_id id =
      answer (λ b. Service.get_by_id b id) (resolve_business_id message user_id accounts)
