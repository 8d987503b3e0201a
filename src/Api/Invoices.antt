-- ===== src/Api/Invoices.antt =====
-- src/invoice/application/invoice.controller.ts.
use ventura_api.Common.{String, Uuid, Option}
use ventura_api.Common.Int.{ℤ}
use ventura_api.Common.Action.{◌>>=◌, gets}
use ventura_api.Paging.{Paginated}
use ventura_api.Number.{Number}
use ventura_api.Invoice.Entity.{InvoiceStatus, Invoice}
use ventura_api.Invoice.Service
use ventura_api.Invoice.Lifecycle
use ventura_api.Invoice.Listing
use ventura_api.Accounts.{Accounts}
use ventura_api.Db as Shop
use ventura_api.Db.{Env}
use ventura_api.Api.{resolve_business_id, answer, again}

abbrev pub message : String
message = "You must create a business before managing invoices."

module _ {F : Type 0} ⦃num : Number F⦄ where
  unfoldable pub create :
      Env → Accounts → Uuid → Service.CreateInvoiceDto → Shop.Service F (Invoice F)
  unfolding resolve_business_id Service.create
  create env accounts user_id dto =
      answer (λ b. Service.create env b dto) (resolve_business_id message user_id accounts)

  unfoldable pub record_payment :
      Env → Accounts → Uuid → Uuid → Lifecycle.RecordPaymentDto F → Shop.Service F (Invoice F)
  unfolding resolve_business_id Lifecycle.record_payment
  record_payment env accounts user_id id dto =
      answer (λ b. Lifecycle.record_payment env b id dto)
        (resolve_business_id message user_id accounts)

  unfoldable pub send :
      Env → Accounts → Uuid → Uuid → Lifecycle.SendInvoiceDto → Shop.Service F (Invoice F)
  unfolding resolve_business_id Lifecycle.send
  send env accounts user_id id dto =
      answer (λ b. Lifecycle.send env b id dto) (resolve_business_id message user_id accounts)

  unfoldable pub update_status :
      Env → Accounts → Uuid → Uuid → InvoiceStatus → Shop.Service F (Invoice F)
  unfolding resolve_business_id Lifecycle.update_status
  update_status env accounts user_id id status =
      answer (λ b. Lifecycle.update_status env b id status)
        (resolve_business_id message user_id accounts)

module _ {F : Type 0} where
  unfoldable pub list :
      Accounts
      → Uuid
      → Option ℤ
      → Option ℤ
      → Listing.ListInvoices
      → Shop.Service F (Paginated (Invoice F))
  unfolding resolve_business_id Listing.list again
  list accounts user_id page limit opts =
      answer (λ b. gets (Listing.list b page limit opts) >>= again)
        (resolve_business_id message user_id accounts)

  unfoldable pub get_by_id : Accounts → Uuid → Uuid → Shop.Service F (Invoice F)
  unfolding resolve_business_id Service.get_by_id
  get_by_id accounts user_id id =
      answer (λ b. Service.get_by_id b id) (resolve_business_id message user_id accounts)
