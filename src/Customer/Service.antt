-- ===== src/Customer/Service.antt =====
-- src/customer/application/customer.service.ts
use ventura_api.Common.{
  ℕ, suc, Bool, false, not, ◌&&◌, ◌||◌, Option, none, String, List, [], ◌∷◌, ◌++◌, Uuid, map,
  if◌then◌else◌, or_default,
}
use ventura_api.Common.Int.{ℤ}
use ventura_api.Common.Text.{truthy, is_text, codes, lower, same_codes}
use ventura_api.Common.Action.{
  Error, ◌>>=◌, ◌>>◌, pure, gets, or_raise, raise_if, catch, message, not_found, conflict,
}
use ventura_api.Paging.{Paginated, paged}
use ventura_api.Db.{Db, Env, Service}
use ventura_api.Customer.Entity.{Customer}
use ventura_api.Customer.Repository
use ventura_api.Customer.Repository.{CreateCustomer, UpdateCustomer}

-- a row of an import that was not created
pub record RowReport : Type 0 where
  pub index : ℕ
  pub reason : String

pub record BulkImportResult : Type 0 where
  pub created : List Customer
  pub skipped : List RowReport
  pub failed : List RowReport

-- `seenEmails.has(email)`, of addresses in lower case
abbrev pub seen : List ℕ → List (List ℕ) → Bool
seen email [] = false
seen email (e ∷ emails) = same_codes e email || seen email emails

-- `dto.email?.toLowerCase()`
abbrev pub lower_email : CreateCustomer → List ℕ
lower_email dto = map lower (codes (or_default dto.email ""))

-- `email` is there and was seen before
abbrev pub is_repeated : List (List ℕ) → CreateCustomer → Bool
is_repeated emails dto = truthy dto.email && seen (lower_email dto) emails

abbrev pub add_seen : List (List ℕ) → CreateCustomer → List (List ℕ)
add_seen emails dto = if truthy dto.email then lower_email dto ∷ emails else emails

-- `isBatchDuplicate`, row by row, after the addresses seen
unfoldable pub batch_duplicates : List (List ℕ) → List CreateCustomer → List Bool
batch_duplicates emails [] = []
batch_duplicates emails (dto ∷ dtos) =
    is_repeated emails dto ∷ batch_duplicates (add_seen emails dto) dtos

abbrev pub skip_row : ℕ → BulkImportResult → BulkImportResult
skip_row index result = record result {
  skipped = result.skipped ++ record { index = index; reason = "Duplicate email." } ∷ [];
}

abbrev pub fail_row : ℕ → Error → BulkImportResult → BulkImportResult
fail_row index e result = record result {
  failed = result.failed ++ record { index = index; reason = message e } ∷ [];
}

abbrev pub add_row : Customer → BulkImportResult → BulkImportResult
add_row customer result = record result { created = result.created ++ customer ∷ [] }

module _ {F : Type 0} where
  -- `email && (await this.customerRepository.emailExists(businessId, email))`
  abbrev pub is_taken : Uuid → Option String → Db F → Bool
  is_taken business_id email db =
      truthy email && Repository.email_exists business_id (or_default email "") db

  unfoldable pub create : Env → Uuid → CreateCustomer → Service F Customer
  create env business_id dto = do
    taken ← gets (is_taken business_id dto.email)
    raise_if taken (conflict "A customer with this email already exists.")
    Repository.create env business_id dto

  -- the row is written, and reported as created or as failed
  unfoldable pub insert_row :
      Env → Uuid → ℕ → CreateCustomer → BulkImportResult → Service F BulkImportResult
  insert_row env business_id index dto result =
      catch (do customer ← Repository.create env business_id dto; pure (add_row customer result))
        (λ e. pure (fail_row index e result))

  -- one round of the loop of `bulkCreate`
  unfoldable pub import_row :
      Env → Uuid → ℕ → Bool → CreateCustomer → BulkImportResult → Service F BulkImportResult
  import_row env business_id index duplicate dto result = do
    taken ← gets (is_taken business_id dto.email)
    if duplicate || taken
        then pure (skip_row index result)
        else insert_row env business_id index dto result

  unfoldable pub import_rows :
      Env
      → Uuid
      → ℕ
      → List Bool
      → List CreateCustomer
      → BulkImportResult
      → Service F BulkImportResult
  import_rows env business_id index flags [] result = pure result
  import_rows env business_id index [] (dto ∷ dtos) result = pure result
  import_rows env business_id index (d ∷ flags) (dto ∷ dtos) result = do
    result' ← import_row env business_id index d dto result
    import_rows env business_id (suc index) flags dtos result'

  unfoldable pub bulk_create : Env → Uuid → List CreateCustomer → Service F BulkImportResult
  bulk_create env business_id customers =
      import_rows env business_id 0 (batch_duplicates [] customers) customers
        (record { created = []; skipped = []; failed = [] })

  unfoldable pub list : Uuid → Option ℤ → Option ℤ → Option String → Service F (Paginated Customer)
  unfolding paged Repository.listed
  list business_id page limit q =
      gets λ db. paged page limit (Repository.listed business_id q db.customers)

  unfoldable pub get_by_id : Uuid → Uuid → Service F Customer
  get_by_id business_id id = do
    customer ← gets (Repository.find_by_id business_id id)
    or_raise customer (not_found "Customer not found.")

  -- the address is another than the customer's, and a customer of the business has it
  abbrev pub is_taken_by_other : Uuid → Customer → UpdateCustomer → Db F → Bool
  is_taken_by_other business_id customer dto db =
      let email = or_default dto.email none in
      not (is_text customer.email (or_default email "")) && is_taken business_id email db

  unfoldable pub update : Uuid → Uuid → UpdateCustomer → Service F Customer
  update business_id id dto = do
    customer ← get_by_id business_id id
    taken ← gets (is_taken_by_other business_id customer dto)
    raise_if taken (conflict "A customer with this email already exists.")
    updated ← Repository.update_row business_id id dto
    pure (or_default updated customer)

  unfoldable pub delete : Uuid → Uuid → Service F Customer
  delete business_id id = do
    removed ← Repository.delete_row business_id id
    or_raise removed (not_found "Customer not found.")
