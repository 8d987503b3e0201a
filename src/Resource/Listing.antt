-- ===== src/Resource/Listing.antt =====
-- `list` and `listAdjustments` of src/resource/application/resource.service.ts and of its repository.
use mathlib.Core.Bool.{and-eq-true_iff}
use ventura_api.Common.{
  ◌≡◌, sym, ◌∙◌, Bool, true, false, ◌&&◌, Option, some, String, List, [], ◌∷◌, Uuid, All,
  All-filter, filter, ◌==◌, ==_iff, asked,
}
use ventura_api.Common.Int.{ℤ}
use ventura_api.Common.Like.{searched, holds_term, searched-holds_term}
use ventura_api.Common.Action.{◌>>=◌, gets}
use ventura_api.Paging.{Paginated, paged}
use ventura_api.Paging.Laws.{paged-All}
use ventura_api.Db.{Db, Service}
use ventura_api.Resource.Entity.{ResourceType, product, service, Resource, StockAdjustment}
use ventura_api.Resource.Service.{get_by_id}

-- the filters of `ListResourcesOptions`
pub record ListResources : Type 0 where
  pub q : Option String
  pub type : Option ResourceType

abbrev pub same_type : ResourceType → ResourceType → Bool
same_type product product = true
same_type service service = true
same_type _ _ = false

-- the ledger rows of a resource
abbrev pub rows_of : Uuid → Uuid → List StockAdjustment → List StockAdjustment
rows_of business_id resource_id rows =
    filter (λ a. a.business_id == business_id && a.resource_id == resource_id) rows

module _ {F : Type 0} where
  -- the `where` of the query
  abbrev pub is_listed : Uuid → ListResources → Resource F → Bool
  is_listed business_id opts x =
      x.business_id == business_id
      && asked same_type opts.type x.type
      && searched opts.q (some x.name ∷ [])

  -- the rows that match, newest first
  unfoldable pub listed : Uuid → ListResources → List (Resource F) → List (Resource F)
  listed business_id opts resources = filter (is_listed business_id opts) resources

  unfoldable pub list : Uuid → Option ℤ → Option ℤ → ListResources → Db F → Paginated (Resource F)
  unfolding paged
  list business_id page limit opts db = paged page limit (listed business_id opts db.resources)

  -- what was asked of a resource
  abbrev pub IsAskedResource : Uuid → ListResources → Resource F → Type 0
  IsAskedResource business_id opts x =
      (x.business_id ≡ business_id)
      × (asked same_type opts.type x.type ≡ true)
      × (holds_term opts.q (some x.name ∷ []) ≡ true)

  listed-IsAskedResource :
      (b : Uuid) (opts : ListResources) (x : Resource F)
      → is_listed b opts x ≡ true
      → IsAskedResource b opts x
  listed-IsAskedResource b opts x h =
      let by_q = searched opts.q (some x.name ∷ []) in
      let by_type = asked same_type opts.type x.type in
      let here = x.business_id == b in
      let h0 = (and-eq-true_iff (here && by_type) by_q).0 h in
      let h1 = (and-eq-true_iff here by_type).0 h0.0 in
      (
        (==_iff x.business_id b).0 h1.0,
        h1.1,
        sym (searched-holds_term opts.q (some x.name ∷ [])) ∙ h0.1,
      )

  -- Every resource on a page of the list is of the business, has the type that was asked for, and
  -- contains the search term in its name up to case.
  pub list-IsAskedResource :
      (b : Uuid) (page limit : Option ℤ) (opts : ListResources) (db : Db F)
      → All (IsAskedResource b opts) (list b page limit opts db).rows
  unfolding list listed
  list-IsAskedResource b page limit opts db =
      paged-All (IsAskedResource b opts) page limit (listed b opts db.resources) (
        All-filter (IsAskedResource b opts) (is_listed b opts) db.resources
          λ x. listed-IsAskedResource b opts x)

  unfoldable pub list_adjustments :
      Uuid → Uuid → Option ℤ → Option ℤ → Service F (Paginated StockAdjustment)
  unfolding paged
  list_adjustments business_id resource_id page limit = do
    resource ← get_by_id business_id resource_id
    gets λ db. paged page limit (rows_of business_id resource_id db.adjustments)
