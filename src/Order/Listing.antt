-- ===== src/Order/Listing.antt =====
-- `list` of src/order/application/order.service.ts and of its repository.
use mathlib.Core.Bool.{and-eq-true_iff}
use ventura_api.Common.{
  ◌≡◌, sym, ◌∙◌, Bool, true, ◌&&◌, Option, some, String, List, [], ◌∷◌, Uuid, All, All-filter,
  filter, ◌==◌, ==_iff, asked,
}
use ventura_api.Common.Int.{ℤ}
use ventura_api.Common.Like.{searched, holds_term, searched-holds_term}
use ventura_api.Paging.{Paginated, paged}
use ventura_api.Paging.Laws.{paged-All}
use ventura_api.Db.{Db}
use ventura_api.Order.Entity.{OrderStatus, same_status, Order}

-- the filters of `ListOrdersOptions`
pub record ListOrders : Type 0 where
  pub q : Option String
  pub status : Option OrderStatus
  pub customer_id : Option Uuid

module _ {F : Type 0} where
  abbrev pub columns : Order F → List (Option String)
  columns o = some o.order_number ∷ some o.customer_name ∷ []

  -- the `where` of the query
  abbrev pub is_listed : Uuid → ListOrders → Order F → Bool
  is_listed business_id opts o =
      o.business_id == business_id
      && asked same_status opts.status o.status
      && asked (λ a b. a == b) opts.customer_id o.customer_id
      && searched opts.q (columns o)

  -- the rows that match, newest first
  unfoldable pub listed : Uuid → ListOrders → List (Order F) → List (Order F)
  listed business_id opts orders = filter (is_listed business_id opts) orders

  unfoldable pub list : Uuid → Option ℤ → Option ℤ → ListOrders → Db F → Paginated (Order F)
  unfolding paged
  list business_id page limit opts db = paged page limit (listed business_id opts db.orders)

  -- what was asked of an order
  abbrev pub IsAskedOrder : Uuid → ListOrders → Order F → Type 0
  IsAskedOrder business_id opts o =
      (o.business_id ≡ business_id)
      × (asked same_status opts.status o.status ≡ true)
      × (asked (λ a b. a == b) opts.customer_id o.customer_id ≡ true)
      × (holds_term opts.q (columns o) ≡ true)

  listed-IsAskedOrder :
      (b : Uuid) (opts : ListOrders) (o : Order F)
      → is_listed b opts o ≡ true
      → IsAskedOrder b opts o
  listed-IsAskedOrder b opts o h =
      let by_q = searched opts.q (columns o) in
      let by_customer = asked (λ a b. a == b) opts.customer_id o.customer_id in
      let by_status = asked same_status opts.status o.status in
      let here = o.business_id == b in
      let h0 = (and-eq-true_iff (here && by_status && by_customer) by_q).0 h in
      let h1 = (and-eq-true_iff (here && by_status) by_customer).0 h0.0 in
      let h2 = (and-eq-true_iff here by_status).0 h1.0 in
      (
        (==_iff o.business_id b).0 h2.0,
        h2.1,
        h1.1,
        sym (searched-holds_term opts.q (columns o)) ∙ h0.1,
      )

  -- Every order on a page of the list is of the business, has the status and the customer that were
  -- asked for, and contains the search term in its number or its customer's name up to case.
  pub list-IsAskedOrder :
      (b : Uuid) (page limit : Option ℤ) (opts : ListOrders) (db : Db F)
      → All (IsAskedOrder b opts) (list b page limit opts db).rows
  unfolding list listed
  list-IsAskedOrder b page limit opts db =
      paged-All (IsAskedOrder b opts) page limit (listed b opts db.orders) (
        All-filter (IsAskedOrder b opts) (is_listed b opts) db.orders
          λ o. listed-IsAskedOrder b opts o)
