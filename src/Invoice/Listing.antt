-- ===== src/Invoice/Listing.antt =====
-- `list` of src/invoice/application/invoice.service.ts and of its repository.
use mathlib.Core.Bool.{and-eq-true_iff}
use ventura_api.Common.{
  ◌≡◌, sym, ◌∙◌, Bool, true, false, ◌&&◌, Option, none, some, String, List, [], ◌∷◌, Uuid, All,
  All-filter, filter, ◌==◌, ==_iff, asked,
}
use ventura_api.Common.Int.{ℤ}
use ventura_api.Common.Like.{searched, holds_term, searched-holds_term}
use ventura_api.Paging.{Paginated, paged}
use ventura_api.Paging.Laws.{paged-All}
use ventura_api.Db.{Db}
use ventura_api.Invoice.Entity.{InvoiceStatus, same_status, Invoice}

-- the filters of `ListInvoicesOptions`
pub record ListInvoices : Type 0 where
  pub q : Option String
  pub status : Option InvoiceStatus
  pub customer_id : Option Uuid

-- `where.customerId = a`, which a null column never meets
abbrev pub has_customer : Option Uuid → Option Uuid → Bool
has_customer none c = true
has_customer (some a) none = false
has_customer (some a) (some c) = c == a

module _ {F : Type 0} where
  abbrev pub columns : Invoice F → List (Option String)
  columns i = some i.invoice_number ∷ i.customer_name ∷ []

  -- the `where` of the query
  abbrev pub is_listed : Uuid → ListInvoices → Invoice F → Bool
  is_listed business_id opts i =
      i.business_id == business_id
      && asked same_status opts.status i.status
      && has_customer opts.customer_id i.customer_id
      && searched opts.q (columns i)

  -- the rows that match, newest first
  unfoldable pub listed : Uuid → ListInvoices → List (Invoice F) → List (Invoice F)
  listed business_id opts invoices = filter (is_listed business_id opts) invoices

  unfoldable pub list : Uuid → Option ℤ → Option ℤ → ListInvoices → Db F → Paginated (Invoice F)
  unfolding paged
  list business_id page limit opts db = paged page limit (listed business_id opts db.invoices)

  -- what was asked of an invoice
  abbrev pub IsAskedInvoice : Uuid → ListInvoices → Invoice F → Type 0
  IsAskedInvoice business_id opts i =
      (i.business_id ≡ business_id)
      × (asked same_status opts.status i.status ≡ true)
      × (has_customer opts.customer_id i.customer_id ≡ true)
      × (holds_term opts.q (columns i) ≡ true)

  listed-IsAskedInvoice :
      (b : Uuid) (opts : ListInvoices) (i : Invoice F)
      → is_listed b opts i ≡ true
      → IsAskedInvoice b opts i
  listed-IsAskedInvoice b opts i h =
      let by_q = searched opts.q (columns i) in
      let by_customer = has_customer opts.customer_id i.customer_id in
      let by_status = asked same_status opts.status i.status in
      let here = i.business_id == b in
      let h0 = (and-eq-true_iff (here && by_status && by_customer) by_q).0 h in
      let h1 = (and-eq-true_iff (here && by_status) by_customer).0 h0.0 in
      let h2 = (and-eq-true_iff here by_status).0 h1.0 in
      (
        (==_iff i.business_id b).0 h2.0,
        h2.1,
        h1.1,
        sym (searched-holds_term opts.q (columns i)) ∙ h0.1,
      )

  -- Every invoice on a page of the list is of the business, has the status and the customer that were
  -- asked for, and contains the search term in its number or its customer's name up to case.
  pub list-IsAskedInvoice :
      (b : Uuid) (page limit : Option ℤ) (opts : ListInvoices) (db : Db F)
      → All (IsAskedInvoice b opts) (list b page limit opts db).rows
  unfolding list listed
  list-IsAskedInvoice b page limit opts db =
      paged-All (IsAskedInvoice b opts) page limit (listed b opts db.invoices) (
        All-filter (IsAskedInvoice b opts) (is_listed b opts) db.invoices
          λ i. listed-IsAskedInvoice b opts i)
