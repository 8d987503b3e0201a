-- ===== src/Search/Found.antt =====
-- What src/search/search.service.ts returns.
use mathlib.Core.Bool.{and-eq-true_iff}
use ventura_api.Common.{
  ℕ, ◌≤◌, ◌≡◌, refl, sym, ap, ◌∙◌, Bool, true, false, ◌&&◌, ◌||◌, Option, none, some, String, List,
  [], ◌∷◌, Uuid, All, All-filter, All-take, filter, length, length-take-drop, leb, ◌==◌, arith,
  Bool-cases, inl, inr, ==_iff,
}
use ventura_api.Common.Int.{pos}
use ventura_api.Common.Text.{codes, truthy, trimmed}
use ventura_api.Common.Like.{
  search_term, searched, any_column_holds, holds_term, searched-holds_term, ilike, around,
  ilike-around,
}
use ventura_api.Common.Action.{Result, ok, err}
use ventura_api.Paging.{paged}
use ventura_api.Paging.Laws.{paged-All}
use ventura_api.Db.{Db}
use ventura_api.Customer.Entity.{Customer}
use ventura_api.Customer.Repository as CustomerRows
use ventura_api.Customer.Service as Customers
use ventura_api.Resource.Entity.{Resource}
use ventura_api.Resource.Listing as Resources
use ventura_api.Order.Entity.{Order}
use ventura_api.Order.Listing as Orders
use ventura_api.Invoice.Entity.{Invoice}
use ventura_api.Invoice.Listing as Invoices
use ventura_api.Appointment.Entity.{Appointment}
use ventura_api.Appointment.Repository.{insert_by_start, by_start, found}
use ventura_api.Appointment.Service as Appointments
use ventura_api.Search.{SearchResults, search, search_for, search_all, no_results}

-- a page of five holds at most five
length-paged :
    {T : Type 0} (rows : List T) → length (paged (some (pos 1)) (some (pos 5)) rows).rows ≤ 5
unfolding paged
length-paged rows = omega (arith, length-take-drop {0} 5 0 rows)

module _ (P : Appointment → Type 0) where
  All-insert_by_start :
      (a : Appointment) (rows : List Appointment)
      → P a
      → All P rows
      → All P (insert_by_start a rows)
  unfolding insert_by_start
  All-insert_by_start a [] h k = (h, tt)
  All-insert_by_start a (b ∷ bs) h (first, rest) = elim (Bool-cases (leb a.start b.start)) [
    | inl sooner ↦ rw sooner (h, (first, rest))
    | inr later ↦ rw later (first, All-insert_by_start a bs h rest)
  ]

  All-by_start : (rows : List Appointment) → All P rows → All P (by_start rows)
  unfolding by_start
  All-by_start [] h = tt
  All-by_start (a ∷ rows) (first, rest) =
      All-insert_by_start a (by_start rows) first (All-by_start rows rest)

-- rows of the business that hold the query, in a column that is searched
abbrev pub OfCustomer : Uuid → String → Customer → Type 0
OfCustomer b q c =
    (c.business_id ≡ b) × (holds_term (some q) (some c.name ∷ c.email ∷ c.phone ∷ []) ≡ true)

abbrev pub OfAppointment : Uuid → String → Appointment → Type 0
OfAppointment b q a = (a.business_id ≡ b) × (holds_term (some q) (some a.title ∷ []) ≡ true)

module _ {F : Type 0} where
  abbrev pub OfResource : Uuid → String → Resource F → Type 0
  OfResource b q x = (x.business_id ≡ b) × (holds_term (some q) (some x.name ∷ []) ≡ true)

  abbrev pub OfOrder : Uuid → String → Order F → Type 0
  OfOrder b q o = (o.business_id ≡ b) × (holds_term (some q) (Orders.columns o) ≡ true)

  abbrev pub OfInvoice : Uuid → String → Invoice F → Type 0
  OfInvoice b q i = (i.business_id ≡ b) × (holds_term (some q) (Invoices.columns i) ≡ true)

-- at most five rows, each of which meets the condition
abbrev pub Group : {A : Type 0} → (A → Type 0) → List A → Type 0
Group P rows = (length rows ≤ 5) × All P rows

module _ {F : Type 0} where
  abbrev pub Found : Uuid → String → Db F → Result (SearchResults F) × Db F → Type 0
  Found b q db (ok r, db') =
      (db' ≡ db)
      × Group (OfCustomer b q) r.customers
      × Group (OfResource b q) r.resources
      × Group (OfOrder b q) r.orders
      × Group (OfInvoice b q) r.invoices
      × Group (OfAppointment b q) r.appointments
  Found b q db (err e, db') = ⊥

All-weaker :
    {A : Type 0} (P Q : A → Type 0) (rows : List A)
    → ((a : A) → P a → Q a)
    → All P rows
    → All Q rows
All-weaker P Q [] f h = tt
All-weaker P Q (a ∷ rows) f (first, rest) = (f a first, All-weaker P Q rows f rest)

customers-Group :
    (b : Uuid) (q : String) (rows : List Customer)
    → Group
        (OfCustomer b q)
        (paged (some (pos 1)) (some (pos 5)) (CustomerRows.listed b (some q) rows)).rows
unfolding CustomerRows.listed
customers-Group b q rows = (
  length-paged (CustomerRows.listed b (some q) rows),
  paged-All (OfCustomer b q) (some (pos 1)) (some (pos 5)) (CustomerRows.listed b (some q) rows) (
      All-filter (OfCustomer b q)
        (λ c. c.business_id == b && searched (some q) (some c.name ∷ c.email ∷ c.phone ∷ [])) rows
        λ c h.
          let k = (and-eq-true_iff (c.business_id == b) _).0 h in
          (
            (==_iff c.business_id b).0 k.0,
            sym (searched-holds_term (some q) (some c.name ∷ c.email ∷ c.phone ∷ [])) ∙ k.1,
          )),
)

holds_of_term :
    (q : String) (query : List ℕ) (columns : List (Option String))
    → search_term (some q) ≡ some query
    → holds_term (some q) columns ≡ any_column_holds query columns
holds_of_term q query columns e =
    ap (λ t. elim t as (λ _. Bool) [ none ↦ true | some term ↦ any_column_holds term columns ]) e

appointments-Group :
    (b : Uuid) (q : String) (rows : List Appointment) (t : Option (List ℕ))
    → search_term (some q) ≡ t
    → Group
        (OfAppointment b q)
        (elim t as (λ _. List Appointment) [ none ↦ [] | some query ↦ found b query 5 rows ])
unfolding found
appointments-Group b q rows none e = (omega arith, tt)
appointments-Group b q rows (some query) e =
    let matches = filter (λ a. a.business_id == b && ilike (around query) (codes a.title)) rows in
    (
      omega (arith, length-take-drop {0} 5 0 (by_start matches)),
      All-take (OfAppointment b q) 5 (by_start matches) (
          All-by_start (OfAppointment b q) matches (
            All-filter (OfAppointment b q)
              (λ a. a.business_id == b && ilike (around query) (codes a.title)) rows
              λ a h.
                let k = (and-eq-true_iff (a.business_id == b) _).0 h in
                (
                  (==_iff a.business_id b).0 k.0,
                  holds_of_term q query (some a.title ∷ []) e
                      ∙ ap (λ h. h || false) (sym (ilike-around query (codes a.title)) ∙ k.1),
                ))),
    )

module _ {F : Type 0} where
  search_all-Found : (b : Uuid) (q : String) (db : Db F) → Found b q db (search_all b q db)
  unfolding search_all Customers.list Resources.list Orders.list Invoices.list Appointments.search
  search_all-Found b q db = (
    refl,
    customers-Group b q db.customers,
    (
      length-paged (Resources.listed b (record { q = some q; type = none }) db.resources),
      All-weaker _ (OfResource b q) _ (λ x h. (h.0, h.2))
          (Resources.list-IsAskedResource b (some (pos 1)) (some (pos 5))
            (record { q = some q; type = none }) db),
    ),
    (
      length-paged
          (Orders.listed b (record { q = some q; status = none; customer_id = none }) db.orders),
      All-weaker _ (OfOrder b q) _ (λ x h. (h.0, h.3))
          (Orders.list-IsAskedOrder b (some (pos 1)) (some (pos 5))
            (record { q = some q; status = none; customer_id = none }) db),
    ),
    (
      length-paged (
          Invoices.listed b (record { q = some q; status = none; customer_id = none }) db.invoices),
      All-weaker _ (OfInvoice b q) _ (λ x h. (h.0, h.3))
          (Invoices.list-IsAskedInvoice b (some (pos 1)) (some (pos 5))
            (record { q = some q; status = none; customer_id = none }) db),
    ),
    appointments-Group b q db.appointments (search_term (some q)) refl,
  )

  search_for-Found :
      (b : Uuid) (q : String) (db : Db F)
      → Found b q db (search_for b q db)
        × (truthy (some q) ≡ false → search_for b q db ≡ (ok (no_results q), db))
  unfolding search_for
  search_for-Found b q db = elim (Bool-cases (truthy (some q))) [
    | inl some_text ↦ rw some_text (search_all-Found b q db, λ blank. cc)
    | inr blank ↦ rw blank (
      (
        refl,
        (omega arith, tt),
        (omega arith, tt),
        (omega arith, tt),
        (omega arith, tt),
        (omega arith, tt),
      ),
      λ _. refl,
    )
  ]

  -- The search bar changes nothing and never fails. It returns five rows at most of each kind, all of
  -- them of the business, and each holds the trimmed query, up to case, in a column that is searched.
  -- For a query that is blank it returns no row.
  pub search-Found :
      (b : Uuid) (q : String) (db : Db F)
      → Found b (trimmed q) db (search b q db)
        × (truthy (some (trimmed q)) ≡ false → search b q db ≡ (ok (no_results (trimmed q)), db))
  unfolding search
  search-Found b q db = search_for-Found b (trimmed q) db
