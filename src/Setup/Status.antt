-- ===== src/Setup/Status.antt =====
-- What src/setup/setup.service.ts reports.
use ventura_api.Common.{
  ℕ, suc, ◌≡◌, refl, ap, ◌∙◌, Bool, true, false, ◌&&◌, Option, none, some, List, [], ◌∷◌, Uuid, ltb,
  length, filter, count, ◌==◌, arith, Option-cases, inl, inr,
}
use ventura_api.Common.Like.{searched, search_term}
use ventura_api.Common.Action.{ok, err, not_found}
use ventura_api.Paging.{paged}
use ventura_api.Accounts.{Accounts}
use ventura_api.User.Repository.{find_by_id}
use ventura_api.User.Service.{get_user_or_throw}
use ventura_api.Db.{Db}
use ventura_api.Customer.Repository as CustomerRows
use ventura_api.Customer.Service as Customers
use ventura_api.Resource.Listing as Resources
use ventura_api.Order.Listing as Orders
use ventura_api.Invoice.Listing as Invoices
use ventura_api.Appointment.Entity.{Appointment}
use ventura_api.Appointment.Repository as AppointmentRows
use ventura_api.Appointment.Repository.{insert_by_start, by_start}
use ventura_api.Appointment.Service as Appointments
use ventura_api.Setup.{SetupStatus, nothing_yet, status_of, status_for, get_status}

-- some row of a table fits
abbrev pub has_row : {A : Type 0} → (A → Bool) → List A → Bool
has_row p rows = ltb 0 (count p rows)

length-filter :
    {A : Type 0} (p q : A → Bool) (rows : List A)
    → ((a : A) → p a ≡ q a)
    → length (filter p rows) ≡ count q rows
length-filter p q [] h = refl
length-filter p q (a ∷ rows) h = ground (arith, h a, length-filter p q rows h)

length-insert_by_start :
    (a : Appointment) (rows : List Appointment)
    → length (insert_by_start a rows) ≡ suc (length rows)
unfolding insert_by_start
length-insert_by_start a [] = refl
length-insert_by_start a (b ∷ rows) = ground (arith, length-insert_by_start a rows)

length-by_start : (rows : List Appointment) → length (by_start rows) ≡ length rows
unfolding by_start
length-by_start [] = refl
length-by_start (a ∷ rows) =
    length-insert_by_start a (by_start rows) ∙ ap suc (length-by_start rows)

and_true : (t : Bool) → (t && true) ≡ t
and_true true = refl
and_true false = refl

and_two : (t : Bool) → (t && true && true) ≡ t
and_two true = refl
and_two false = refl

and_three : (t : Bool) → (t && true && true && true) ≡ t
and_three true = refl
and_three false = refl

-- by how many rows each table has
abbrev with_counts : ℕ → ℕ → ℕ → ℕ → ℕ → SetupStatus
with_counts c x o i a = record {
  has_business = true;
  has_customers = ltb 0 c;
  has_resources = ltb 0 x;
  has_orders = ltb 0 o;
  has_invoices = ltb 0 i;
  has_appointments = ltb 0 a;
  complete = ltb 0 c && ltb 0 x && ltb 0 o && ltb 0 i && ltb 0 a;
}

with_counts-agree :
    {c c' x x' o o' i i' a a' : ℕ}
    → c ≡ c'
    → x ≡ x'
    → o ≡ o'
    → i ≡ i'
    → a ≡ a'
    → with_counts c x o i a ≡ with_counts c' x' o' i' a'
with_counts-agree p q r s t = λ k. with_counts (p k) (q k) (r k) (s k) (t k)

module _ {F : Type 0} where
  -- which tables have a row of the business
  abbrev pub rows_of : Uuid → Db F → SetupStatus
  rows_of b db =
      let customers = has_row (λ c. c.business_id == b) db.customers in
      let resources = has_row (λ x. x.business_id == b) db.resources in
      let orders = has_row (λ o. o.business_id == b) db.orders in
      let invoices = has_row (λ i. i.business_id == b) db.invoices in
      let appointments = has_row (λ a. a.business_id == b) db.appointments in
      record {
        has_business = true;
        has_customers = customers;
        has_resources = resources;
        has_orders = orders;
        has_invoices = invoices;
        has_appointments = appointments;
        complete = customers && resources && orders && invoices && appointments;
      }

  abbrev pub expected : Option Uuid → Db F → SetupStatus
  expected none db = nothing_yet
  expected (some b) db = rows_of b db

  status_of_lem : (b : Uuid) (db : Db F) → (status_of b db).0 ≡ ok (rows_of b db)
  unfolding status_of Customers.list Resources.list Orders.list Invoices.list Appointments.list
      CustomerRows.listed Resources.listed Orders.listed Invoices.listed AppointmentRows.listed
      paged searched search_term
  status_of_lem b db =
      let c =
        length-filter _ (λ x. x.business_id == b) db.customers
          (λ x. and_true (x.business_id == b)) in
      let x =
        length-filter _ (λ x. x.business_id == b) db.resources
          (λ x. and_two (x.business_id == b)) in
      let o =
        length-filter _ (λ x. x.business_id == b) db.orders (λ x. and_three (x.business_id == b)) in
      let i =
        length-filter _ (λ x. x.business_id == b) db.invoices
          (λ x. and_three (x.business_id == b)) in
      let a =
        length-by_start _
        ∙ length-filter _ (λ x. x.business_id == b) db.appointments
            (λ x. and_two (x.business_id == b)) in
      ap ok (with_counts-agree c x o i a)

  status_for_lem : (b : Option Uuid) (db : Db F) → (status_for b db).0 ≡ ok (expected b db)
  status_for_lem none db = refl
  status_for_lem (some b) db = status_of_lem b db

  -- A user without an account gives the error of the users' service. Of any other user, the status is
  -- read off the tables: without a business nothing is set up, and with one each flag says whether
  -- some row of its table belongs to the business, whatever page of the table is read.
  pub get_status_lem :
      (user_id : Uuid) (accounts : Accounts) (db : Db F)
      → get_status user_id accounts db ≡ elim (find_by_id user_id accounts) [
        | none ↦ err (not_found "User not found.")
        | some u ↦ ok (expected u.business_id db)
      ]
  unfolding get_status get_user_or_throw
  get_status_lem user_id accounts db = elim (Option-cases (find_by_id user_id accounts)) [
    | inl missing ↦ rw (missing, get_status) refl
    | inr (u, found) ↦ rw (found, get_status) (status_for_lem u.business_id db)
  ]
