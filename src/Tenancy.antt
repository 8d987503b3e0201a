-- ===== src/Tenancy.antt =====
-- What one business sees of the tables that the services of src/ share: every row has the id of its
-- business, and every query of src/*/infrastructure filters on it.
use ventura_api.Common.{
  ℕ, Bool, true, false, ◌≡◌, refl, ◌∙◌, List, [], ◌∷◌, Uuid, ◌==◌, ◌&&◌, filter, update, update_all,
  remove, if◌then◌else◌, arith, Bool-cases, inl, inr,
}
use ventura_api.Common.Keeps.{Keeps}
use ventura_api.Db.{Db, Service}
use ventura_api.Resource.Entity.{Resource}
use ventura_api.Customer.Entity.{Customer}
use ventura_api.Order.Entity.{Order}
use ventura_api.Invoice.Entity.{Invoice}
use ventura_api.Appointment.Entity.{Appointment}
pub mod Rows
pub mod Writes
pub mod Sales
pub mod Bills
pub mod Isolated
pub mod Blind
pub mod Reads
pub mod Private

module _ {F : Type 0} where
  -- the rows of a business are the same, in the same order
  pub record Same (c : Uuid) (old new : Db F) : Type 0 where
    pub resources :
        filter (λ r. r.business_id == c) new.resources
        ≡ filter (λ r. r.business_id == c) old.resources
    pub adjustments :
        filter (λ a. a.business_id == c) new.adjustments
        ≡ filter (λ a. a.business_id == c) old.adjustments
    pub customers :
        filter (λ x. x.business_id == c) new.customers
        ≡ filter (λ x. x.business_id == c) old.customers
    pub orders :
        filter (λ o. o.business_id == c) new.orders ≡ filter (λ o. o.business_id == c) old.orders
    pub invoices :
        filter (λ i. i.business_id == c) new.invoices
        ≡ filter (λ i. i.business_id == c) old.invoices
    pub appointments :
        filter (λ a. a.business_id == c) new.appointments
        ≡ filter (λ a. a.business_id == c) old.appointments

  pub Same-trans : (c : Uuid) (x y z : Db F) → Same c x y → Same c y z → Same c x z
  Same-trans c x y z h k = record {
    resources = k.resources ∙ h.resources;
    adjustments = k.adjustments ∙ h.adjustments;
    customers = k.customers ∙ h.customers;
    orders = k.orders ∙ h.orders;
    invoices = k.invoices ∙ h.invoices;
    appointments = k.appointments ∙ h.appointments;
  }

  -- a call that leaves the rows of a business alone, wherever it starts
  pub Keeps-Same :
      {A : Type 0} (c : Uuid) (old : Db F) (m : Service F A)
      → ((db : Db F) → Same c db (m db).1)
      → Keeps (Same c old) m
  Keeps-Same c old m h = record { at = λ db k. Same-trans c old db (m db).1 k (h db) }

  pub Same-refl : (c : Uuid) (db : Db F) → Same c db db
  Same-refl c db = record {
    resources = refl;
    adjustments = refl;
    customers = refl;
    orders = refl;
    invoices = refl;
    appointments = refl;
  }

  -- one table is another
  pub resources-Same :
      (c : Uuid) (db : Db F) (rows : List (Resource F)) (n : ℕ)
      → filter (λ r. r.business_id == c) rows ≡ filter (λ r. r.business_id == c) db.resources
      → Same c db (record db { resources = rows; drawn = n })
  resources-Same c db rows n h = record {
    resources = h;
    adjustments = refl;
    customers = refl;
    orders = refl;
    invoices = refl;
    appointments = refl;
  }

  pub customers-Same :
      (c : Uuid) (db : Db F) (rows : List (Customer)) (n : ℕ)
      → filter (λ x. x.business_id == c) rows ≡ filter (λ x. x.business_id == c) db.customers
      → Same c db (record db { customers = rows; drawn = n })
  customers-Same c db rows n h = record {
    resources = refl;
    adjustments = refl;
    customers = h;
    orders = refl;
    invoices = refl;
    appointments = refl;
  }

  pub orders-Same :
      (c : Uuid) (db : Db F) (rows : List (Order F)) (n : ℕ)
      → filter (λ o. o.business_id == c) rows ≡ filter (λ o. o.business_id == c) db.orders
      → Same c db (record db { orders = rows; drawn = n })
  orders-Same c db rows n h = record {
    resources = refl;
    adjustments = refl;
    customers = refl;
    orders = h;
    invoices = refl;
    appointments = refl;
  }

  pub invoices-Same :
      (c : Uuid) (db : Db F) (rows : List (Invoice F)) (n : ℕ)
      → filter (λ i. i.business_id == c) rows ≡ filter (λ i. i.business_id == c) db.invoices
      → Same c db (record db { invoices = rows; drawn = n })
  invoices-Same c db rows n h = record {
    resources = refl;
    adjustments = refl;
    customers = refl;
    orders = refl;
    invoices = h;
    appointments = refl;
  }

  pub appointments-Same :
      (c : Uuid) (db : Db F) (rows : List (Appointment)) (n : ℕ)
      → filter (λ a. a.business_id == c) rows ≡ filter (λ a. a.business_id == c) db.appointments
      → Same c db (record db { appointments = rows; drawn = n })
  appointments-Same c db rows n h = record {
    resources = refl;
    adjustments = refl;
    customers = refl;
    orders = refl;
    invoices = refl;
    appointments = h;
  }

-- changes of rows that do not fit, before and after
module _ {ℓ} {A : Type ℓ} (p : A → Bool) where
  filter-update :
      (q : A → Bool) (f : A → A) (rows : List A)
      → ((a : A) → q a ≡ true → p a ≡ false)
      → ((a : A) → q a ≡ true → p (f a) ≡ false)
      → filter p (update q f rows) ≡ filter p rows
  filter-update q f [] h k = refl
  filter-update q f (a ∷ rows) h k = elim (Bool-cases (q a)) [
    | inl here ↦ rw (here, h a here, k a here) refl
    | inr later ↦ rw (later, filter-update q f rows h k) refl
  ]

  filter-update_all :
      (q : A → Bool) (f : A → A) (rows : List A)
      → ((a : A) → q a ≡ true → p a ≡ false)
      → ((a : A) → q a ≡ true → p (f a) ≡ false)
      → filter p (update_all q f rows) ≡ filter p rows
  filter-update_all q f [] h k = refl
  filter-update_all q f (a ∷ rows) h k = elim (Bool-cases (q a)) [
    | inl here ↦ rw (here, h a here, k a here) (filter-update_all q f rows h k)
    | inr later ↦ rw (later, filter-update_all q f rows h k) refl
  ]

  filter-remove :
      (q : A → Bool) (rows : List A)
      → ((a : A) → q a ≡ true → p a ≡ false)
      → filter p (remove q rows) ≡ filter p rows
  filter-remove q [] h = refl
  filter-remove q (a ∷ rows) h = elim (Bool-cases (q a)) [
    | inl here ↦ rw (here, h a here) refl
    | inr later ↦ rw (later, filter-remove q rows h) refl
  ]

-- a row of one business is none of another
other_business :
    (t : Bool) (b c x : Uuid) → (b == c) ≡ false → (t && x == b) ≡ true → (x == c) ≡ false
other_business t b c x apart h = ground arith

-- changes of the rows of one business that a key names
module _ {A : Type 0} (business : A → Uuid) (b c : Uuid) (apart : (b == c) ≡ false)
    (key : A → Bool) where
  owned : (a : A) → (key a && business a == b) ≡ true → (business a == c) ≡ false
  owned a = other_business (key a) b c (business a) apart

  module _ (f : A → A) (same : (a : A) → business (f a) ≡ business a) where
    moved : (a : A) → (key a && business a == b) ≡ true → (business (f a) == c) ≡ false
    moved a h = rw (same a) (owned a h)

    pub own-update :
        (rows : List A)
        → filter (λ a. business a == c) (update (λ a. key a && business a == b) f rows)
          ≡ filter (λ a. business a == c) rows
    own-update rows = filter-update _ (λ a. key a && business a == b) f rows owned moved

    pub own-update_all :
        (rows : List A)
        → filter (λ a. business a == c) (update_all (λ a. key a && business a == b) f rows)
          ≡ filter (λ a. business a == c) rows
    own-update_all rows = filter-update_all _ (λ a. key a && business a == b) f rows owned moved

  pub own-remove :
      (rows : List A)
      → filter (λ a. business a == c) (remove (λ a. key a && business a == b) rows)
        ≡ filter (λ a. business a == c) rows
  own-remove rows = filter-remove _ (λ a. key a && business a == b) rows owned
