-- ===== src/Appointment/Booked.antt =====
-- The appointments under src/appointment/application/appointment.service.ts.
use ventura_api.Common.{
  ◌<◌, ◌≡◌, refl, sym, ap, true, false, Option, none, some, List, [], ◌∷◌, Uuid, All, leb,
  or_default, is_some, arith, Bool-cases, Option-cases, inl, inr,
}
use mathlib.Core.Path.{subst}
use ventura_api.Common.Action.{
  Result, ok, err, and_then, raise, catch, bad_request, not_found, or_raise, pure,
}
use ventura_api.Db.{Db, Env}
use ventura_api.Customer.Entity.{Customer}
use ventura_api.Customer.Repository as Customers
use ventura_api.Customer.Service as CustomerService
use ventura_api.Appointment.Entity.{Invitee, Appointment}
use ventura_api.Appointment.Repository
use ventura_api.Appointment.Repository.{
  CreateAppointment, UpdateAppointment, at, apply_patch, find_by_id, update_row, delete_row,
}
use ventura_api.Appointment.Service.{
  missing_customer, CreateAppointmentDto, creation, validate_invitee, validate_invitees, create,
}

-- the appointment ends after it starts
abbrev pub EndsLater : Appointment → Type 0
EndsLater a = a.start < a.end

-- a customer of the business that the invitee names is there
abbrev pub IsKnown : {F : Type 0} → Uuid → Db F → Invitee → Type 0
IsKnown business_id db invitee = elim invitee.customer_id [
  | none ↦ Unit
  | some customer_id ↦ is_some (Customers.find_by_id business_id customer_id db) ≡ true
]

module _ {F : Type 0} where
  -- what is known of invitees after their validation
  abbrev pub Valid : Uuid → List Invitee → Db F → Result (Unit {0}) × Db F → Type 0
  Valid b is db (ok a, db') = (db' ≡ db) × All (IsKnown b db) is
  Valid b is db (err e, db') = db' ≡ db

  -- the outcome of a lookup of a customer
  abbrev LookedUp : Uuid → Uuid → Db F → Result Customer × Db F → Type 0
  LookedUp b c db (ok customer, db') = (db' ≡ db) × (is_some (Customers.find_by_id b c db) ≡ true)
  LookedUp b c db (err e, db') = db' ≡ db

  get_by_id-LookedUp : (b c : Uuid) (db : Db F) → LookedUp b c db (CustomerService.get_by_id b c db)
  unfolding CustomerService.get_by_id
  get_by_id-LookedUp b c db = go (Customers.find_by_id b c db) refl
    where
      go :
          (o : Option Customer)
          → Customers.find_by_id b c db ≡ o
          → LookedUp b c db (or_raise o (not_found "Customer not found.") db)
      go none h = refl
      go (some customer) h = (refl, ap is_some h)

  validate_invitee-Valid :
      (b : Uuid) (i : Invitee) (db : Db F) → Valid b (i ∷ []) db (validate_invitee b i db)
  unfolding validate_invitee
  validate_invitee-Valid b i db = elim (Option-cases i.customer_id) [
    | inl nobody ↦ rw (nobody, validate_invitee) (refl, (tt, tt))
    | inr (c, named) ↦
        rw (named, validate_invitee)
          (go c (CustomerService.get_by_id b c db) (get_by_id-LookedUp b c db))
  ]
    where
      go :
          (c : Uuid) (x : Result Customer × Db F)
          → LookedUp b c db x
          → Valid b (record i { customer_id = some c } ∷ []) db (
              catch
                (λ _. and_then x λ _. pure tt)
                (λ e. raise (bad_request (missing_customer i.name)))
                db)
      go c (ok customer, db') h = (h.0, (h.1, tt))
      go c (err e, db') h = h

  pub validate_invitees-Valid :
      (b : Uuid) (is : List Invitee) (db : Db F) → Valid b is db (validate_invitees b is db)
  unfolding validate_invitees
  validate_invitees-Valid b [] db = (refl, tt)
  validate_invitees-Valid b (i ∷ is) db =
      go (validate_invitees-Valid b is db) (validate_invitee b i db) (validate_invitee-Valid b i db)
    where
      rest :
          (x : Result (Unit {0}) × Db F) → IsKnown b db i → Valid b is db x → Valid b (i ∷ is) db x
      rest (ok a, db') k h = (h.0, (k, h.1))
      rest (err e, db') k h = h

      go :
          Valid b is db (validate_invitees b is db)
          → (x : Result (Unit {0}) × Db F) → Valid b (i ∷ []) db x
          → Valid b (i ∷ is) db (and_then x λ _. validate_invitees b is)
      go later (ok a, db') h =
          subst (λ d. Valid b (i ∷ is) db (validate_invitees b is d)) (sym h.0)
            (rest (validate_invitees b is db) h.1.0 later)
      go later (err e, db') h = h

  -- an appointment that was made, or nothing
  abbrev pub Booked : Uuid → Db F → Result Appointment × Db F → Type 0
  Booked b db (ok a, db') =
      (db'.appointments ≡ a ∷ db.appointments) × EndsLater a × All (IsKnown b db) a.invitees
  Booked b db (err e, db') = db' ≡ db

  -- `create` of an appointment either adds one that ends after it starts and whose invitees name no
  -- customer but those of the business, or fails and changes nothing.
  pub create-Booked :
      (env : Env) (b by : Uuid) (dto : CreateAppointmentDto) (db : Db F)
      → Booked b db (create env b by dto db)
  unfolding create Repository.create
  create-Booked env b by dto db = elim (Bool-cases (leb dto.end dto.start)) [
    | inl backwards ↦ rw (create, backwards) refl
    | inr forwards ↦
        rw (create, forwards)
          (go forwards (validate_invitees b (or_default dto.invitees []) db)
            (validate_invitees-Valid b (or_default dto.invitees []) db))
  ]
    where
      go :
          leb dto.end dto.start ≡ false
          → (x : Result (Unit {0}) × Db F) → Valid b (or_default dto.invitees []) db x
          → Booked b db (and_then x λ _. Repository.create env (creation b by dto))
      go forwards (ok a, db') h = (
        ap (λ d. Repository.new_row env (creation b by dto) db' ∷ d.appointments) h.0,
        ground arith,
        h.1,
      )
      go forwards (err e, db') h = h
