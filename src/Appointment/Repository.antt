-- ===== src/Appointment/Repository.antt =====
-- src/appointment/infrastructure/postgres-appointment.repository.ts. The rows that a query orders by
-- their start come in that order, rows of the same start as they stand in the table.
use ventura_api.Common.{
  ℕ, suc, Bool, true, ◌&&◌, Option, none, some, String, List, [], ◌∷◌, Uuid, Time, find, filter,
  update, remove, take, leb, ◌==◌, if◌then◌else◌, or_default,
}
use ventura_api.Common.Text.{codes}
use ventura_api.Common.Like.{around, ilike}
use ventura_api.Common.Action.{ok}
use ventura_api.Db.{Db, Env, Service}
use ventura_api.Appointment.Entity.{AppointmentStatus, scheduled, Invitee, Recurrence, Appointment}

-- `ICreateAppointment`
pub record CreateAppointment : Type 0 where
  pub business_id : Uuid
  pub created_by : Uuid
  pub title : String
  pub start : Time
  pub end : Time
  pub notes : Option String
  pub location : Option String
  pub invitees : List Invitee
  pub recurrence : Option Recurrence

-- `IUpdateAppointment`: a field that is `none` is not written, `some none` writes null
pub record UpdateAppointment : Type 0 where
  pub title : Option String
  pub notes : Option (Option String)
  pub location : Option (Option String)
  pub start : Option Time
  pub end : Option Time
  pub invitees : Option (List Invitee)
  pub recurrence : Option (Option Recurrence)
  pub status : Option AppointmentStatus

-- `{ id, businessId }`
abbrev pub at : Uuid → Uuid → Appointment → Bool
at business_id id a = a.id == id && a.business_id == business_id

abbrev pub apply_patch : UpdateAppointment → Appointment → Appointment
apply_patch p a = record a {
  title = or_default p.title a.title;
  notes = or_default p.notes a.notes;
  location = or_default p.location a.location;
  start = or_default p.start a.start;
  end = or_default p.end a.end;
  invitees = or_default p.invitees a.invitees;
  recurrence = or_default p.recurrence a.recurrence;
  status = or_default p.status a.status;
}

-- a row among rows in the order of their starts, before those of the same start
unfoldable pub insert_by_start : Appointment → List Appointment → List Appointment
insert_by_start a [] = a ∷ []
insert_by_start a (b ∷ bs) =
    let rest = insert_by_start a bs in if leb a.start b.start then a ∷ b ∷ bs else b ∷ rest

-- `orderBy: { start: 'ASC' }`
unfoldable pub by_start : List Appointment → List Appointment
unfolding insert_by_start
by_start [] = []
by_start (a ∷ rows) = insert_by_start a (by_start rows)

abbrev pub not_before : Option Time → Time → Bool
not_before none start = true
not_before (some from) start = leb from start

abbrev pub not_after : Option Time → Time → Bool
not_after none start = true
not_after (some to) start = leb start to

-- the `where` of `list`
abbrev pub is_listed : Uuid → Option Time → Option Time → Appointment → Bool
is_listed business_id from to a =
    a.business_id == business_id && not_before from a.start && not_after to a.start

unfoldable pub listed : Uuid → Option Time → Option Time → List Appointment → List Appointment
unfolding by_start
listed business_id from to rows = by_start (filter (is_listed business_id from to) rows)

-- the rows of `search`, for a query of code points
unfoldable pub found : Uuid → List ℕ → ℕ → List Appointment → List Appointment
unfolding by_start around ilike
found business_id q limit rows =
    take limit (
      by_start
        (filter (λ a. a.business_id == business_id && ilike (around q) (codes a.title)) rows))

module _ {F : Type 0} where
  -- a new row (postgres.appointment-entity.ts)
  abbrev pub new_row : Env → CreateAppointment → Db F → Appointment
  new_row env data' db = record {
    id = env.uuid db.drawn;
    short_id = env.label db.drawn;
    business_id = data'.business_id;
    created_by = data'.created_by;
    title = data'.title;
    start = data'.start;
    end = data'.end;
    notes = data'.notes;
    location = data'.location;
    invitees = data'.invitees;
    recurrence = data'.recurrence;
    status = scheduled;
  }

  unfoldable pub create : Env → CreateAppointment → Service F Appointment
  create env data' db =
      let row = new_row env data' db in
      (ok row, record db { appointments = row ∷ db.appointments; drawn = suc db.drawn })

  abbrev pub find_by_id : Uuid → Uuid → Db F → Option Appointment
  find_by_id business_id id db = find (at business_id id) db.appointments

  unfoldable pub update_row : Uuid → Uuid → UpdateAppointment → Service F (Option Appointment)
  update_row business_id id patch db = elim (find_by_id business_id id db) [
    | none ↦ (ok none, db)
    | some a ↦ (
      ok (some (apply_patch patch a)),
      record db { appointments = update (at business_id id) (apply_patch patch) db.appointments },
    )
  ]

  unfoldable pub delete_row : Uuid → Uuid → Service F (Option Appointment)
  delete_row business_id id db = elim (find_by_id business_id id db) [
    | none ↦ (ok none, db)
    | some a ↦
        (ok (some a), record db { appointments = remove (at business_id id) db.appointments })
  ]
