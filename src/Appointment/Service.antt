-- ===== src/Appointment/Service.antt =====
-- src/appointment/application/appointment.service.ts. Dates arrive parsed.
use ventura_api.Common.{
  ℕ, Bool, ◌||◌, Option, none, some, String, List, [], ◌∷◌, Uuid, Time, leb, if◌then◌else◌,
  or_default, is_some,
}
use ventura_api.Common.Text.{◌<>◌}
use ventura_api.Common.Like.{search_term}
use ventura_api.Common.Action.{
  ◌>>=◌, ◌>>◌, pure, raise, gets, or_raise, raise_if, catch, not_found, bad_request,
}
use ventura_api.Db.{Env, Service}
use ventura_api.Customer.Service as Customers
use ventura_api.Appointment.Entity.{
  RecurrenceFrequency, AppointmentStatus, Invitee, Recurrence, Appointment,
}
use ventura_api.Appointment.Repository
use ventura_api.Appointment.Repository.{
  CreateAppointment, UpdateAppointment, find_by_id, update_row, delete_row,
}

pub record RecurrenceDto : Type 0 where
  pub frequency : RecurrenceFrequency
  pub interval : Option ℕ
  pub until : Option Time

pub record CreateAppointmentDto : Type 0 where
  pub title : String
  pub start : Time
  pub end : Time
  pub notes : Option String
  pub location : Option String
  pub invitees : Option (List Invitee)
  pub recurrence : Option RecurrenceDto

-- the fields of `CreateAppointmentDto` that are given, and `clearRecurrence`
pub record UpdateAppointmentDto : Type 0 where
  pub title : Option String
  pub start : Option Time
  pub end : Option Time
  pub notes : Option (Option String)
  pub location : Option (Option String)
  pub invitees : Option (List Invitee)
  pub recurrence : Option RecurrenceDto
  pub clear_recurrence : Bool

abbrev pub missing_customer : String → String
missing_customer name =
    "Invitee \"" <> name <> "\" references a customer that does not exist in this business."

abbrev pub to_recurrence : RecurrenceDto → Recurrence
to_recurrence dto = record {
  frequency = dto.frequency;
  interval = or_default dto.interval 1;
  until = dto.until;
}

-- the patch that writes nothing
abbrev pub no_change : UpdateAppointment
no_change = record {
  title = none;
  notes = none;
  location = none;
  start = none;
  end = none;
  invitees = none;
  recurrence = none;
  status = none;
}

abbrev pub recurrence_key : UpdateAppointmentDto → Option (Option Recurrence)
recurrence_key dto =
    if dto.clear_recurrence
    then some none
    else elim dto.recurrence [ none ↦ none | some r ↦ some (some (to_recurrence r)) ]

-- `dto.start !== undefined || dto.end !== undefined`
abbrev pub moves : UpdateAppointmentDto → Bool
moves dto = is_some dto.start || is_some dto.end

abbrev pub patch_of : UpdateAppointmentDto → Appointment → UpdateAppointment
patch_of dto appointment = record {
  title = dto.title;
  notes = dto.notes;
  location = dto.location;
  start = if moves dto then some (or_default dto.start appointment.start) else none;
  end = if moves dto then some (or_default dto.end appointment.end) else none;
  invitees = dto.invitees;
  recurrence = recurrence_key dto;
  status = none;
}

-- the row that `create` asks for
abbrev pub creation : Uuid → Uuid → CreateAppointmentDto → CreateAppointment
creation business_id created_by dto = record {
  business_id = business_id;
  created_by = created_by;
  title = dto.title;
  start = dto.start;
  end = dto.end;
  notes = dto.notes;
  location = dto.location;
  invitees = or_default dto.invitees [];
  recurrence = elim dto.recurrence [ none ↦ none | some r ↦ some (to_recurrence r) ];
}

module _ {F : Type 0} where
  abbrev pub assert_valid_range : Time → Time → Service F (Unit {0})
  assert_valid_range start end = raise_if (leb end start) (bad_request "end must be after start.")

  -- the invitee is no customer, or one of the business
  unfoldable pub validate_invitee : Uuid → Invitee → Service F (Unit {0})
  unfolding Customers.get_by_id
  validate_invitee business_id invitee = elim invitee.customer_id [
    | none ↦ pure tt
    | some customer_id ↦
        catch (do Customers.get_by_id business_id customer_id; pure tt)
          (λ e. raise (bad_request (missing_customer invitee.name)))
  ]

  -- `Promise.all` over the invitees, in their order
  unfoldable pub validate_invitees : Uuid → List Invitee → Service F (Unit {0})
  unfolding validate_invitee
  validate_invitees business_id [] = pure tt
  validate_invitees business_id (invitee ∷ invitees) =
      validate_invitee business_id invitee >> validate_invitees business_id invitees

  unfoldable pub create : Env → Uuid → Uuid → CreateAppointmentDto → Service F Appointment
  unfolding validate_invitees Repository.create
  create env business_id created_by dto = do
    assert_valid_range dto.start dto.end
    validate_invitees business_id (or_default dto.invitees [])
    Repository.create env (creation business_id created_by dto)

  unfoldable pub list : Uuid → Option Time → Option Time → Service F (List Appointment)
  unfolding Repository.listed
  list business_id from to = gets λ db. Repository.listed business_id from to db.appointments

  unfoldable pub search : Uuid → String → ℕ → Service F (List Appointment)
  unfolding search_term Repository.found
  search business_id q limit = gets λ db. elim (search_term (some q)) [
    | none ↦ []
    | some query ↦ Repository.found business_id query limit db.appointments
  ]

  unfoldable pub get_by_id : Uuid → Uuid → Service F Appointment
  get_by_id business_id id = do
    appointment ← gets (find_by_id business_id id)
    or_raise appointment (not_found "Appointment not found.")

  unfoldable pub update_status : Uuid → Uuid → AppointmentStatus → Service F Appointment
  unfolding get_by_id update_row
  update_status business_id id status = do
    get_by_id business_id id
    updated ← update_row business_id id (record no_change { status = some status })
    or_raise updated (not_found "Appointment not found.")

  unfoldable pub update : Uuid → Uuid → UpdateAppointmentDto → Service F Appointment
  unfolding get_by_id validate_invitees update_row
  update business_id id dto = do
    appointment ← get_by_id business_id id
    if moves dto
        then assert_valid_range (or_default dto.start appointment.start)
            (or_default dto.end appointment.end)
        else pure tt
    validate_invitees business_id (or_default dto.invitees [])
    updated ← update_row business_id id (patch_of dto appointment)
    pure (or_default updated appointment)

  unfoldable pub delete : Uuid → Uuid → Service F Appointment
  unfolding delete_row
  delete business_id id = do
    removed ← delete_row business_id id
    or_raise removed (not_found "Appointment not found.")
