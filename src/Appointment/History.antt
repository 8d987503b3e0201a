-- ===== src/Appointment/History.antt =====
-- Histories of the calls of src/appointment/application/appointment.service.ts that change the table.
use ventura_api.Common.{List, [], ◌∷◌, Uuid}
use ventura_api.Db.{Db, Env}
use ventura_api.Appointment.Entity.{AppointmentStatus}
use ventura_api.Appointment.Service.{
  CreateAppointmentDto, UpdateAppointmentDto, create, update_status, update, delete,
}
use ventura_api.Appointment.Timely.{
  IsTimely, create-IsTimely, update_status-IsTimely, update-IsTimely, delete-IsTimely,
}

pub data Call : Type 0 where
  book : Uuid → Uuid → CreateAppointmentDto → Call
  mark : Uuid → Uuid → AppointmentStatus → Call
  move : Uuid → Uuid → UpdateAppointmentDto → Call
  drop : Uuid → Uuid → Call

module _ {F : Type 0} where
  -- the database after a call
  abbrev pub step : Env → Call → Db F → Db F
  step env (book business_id created_by dto) db = (create env business_id created_by dto db).1
  step env (mark business_id id status) db = (update_status business_id id status db).1
  step env (move business_id id dto) db = (update business_id id dto db).1
  step env (drop business_id id) db = (delete business_id id db).1

  -- the database after the calls, each in the environment of its time
  abbrev pub run : List (Env × Call) → Db F → Db F
  run [] db = db
  run ((env, call) ∷ calls) db = run calls (step env call db)

  step-IsTimely : (env : Env) (call : Call) (db : Db F) → IsTimely db → IsTimely (step env call db)
  step-IsTimely env (book b by dto) = (create-IsTimely env b by dto).at
  step-IsTimely env (mark b id status) = (update_status-IsTimely b id status).at
  step-IsTimely env (move b id dto) = (update-IsTimely b id dto).at
  step-IsTimely env (drop b id) = (delete-IsTimely b id).at

  -- If every appointment ends after it starts, so it is after any calls that create, change, mark or
  -- delete appointments, in any order and with any outcome.
  pub run-IsTimely : (calls : List (Env × Call)) (db : Db F) → IsTimely db → IsTimely (run calls db)
  run-IsTimely [] db h = h
  run-IsTimely ((env, call) ∷ calls) db h =
      run-IsTimely calls (step env call db) (step-IsTimely env call db h)
