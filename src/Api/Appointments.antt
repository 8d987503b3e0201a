-- ===== src/Api/Appointments.antt =====
-- src/appointment/application/appointment.controller.ts.
use ventura_api.Common.{String, Uuid, Time, Option, List}
use ventura_api.Appointment.Entity.{AppointmentStatus, Appointment}
use ventura_api.Appointment.Service
use ventura_api.Accounts.{Accounts}
use ventura_api.Db as Shop
use ventura_api.Db.{Env}
use ventura_api.Api.{resolve_business_id, answer}

abbrev pub message : String
message = "You must create a business before managing appointments."

module _ {F : Type 0} where
  unfoldable pub create :
      Env → Accounts → Uuid → Service.CreateAppointmentDto → Shop.Service F Appointment
  unfolding resolve_business_id Service.create
  create env accounts user_id dto =
      answer (λ b. Service.create env b user_id dto) (resolve_business_id message user_id accounts)

  unfoldable pub update :
      Accounts → Uuid → Uuid → Service.UpdateAppointmentDto → Shop.Service F Appointment
  unfolding resolve_business_id Service.update
  update accounts user_id id dto =
      answer (λ b. Service.update b id dto) (resolve_business_id message user_id accounts)

  unfoldable pub update_status :
      Accounts → Uuid → Uuid → AppointmentStatus → Shop.Service F Appointment
  unfolding resolve_business_id Service.update_status
  update_status accounts user_id id status =
      answer (λ b. Service.update_status b id status) (resolve_business_id message user_id accounts)

  unfoldable pub delete : Accounts → Uuid → Uuid → Shop.Service F Appointment
  unfolding resolve_business_id Service.delete
  delete accounts user_id id =
      answer (λ b. Service.delete b id) (resolve_business_id message user_id accounts)

  unfoldable pub list :
      Accounts → Uuid → Option Time → Option Time → Shop.Service F (List Appointment)
  unfolding resolve_business_id Service.list
  list accounts user_id from to =
      answer (λ b. Service.list b from to) (resolve_business_id message user_id accounts)

  unfoldable pub get_by_id : Accounts → Uuid → Uuid → Shop.Service F Appointment
  unfolding resolve_business_id Service.get_by_id
  get_by_id accounts user_id id =
      answer (λ b. Service.get_by_id b id) (resolve_business_id message user_id accounts)
