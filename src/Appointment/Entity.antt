-- ===== src/Appointment/Entity.antt =====
-- src/appointment/domain/appointment.entity.ts
use ventura_api.Common.{ℕ, Option, String, List, Uuid, Time}

pub data RecurrenceFrequency : Type 0 where
  daily weekly monthly : RecurrenceFrequency

pub data AppointmentStatus : Type 0 where
  scheduled completed attended cancelled : AppointmentStatus

pub record Invitee : Type 0 where
  pub name : String
  pub email : Option String
  pub customer_id : Option Uuid

pub record Recurrence : Type 0 where
  pub frequency : RecurrenceFrequency
  pub interval : ℕ
  pub until : Option Time

pub record Appointment : Type 0 where
  pub id : Uuid
  pub short_id : String
  pub business_id : Uuid
  pub created_by : Uuid
  pub title : String
  pub start : Time
  pub end : Time
  pub notes : Option String
  pub location : Option String
  pub invitees : List Invitee
  pub recurrence : Option Recurrence
  pub status : AppointmentStatus
