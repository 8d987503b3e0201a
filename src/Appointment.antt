-- ===== src/Appointment.antt =====
-- Appointments: src/appointment.
pub mod Entity
pub mod Repository
pub mod Service
pub mod Booked
pub mod Timely
pub mod History
