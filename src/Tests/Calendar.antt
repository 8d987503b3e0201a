-- ===== src/Tests/Calendar.antt =====
-- The theorems on appointments and on histories of invoices at work on the sample shop.
use ventura_api.Common.{refl, true, none, some, List, [], ◌∷◌, All}
use ventura_api.Number.Decimal.{Decimal, decimal_number, cents}
use ventura_api.Db.{Env}
use ventura_api.Invoice.Entity.{cash, overdue}
use ventura_api.Invoice.Settled.{IsSettled}
use ventura_api.Invoice.History.{pay, mail, mark, nightly, run-IsSettled}
use ventura_api.Invoice.History as Invoices
use ventura_api.Appointment.Entity.{completed}
use ventura_api.Appointment.Service.{CreateAppointmentDto, UpdateAppointmentDto, create}
use ventura_api.Appointment.Booked.{Booked, create-Booked}
use ventura_api.Appointment.Timely.{IsTimely}
use ventura_api.Appointment.History as Appointments
use ventura_api.Appointment.History.{Call, book, move, run, run-IsTimely}
use ventura_api.Samples.{shop, env}

abbrev visit : CreateAppointmentDto
visit = record {
  title = "Fitting";
  start = 2000;
  end = 3000;
  notes = none;
  location = none;
  invitees = some (record { name = "Ama"; email = none; customer_id = some 5 } ∷ []);
  recurrence = none;
}

abbrev earlier : UpdateAppointmentDto
earlier = record {
  title = none;
  start = none;
  end = some 1500;
  notes = some none;
  location = none;
  invitees = none;
  recurrence = none;
  clear_recurrence = true;
}

create-Booked_example : Booked 7 shop (create env 7 9 visit shop)
create-Booked_example = create-Booked env 7 9 visit shop

abbrev calendar : List (Env × Call)
calendar =
    (env, book 7 9 visit)
    ∷ (env, move 7 100 earlier)
    ∷ (env, Appointments.mark 7 100 completed)
    ∷ (env, Appointments.drop 7 100)
    ∷ []

shop-IsTimely : IsTimely shop
shop-IsTimely = record { timely = tt }

run-IsTimely_example : IsTimely (run calendar shop)
run-IsTimely_example = run-IsTimely calendar shop shop-IsTimely

shop-Settled : All (IsSettled {F = Decimal}) shop.invoices
shop-Settled =
    (record { covered = refl; full = refl }, (record { covered = refl; full = refl }, tt))

abbrev month : List (Env × Invoices.Call Decimal)
month =
    (env, mail 7 31 (record { email = none; message = none }))
    ∷ (env, nightly)
    ∷ (env, pay 7 30 (record { amount = cents 7075; payment_method = cash; payment_date = none }))
    ∷ (env, mark 7 31 overdue)
    ∷ []

run-IsSettled_example : All IsSettled (Invoices.run month shop).invoices
run-IsSettled_example = run-IsSettled month shop shop-Settled
