-- ===== src/Appointment/Timely.antt =====
-- The times of the appointments under the calls of
-- src/appointment/application/appointment.service.ts.
use ventura_api.Common.{
  ◌≡◌, ◌⊎◌, refl, sym, Bool, true, false, some, [], Uuid, All, All-find, All-remove, All-update,
  leb, if◌then◌else◌, or_default, arith, Bool-cases, Option-cases, inl, inr,
}
use mathlib.Core.Path.{subst}
use ventura_api.Common.Action.{
  Result, ok, err, Action, and_then, raise_if, bad_request, or_raise, pure, map_state, ◌>>=◌,
}
use ventura_api.Common.Keeps.{Keeps, keeps_rules}
use ventura_api.Db.{Db, Env}
use ventura_api.Appointment.Entity.{AppointmentStatus, Appointment}
use ventura_api.Appointment.Repository.{at, apply_patch, find_by_id, update_row, delete_row}
use ventura_api.Appointment.Service.{
  CreateAppointmentDto, UpdateAppointmentDto, no_change, moves, patch_of, validate_invitees, create,
  get_by_id, update_status, update, delete,
}
use ventura_api.Appointment.Booked.{
  EndsLater, Valid, validate_invitees-Valid, Booked, create-Booked,
}

-- a patch of an appointment whose new times were checked, or that leaves them
patch-EndsLater :
    (dto : UpdateAppointmentDto) (a : Appointment)
    → EndsLater a
    → (moves dto ≡ false) ⊎ (leb (or_default dto.end a.end) (or_default dto.start a.start) ≡ false)
    → EndsLater (apply_patch (patch_of dto a) a)
patch-EndsLater dto a h c = elim (Bool-cases (moves dto)) [
  | inr stays ↦ rw stays h
  | inl moving ↦ elim c [ inl stays ↦ rw stays h | inr forwards ↦ rw moving (ground arith) ]
]

module _ {F : Type 0} where
  -- every appointment ends after it starts
  pub record IsTimely (db : Db F) : Type 0 where
    pub timely : All EndsLater db.appointments

  pub create-IsTimely :
      (env : Env) (b by : Uuid) (dto : CreateAppointmentDto)
      → Keeps IsTimely (create {F = F} env b by dto)
  create-IsTimely env b by dto = record {
    at = λ db h. go db h (create env b by dto db) (create-Booked env b by dto db);
  }
    where
      go :
          (db : Db F) → IsTimely db → (x : Result Appointment × Db F) → Booked b db x → IsTimely x.1
      go db h (ok a, db') k = record { timely = rw k.0 (k.1, h.timely) }
      go db h (err e, db') k = rw k h

  status_row-IsTimely :
      (b id : Uuid) (status : AppointmentStatus)
      → Keeps IsTimely (update_row {F = F} b id (record no_change { status = some status }))
  unfolding update_row
  status_row-IsTimely b id status = record {
    at = λ db h. elim (Option-cases (find_by_id b id db)) [
      | inl missing ↦ rw (missing, update_row) h
      | inr (a, found) ↦
          rw (found, update_row)
            (record {
              timely =
                  All-update EndsLater (at b id)
                    (apply_patch (record no_change { status = some status })) db.appointments a
                    h.timely found (All-find EndsLater (at b id) db.appointments a h.timely found);
            })
    ];
  }

  pub update_status-IsTimely :
      (b id : Uuid) (status : AppointmentStatus)
      → Keeps IsTimely (update_status {F = F} b id status)
  unfolding update_status get_by_id
  update_status-IsTimely b id status = search (keeps_rules, status_row-IsTimely) depth 10

  pub delete-IsTimely : (b id : Uuid) → Keeps IsTimely (delete {F = F} b id)
  unfolding delete delete_row
  delete-IsTimely b id = record {
    at = λ db h. elim (Option-cases (find_by_id b id db)) [
      | inl missing ↦ rw (missing, delete, delete_row, or_raise) h
      | inr (a, found) ↦
          rw (found, delete, delete_row, or_raise)
            (record { timely = All-remove EndsLater (at b id) db.appointments h.timely })
    ];
  }

  write-IsTimely :
      (b id : Uuid) (dto : UpdateAppointmentDto) (a : Appointment) (db : Db F)
      → IsTimely db
      → find_by_id b id db ≡ some a
      → EndsLater (apply_patch (patch_of dto a) a)
      → IsTimely (update_row b id (patch_of dto a) db).1
  unfolding update_row
  write-IsTimely b id dto a db h found later =
      rw (found, update_row)
        (record {
          timely =
              All-update EndsLater (at b id) (apply_patch (patch_of dto a)) db.appointments a
                h.timely found later;
        })

  -- what `update` does once the times are checked
  checked-IsTimely :
      (b id : Uuid) (dto : UpdateAppointmentDto) (a : Appointment) (db : Db F)
      → IsTimely db
      → find_by_id b id db ≡ some a
      → EndsLater (apply_patch (patch_of dto a) a)
      → IsTimely
          (and_then
            (validate_invitees b (or_default dto.invitees []) db)
            λ _. update_row b id (patch_of dto a) >>= λ u. pure (or_default u a)).1
  checked-IsTimely b id dto a db h found later =
      go (validate_invitees b (or_default dto.invitees []) db)
        (validate_invitees-Valid b (or_default dto.invitees []) db)
    where
      go :
          (x : Result (Unit {0}) × Db F)
          → Valid b (or_default dto.invitees []) db x
          → IsTimely
              (and_then x λ _. update_row b id (patch_of dto a) >>= λ u. pure (or_default u a)).1
      go (ok t, db') k =
          subst
            (λ d. IsTimely ((update_row b id (patch_of dto a) >>= λ u. pure (or_default u a)) d).1)
            (sym k.0)
            (rw (map_state (update_row b id (patch_of dto a)) (λ u. or_default u a) db)
              (write-IsTimely b id dto a db h found later))
      go (err e, db') k = rw k h

  -- the check of the times, by what it tests
  guarded :
      (rest : Action (Db F) Appointment) (db : Db F)
      → IsTimely db
      → (moving backwards : Bool) → ((moving ≡ false) ⊎ (backwards ≡ false) → IsTimely (rest db).1)
      → IsTimely
          (and_then
            ((if moving
                then raise_if backwards (bad_request "end must be after start.")
                else pure tt)
              db)
            (λ _. rest)).1
  guarded rest db h true true k = h
  guarded rest db h true false k = k (inr refl)
  guarded rest db h false backwards k = k (inl refl)

  pub update-IsTimely :
      (b id : Uuid) (dto : UpdateAppointmentDto) → Keeps IsTimely (update {F = F} b id dto)
  unfolding update get_by_id
  update-IsTimely b id dto = record {
    at = λ db h. elim (Option-cases (find_by_id b id db)) [
      | inl missing ↦ rw (missing, update, get_by_id, or_raise) h
      | inr (a, found) ↦
          let now : EndsLater a = All-find EndsLater (at b id) db.appointments a h.timely found in
          rw (found, update, get_by_id, or_raise)
            (guarded
              (validate_invitees b (or_default dto.invitees []) >>= λ _.
                update_row b id (patch_of dto a) >>= λ u. pure (or_default u a))
              db h (moves dto) (leb (or_default dto.end a.end) (or_default dto.start a.start))
              (λ c. checked-IsTimely b id dto a db h found (patch-EndsLater dto a now c)))
    ];
  }
