-- ===== src/Invoice/History.antt =====
-- Histories of the calls that change invoices that are there: payments, sending, statuses and the
-- daily task of src/invoice/application.
use ventura_api.Common.{List, [], ◌∷◌, Uuid, All}
use ventura_api.Number.{Number}
use ventura_api.Db.{Db, Env}
use ventura_api.Invoice.Entity.{InvoiceStatus}
use ventura_api.Invoice.Lifecycle.{
  RecordPaymentDto, SendInvoiceDto, record_payment, send, update_status, overdue_task,
}
use ventura_api.Invoice.Settled.{IsSettled, record_payment-IsSettled, send-IsSettled}
use ventura_api.Invoice.Status.{update_status-IsSettled, overdue_task-IsSettled}

pub data Call (F : Type 0) : Type 0 where
  pay : Uuid → Uuid → RecordPaymentDto F → Call F
  mail : Uuid → Uuid → SendInvoiceDto → Call F
  mark : Uuid → Uuid → InvoiceStatus → Call F
  nightly : Call F

module _ {F : Type 0} ⦃num : Number F⦄ where
  -- the database after a call
  abbrev pub step : Env → Call F → Db F → Db F
  step env (pay business_id id dto) db = (record_payment env business_id id dto db).1
  step env (mail business_id id dto) db = (send env business_id id dto db).1
  step env (mark business_id id status) db = (update_status env business_id id status db).1
  step env nightly db = (overdue_task env db).1

  -- the database after the calls, each in the environment of its time
  abbrev pub run : List (Env × Call F) → Db F → Db F
  run [] db = db
  run ((env, call) ∷ calls) db = run calls (step env call db)

  step-IsSettled :
      (env : Env) (call : Call F) (db : Db F)
      → All IsSettled db.invoices
      → All IsSettled (step env call db).invoices
  step-IsSettled env (pay b id dto) = record_payment-IsSettled env b id dto
  step-IsSettled env (mail b id dto) = send-IsSettled env b id dto
  step-IsSettled env (mark b id status) = update_status-IsSettled env b id status
  step-IsSettled env nightly = overdue_task-IsSettled env

  -- If every invoice is settled (not overpaid, and paid in full if it is PAID), so is every invoice
  -- after any payments, mailings, changes of status and runs of the daily task, in any order,
  -- accepted or refused.
  pub run-IsSettled :
      (calls : List (Env × Call F)) (db : Db F)
      → All IsSettled db.invoices
      → All IsSettled (run calls db).invoices
  run-IsSettled [] db h = h
  run-IsSettled ((env, call) ∷ calls) db h =
      run-IsSettled calls (step env call db) (step-IsSettled env call db h)
