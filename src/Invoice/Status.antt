-- ===== src/Invoice/Status.antt =====
-- The invariant of payments under `updateStatus` of src/invoice/application/invoice.service.ts and
-- under invoice-overdue.task.ts.
use ventura_api.Common.{
  ◌≡◌, refl, not, false, some, List, [], ◌∷◌, Uuid, Bool-cases, Option-cases, inl, inr, All,
  All-find, All-update, All-update_all, update,
}
use ventura_api.Common.Action.{or_raise, map_state}
use ventura_api.Number.{Number}
use ventura_api.Db.{Db, Env}
use ventura_api.Order.Repository as Orders
use ventura_api.Invoice.Entity.{
  InvoiceStatus, draft, sent, paid, partially_paid, overdue, cancelled, same_status, Invoice,
}
use ventura_api.Invoice.Repository
use ventura_api.Invoice.Repository.{UpdateInvoice, at, apply_patch, is_late, set_overdue}
use ventura_api.Invoice.Service.{get_by_id}
use ventura_api.Invoice.Lifecycle.{
  update_status, change_status, release_orders, to_status, is_payment_status, allowed, overdue_task,
}
use ventura_api.Invoice.Settled.{IsSettled}

unpaid :
    (status : InvoiceStatus) → is_payment_status status ≡ false → same_status status paid ≡ false
unpaid draft e = refl
unpaid sent e = refl
unpaid paid e = e
unpaid partially_paid e = refl
unpaid overdue e = refl
unpaid cancelled e = refl

module _ {F : Type 0} ⦃num : Number F⦄ where
  release_orders-invoices :
      (env : Env) (c : Uuid) (status : InvoiceStatus) (ids : List Uuid) (db : Db F)
      → (release_orders env c status ids db).1.invoices ≡ db.invoices
  unfolding release_orders Orders.detach_invoice
  release_orders-invoices env c cancelled [] db = refl
  release_orders-invoices env c cancelled (i ∷ ids) db = elim (Bool-cases env.writes_orders) [
    | inl writes ↦ rw (writes, release_orders, Orders.detach_invoice) refl
    | inr fails ↦ rw (fails, release_orders, Orders.detach_invoice) refl
  ]
  release_orders-invoices env c _ ids db = refl

  status-IsSettled :
      (status : InvoiceStatus) (i : Invoice F)
      → is_payment_status status ≡ false
      → IsSettled i
      → IsSettled (apply_patch (to_status status) i)
  status-IsSettled status i e s = record { covered = s.covered; full = rw (unpaid status e) refl }

  abbrev with_status : Uuid → Uuid → InvoiceStatus → Db F → Db F
  with_status c id status db = record db {
    invoices = update (at c id) (apply_patch (to_status status)) db.invoices;
  }

  change_status-IsSettled :
      (env : Env) (c id : Uuid) (i : Invoice F) (status : InvoiceStatus) (db : Db F)
      → All IsSettled db.invoices
      → Repository.find_by_id c id db ≡ some i
      → All IsSettled (change_status env c id i status db).1.invoices
  unfolding change_status Repository.update_row
  change_status-IsSettled env c id i status db h found =
      elim (Bool-cases (is_payment_status status)) [
        | inl by_payment ↦ rw by_payment h
        | inr direct ↦ rw direct (elim (Bool-cases (not (allowed i.status status))) [
          | inl illegal ↦ rw illegal h
          | inr legal ↦ rw legal (
              rw (found, Repository.update_row)
                (rw
                  (map_state (release_orders env c status i.order_ids)
                    (λ _. apply_patch (to_status status) i) (with_status c id status db))
                  (rw
                    (release_orders-invoices env c status i.order_ids (with_status c id status db))
                    (All-update IsSettled (at c id) (apply_patch (to_status status)) db.invoices i h
                      found
                      (status-IsSettled status i direct
                        (All-find IsSettled (at c id) db.invoices i h found))))))
        ])
      ]

  -- If every invoice is settled (not overpaid, and paid in full if it is PAID), so is every invoice
  -- after a call of the invoices' `updateStatus` with any status, accepted or refused.
  pub update_status-IsSettled :
      (env : Env) (c id : Uuid) (status : InvoiceStatus) (db : Db F)
      → All IsSettled db.invoices
      → All IsSettled (update_status env c id status db).1.invoices
  unfolding update_status get_by_id
  update_status-IsSettled env c id status db h =
      elim (Option-cases (Repository.find_by_id c id db)) [
        | inl missing ↦ rw (missing, update_status, get_by_id, or_raise) h
        | inr (i, found) ↦
            rw (found, update_status, get_by_id, or_raise)
              (elim (Bool-cases (same_status i.status status)) [
                | inl same ↦ rw same h
                | inr other ↦ rw other (change_status-IsSettled env c id i status db h found)
              ])
      ]

  -- If every invoice is settled (not overpaid, and paid in full if it is PAID), so is every invoice
  -- after the daily task has marked the late ones.
  pub overdue_task-IsSettled :
      (env : Env) (db : Db F)
      → All IsSettled db.invoices
      → All IsSettled (overdue_task env db).1.invoices
  unfolding overdue_task Repository.mark_overdue
  overdue_task-IsSettled env db h =
      All-update_all IsSettled (is_late env.now) set_overdue db.invoices h
        λ i late s. record { covered = s.covered; full = refl }
