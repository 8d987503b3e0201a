-- ===== src/Invoice/Settled.antt =====
-- The invariant of payments in src/invoice/application/invoice.service.ts, an invoice that is not
-- overpaid and is paid in full if it is PAID, under `recordPayment` and `send`.
use ventura_api.Common.{
  ◌≡◌, refl, not, ◌||◌, true, false, some, ◌∷◌, Uuid, Bool-cases, Option-cases, inl, inr, arith,
  All, All-find, All-update, or_default,
}
use ventura_api.Common.Text.{truthy}
use ventura_api.Common.Action.{or_raise, map_state}
use ventura_api.Number.{Number, round2}
use ventura_api.Db.{Db, Env}
use ventura_api.Invoice.Entity.{
  InvoiceStatus, draft, sent, paid, partially_paid, overdue, cancelled, same_status, Invoice,
}
use ventura_api.Invoice.Repository
use ventura_api.Invoice.Repository.{UpdateInvoice, at, apply_patch, is_late, mark_overdue}
use ventura_api.Invoice.Service.{get_by_id}
use ventura_api.Invoice.Lifecycle.{
  RecordPaymentDto, SendInvoiceDto, paid_status, payment_patch, sent_patch, sent_status,
  other_address, record_payment, send,
}

sent_status_paid :
    (status : InvoiceStatus) → same_status (sent_status status) paid ≡ same_status status paid
sent_status_paid draft = refl
sent_status_paid sent = refl
sent_status_paid paid = refl
sent_status_paid partially_paid = refl
sent_status_paid overdue = refl
sent_status_paid cancelled = refl

module _ {F : Type 0} ⦃num : Number F⦄ where
  -- `amountPaid > totalAmount` is false, and a PAID invoice has `amountPaid >= totalAmount`
  pub record IsSettled (i : Invoice F) : Type 0 where
    pub covered : num.gt i.amount_paid i.total_amount ≡ false
    pub full : (not (same_status i.status paid) || num.ge i.amount_paid i.total_amount) ≡ true

  update_row-IsSettled :
      (c id : Uuid) (patch : UpdateInvoice F) (i : Invoice F) (db : Db F)
      → All IsSettled db.invoices
      → Repository.find_by_id c id db ≡ some i
      → IsSettled (apply_patch patch i)
      → All IsSettled (Repository.update_row c id patch db).1.invoices
  unfolding Repository.update_row
  update_row-IsSettled c id patch i db h found k =
      rw (found, Repository.update_row)
        (All-update IsSettled (at c id) (apply_patch patch) db.invoices i h found k)

  paid_status_full :
      (new_paid total : F)
      → (not (same_status (paid_status new_paid total) paid) || num.ge new_paid total) ≡ true
  paid_status_full new_paid total = ground arith

  -- If every invoice is settled (not overpaid, and paid in full if it is PAID), so is every invoice
  -- after a call of `recordPayment`, accepted or refused.
  pub record_payment-IsSettled :
      (env : Env) (c id : Uuid) (dto : RecordPaymentDto F) (db : Db F)
      → All IsSettled db.invoices
      → All IsSettled (record_payment env c id dto db).1.invoices
  unfolding record_payment get_by_id
  record_payment-IsSettled env c id dto db h = elim (Option-cases (Repository.find_by_id c id db)) [
    | inl missing ↦ rw (missing, record_payment, get_by_id, or_raise) h
    | inr (i, found) ↦
        rw (found, record_payment, get_by_id, or_raise)
          (elim (Bool-cases (same_status i.status cancelled)) [
            | inl dead ↦ rw dead h
            | inr live ↦ rw live (
                let new_paid = round2 (num.add i.amount_paid dto.amount) in
                let patch = payment_patch env dto new_paid i.total_amount in
                elim (Bool-cases (num.gt new_paid i.total_amount)) [
                  | inl over ↦ rw over h
                  | inr fits ↦ rw fits (
                      rw (map_state (Repository.update_row c id patch) (λ u. or_default u i) db) (
                        update_row-IsSettled c id patch i db h found (record {
                          covered = fits;
                          full = paid_status_full new_paid i.total_amount;
                        })))
                ])
          ])
  ]

  sent-IsSettled :
      (env : Env) (i : Invoice F)
      → IsSettled i
      → IsSettled (apply_patch (sent_patch env i.status) i)
  sent-IsSettled env i s = record {
    covered = s.covered;
    full = rw (sent_status_paid i.status) s.full;
  }

  abbrev mailed_to : Invoice F → Db F → Db F
  mailed_to i db = record db {
    mailed = (or_default i.customer_email "", i.invoice_number) ∷ db.mailed;
  }

  -- If every invoice is settled (not overpaid, and paid in full if it is PAID), so is every invoice
  -- after a call of `send`, accepted or refused.
  pub send-IsSettled :
      (env : Env) (c id : Uuid) (dto : SendInvoiceDto) (db : Db F)
      → All IsSettled db.invoices
      → All IsSettled (send env c id dto db).1.invoices
  unfolding send get_by_id
  send-IsSettled env c id dto db h = elim (Option-cases (Repository.find_by_id c id db)) [
    | inl missing ↦ rw (missing, send, get_by_id, or_raise) h
    | inr (i, found) ↦
        rw (found, send, get_by_id, or_raise)
          (elim (Bool-cases (same_status i.status cancelled)) [
            | inl dead ↦ rw dead h
            | inr live ↦ rw live (elim (Bool-cases (not (truthy i.customer_email))) [
              | inl nobody ↦ rw nobody h
              | inr somebody ↦
                  rw somebody
                    (elim (Bool-cases (other_address dto.email (or_default i.customer_email ""))) [
                      | inl other ↦ rw other h
                      | inr same ↦ rw same (
                          rw
                            (map_state (Repository.update_row c id (sent_patch env i.status))
                              (λ u. or_default u i) (mailed_to i db))
                            (update_row-IsSettled c id (sent_patch env i.status) i (mailed_to i db)
                              h found
                              (sent-IsSettled env i
                                (All-find IsSettled (at c id) db.invoices i h found))))
                    ])
            ])
          ])
  ]
