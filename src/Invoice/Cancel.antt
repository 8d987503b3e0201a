-- ===== src/Invoice/Cancel.antt =====
-- Cancelling an invoice with `updateStatus` of src/invoice/application/invoice.service.ts, and the
-- links of its orders.
use ventura_api.Common.{
  ◌≡◌, refl, sym, ap, ◌∙◌, Bool, true, false, Option, none, some, List, [], ◌∷◌, Uuid, All, filter,
  find, update, update_all, ==_iff, Bool-cases, inl, inr,
}
use mathlib.Core.Path.{subst}
use ventura_api.Common.Action.{Result, ok, err, or_raise, pure, and_then, ◌>>=◌, ◌>>◌, not_found}
use ventura_api.Common.Keeps.{is_ok}
use ventura_api.Number.{Number}
use ventura_api.Db.{Db, Env, Service}
use ventura_api.Order.Entity.{Order}
use ventura_api.Order.Repository as Orders
use ventura_api.Invoice.Entity.{
  InvoiceStatus, draft, sent, paid, partially_paid, overdue, cancelled, same_status, Invoice,
}
use ventura_api.Invoice.Repository
use ventura_api.Invoice.Repository.{at, apply_patch}
use ventura_api.Invoice.Service.{CreateInvoiceDto, create, get_by_id}
use ventura_api.Invoice.Issue.{IsBillable, Issued, create-Issued}
use ventura_api.Invoice.Lifecycle.{allowed, release_orders, to_status, change_status, update_status}

live_allowed : (s : InvoiceStatus) → same_status s cancelled ≡ false → allowed s cancelled ≡ true
unfolding allowed
live_allowed draft h = refl
live_allowed sent h = refl
live_allowed paid h = refl
live_allowed partially_paid h = refl
live_allowed overdue h = refl
live_allowed cancelled h = cc

-- the orders of an invoice can be let go: there are none, or they can be written
abbrev pub releases : Env → List Uuid → Bool
releases env [] = true
releases env (i ∷ ids) = env.writes_orders

releases-true : (env : Env) (ids : List Uuid) → env.writes_orders ≡ true → releases env ids ≡ true
releases-true env [] h = refl
releases-true env (i ∷ ids) h = h

module _ {F : Type 0} where
  -- no order is among no ids
  update_all-none :
      (b : Uuid) (orders : List (Order F))
      → update_all (Orders.among b []) (Orders.set_invoice none) orders ≡ orders
  update_all-none b [] = refl
  update_all-none b (o ∷ orders) = ap (λ os. o ∷ os) (update_all-none b orders)

  abbrev pub unlinked : Uuid → List Uuid → Db F → Db F
  unlinked b ids db = record db {
    orders = update_all (Orders.among b ids) (Orders.set_invoice none) db.orders;
  }

  abbrev pub set_cancelled : Uuid → Uuid → Db F → Db F
  set_cancelled b id db = record db {
    invoices = update (at b id) (apply_patch (to_status cancelled)) db.invoices;
  }

  abbrev Released : Bool → Uuid → List Uuid → Db F → Result (Unit {0}) × Db F → Type 0
  Released true b ids db x = x ≡ (ok tt, unlinked b ids db)
  Released false b ids db x = (is_ok x.0 ≡ false) × (x.1 ≡ db)

  release_orders-Released :
      (env : Env) (b : Uuid) (ids : List Uuid) (db : Db F)
      → Released (releases env ids) b ids db (release_orders env b cancelled ids db)
  unfolding release_orders Orders.detach_invoice
  release_orders-Released env b [] db =
      ap (λ os. (ok tt, record db { orders = os })) (sym (update_all-none b db.orders))
  release_orders-Released env b (i ∷ ids) db = elim (Bool-cases env.writes_orders) [
    | inl writes ↦ rw (writes, release_orders, Orders.detach_invoice) refl
    | inr fails ↦ rw (fails, release_orders, Orders.detach_invoice) (refl, refl)
  ]

  -- what the cancelling of an invoice has done, where its orders could be written and where not
  abbrev pub Cancelled : Bool → Uuid → Uuid → Invoice F → Db F → Result (Invoice F) × Db F → Type 0
  Cancelled true b id i db x =
      x ≡ (ok (record i { status = cancelled }), unlinked b i.order_ids (set_cancelled b id db))
  Cancelled false b id i db x = (is_ok x.0 ≡ false) × (x.1 ≡ set_cancelled b id db)

  update_row-found :
      (b id : Uuid) (i : Invoice F) (db : Db F)
      → Repository.find_by_id b id db ≡ some i
      → Repository.update_row b id (to_status cancelled) db
        ≡ (ok (some (apply_patch (to_status cancelled) i)), set_cancelled b id db)
  unfolding Repository.update_row
  update_row-found b id i db found = rw (found, Repository.update_row) refl

  Released-Cancelled :
      (t : Bool) (b id : Uuid) (i : Invoice F) (db : Db F) (x : Result (Unit {0}) × Db F)
      → Released t b i.order_ids (set_cancelled b id db) x
      → Cancelled t b id i db (and_then x λ _. pure (record i { status = cancelled }))
  Released-Cancelled true b id i db x h =
      ap (λ y. and_then y λ _. pure (record i { status = cancelled })) h
  Released-Cancelled false b id i db (ok _, db') h = let clash : true ≡ false = h.0 in cc
  Released-Cancelled false b id i db (err e, db') h = h

  change_status-Cancelled :
      (env : Env) (b id : Uuid) (i : Invoice F) (db : Db F)
      → Repository.find_by_id b id db ≡ some i
      → same_status i.status cancelled ≡ false
      → Cancelled (releases env i.order_ids) b id i db (change_status env b id i cancelled db)
  unfolding change_status
  change_status-Cancelled env b id i db found live = rw (live_allowed i.status live) (
      subst (λ x. Cancelled (releases env i.order_ids) b id i db (and_then x release))
        (sym (update_row-found b id i db found))
        (Released-Cancelled (releases env i.order_ids) b id i db
          (release_orders env b cancelled i.order_ids (set_cancelled b id db))
          (release_orders-Released env b i.order_ids (set_cancelled b id db))))
    where
      release : Option (Invoice F) → Service F (Invoice F)
      release found' = or_raise found' (not_found "Invoice not found.") >>= λ updated.
          release_orders env b cancelled i.order_ids >> pure updated

  -- `updateStatus` asked to cancel an invoice of the business that is not cancelled, whatever its
  -- status: if the database accepts the write of orders or the invoice lists none, the call returns the
  -- invoice with the status CANCELLED and all else kept, writes this status, takes the link to an
  -- invoice from exactly the orders of the business that it lists, and changes nothing else. Otherwise
  -- the call fails, yet the status is written all the same, and nothing else changes, so that every
  -- order keeps its link.
  pub update_status-Cancelled :
      (env : Env) (b id : Uuid) (i : Invoice F) (db : Db F)
      → Repository.find_by_id b id db ≡ some i
      → same_status i.status cancelled ≡ false
      → Cancelled (releases env i.order_ids) b id i db (update_status env b id cancelled db)
  unfolding update_status get_by_id
  update_status-Cancelled env b id i db found live =
      rw (found, update_status, get_by_id, or_raise)
        (rw live (change_status-Cancelled env b id i db found live))

  unlinks :
      (env : Env) (b id : Uuid) (i : Invoice F) (db : Db F) (x : Result (Invoice F) × Db F)
      → env.writes_orders ≡ true
      → Cancelled (releases env i.order_ids) b id i db x
      → x.1.orders ≡ update_all (Orders.among b i.order_ids) (Orders.set_invoice none) db.orders
  unlinks env b id i db x writes h =
      ap (λ y. y.1.orders)
        (subst (λ t. Cancelled t b id i db x) (releases-true env i.order_ids writes) h)

  -- links that are set on free orders and taken away again
  detach-attach :
      (b customer x : Uuid) (ids : List Uuid) (orders : List (Order F))
      → All (IsBillable customer) (filter (Orders.among b ids) orders)
      → update_all
          (Orders.among b ids)
          (Orders.set_invoice none)
          (update_all (Orders.among b ids) (Orders.set_invoice (some x)) orders)
        ≡ orders
  detach-attach b customer x ids [] h = refl
  detach-attach b customer x ids (o ∷ orders) h = elim (Bool-cases (Orders.among b ids o)) [
    | inl here ↦
        let k = rw here at h in
        rw (here, here)
          (ap (λ os. Orders.set_invoice none o ∷ os) (detach-attach b customer x ids orders k.1)
            ∙ ap (λ e. Orders.set_invoice e o ∷ orders) (sym k.0.0))
    | inr other ↦
        rw (other, other)
          (ap (λ os. o ∷ os) (detach-attach b customer x ids orders (rw other at h)))
  ]

module _ {F : Type 0} ⦃num : Number F⦄ where
  -- the new invoice is found
  found_first :
      (b : Uuid) (i : Invoice F) (rest rows : List (Invoice F))
      → rows ≡ i ∷ rest
      → i.business_id ≡ b
      → find (at b i.id) rows ≡ some i
  found_first b i rest rows e h =
      rw e (rw ((==_iff i.id i.id).1 refl) (rw ((==_iff i.business_id b).1 h) refl))

  -- If `create` of an invoice succeeds, then cancelling that invoice right afterwards, in a call in
  -- which the database accepts the write of orders, leaves all orders as they were before it was
  -- created.
  pub create-cancel :
      (env env' : Env) (b : Uuid) (dto : CreateInvoiceDto) (i : Invoice F) (db db' : Db F)
      → create env b dto db ≡ (ok i, db')
      → env'.writes_orders ≡ true
      → (update_status env' b i.id cancelled db').1.orders ≡ db.orders
  create-cancel env env' b dto i db db' e writes =
      let orders = Orders.find_by_ids b dto.order_ids db in
      let h = subst (Issued env b dto.order_ids orders db) e (create-Issued env b dto db) in
      let d = h.0 in
      let found = found_first b i db.invoices db'.invoices d.4 d.2.3 in
      let live : same_status i.status cancelled ≡ false = rw d.2.0 refl in
      unlinks env' b i.id i db' (update_status env' b i.id cancelled db') writes
        (update_status-Cancelled env' b i.id i db' found live)
      ∙ rw (d.2.2, h.2) (detach-attach b d.1.0 i.id dto.order_ids db.orders d.1.2)
