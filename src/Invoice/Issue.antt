-- ===== src/Invoice/Issue.antt =====
-- `create` of src/invoice/application/invoice.service.ts: which orders it bills, and how they and the
-- invoice are linked.
use mathlib.Core.Path.{subst}
use ventura_api.Common.{
  ℕ, suc, ◌≡◌, ◌⊎◌, refl, sym, Bool, not, ◌||◌, true, false, none, some, List, [], ◌∷◌, Uuid, All,
  length, mem, update_all, ◌==◌, ltb, ==_iff, arith, Bool-cases, inl, inr,
}
use ventura_api.Common.Action.{Result, ok, err, and_then}
use ventura_api.Number.{Number, of_nat}
use ventura_api.Db.{Db, Env}
use ventura_api.Order.Entity.{Order}
use ventura_api.Order.Repository as Orders
use ventura_api.Order.Service.{find_by_ids_in_business}
use native.Mathlib.Nat.{suc-ne-zero}
use ventura_api.Invoice.Entity.{draft, Invoice}
use ventura_api.Invoice.Repository
use ventura_api.Invoice.Tax.{breakdown, sum_orders}
use ventura_api.Invoice.Service.{
  CreateInvoiceDto, is_cancelled, set_of, any_invoiced, any_cancelled, customer_ids, check_orders,
  new_invoice, issue, create,
}

mem-set_of : (x : ℕ) (ids : List ℕ) → mem x ids ≡ true → mem x (set_of ids) ≡ true
mem-set_of x [] h = h
mem-set_of x (i ∷ ids) h = ground (arith, mem-set_of x ids)

-- a list with at most one element has no two different ones
alike :
    (x y : ℕ) (ids : List ℕ)
    → ltb 1 (length ids) ≡ false
    → mem x ids ≡ true
    → mem y ids ≡ true
    → x ≡ y
alike x y [] h k l = cc
alike x y (i ∷ []) h k l = ground arith
alike x y (i ∷ j ∷ ids) h k l = ground arith

module _ {F : Type 0} where
  abbrev pub IsBillable : Uuid → Order F → Type 0
  IsBillable customer o =
      (o.invoice_id ≡ none) × (is_cancelled o.status ≡ false) × (o.customer_id ≡ customer)

  billable :
      (customer : Uuid) (orders : List (Order F)) (ids : List Uuid)
      → any_invoiced orders ≡ false
      → any_cancelled orders ≡ false
      → ltb 1 (length (set_of ids)) ≡ false
      → mem customer ids ≡ true
      → All (λ o. mem o.customer_id ids ≡ true) orders
      → All (IsBillable customer) orders
  billable customer [] ids h k l m n = tt
  billable customer (o ∷ orders) ids h k l m n = (
    (
      ground arith,
      ground arith,
      alike o.customer_id customer (set_of ids) l (mem-set_of o.customer_id ids n.0)
          (mem-set_of customer ids m),
    ),
    billable customer orders ids (ground arith) (ground arith) l m n.1,
  )

  customers_within :
      (ids : List Uuid) (orders : List (Order F))
      → ((x : Uuid) → mem x (customer_ids orders) ≡ true → mem x ids ≡ true)
      → All (λ o. mem o.customer_id ids ≡ true) orders
  customers_within ids [] h = tt
  customers_within ids (o ∷ orders) h =
      (h o.customer_id (ground arith), customers_within ids orders λ x k. h x (ground (arith, k)))

  -- the orders found for the ids cannot be billed together
  abbrev pub refuses : List Uuid → List (Order F) → Bool
  refuses ids orders =
      not (length orders == length ids)
      || any_invoiced orders
      || any_cancelled orders
      || ltb 1 (length (set_of (customer_ids orders)))
      || length orders == 0

  -- what the checks of the orders have found
  abbrev Checked : List Uuid → List (Order F) → Db F → Result (Unit {0}) × Db F → Type 0
  Checked ids orders db (ok _, db') =
      (db' ≡ db)
      × (length orders ≡ length ids)
      × (any_invoiced orders ≡ false)
      × (any_cancelled orders ≡ false)
      × (ltb 1 (length (set_of (customer_ids orders))) ≡ false)
  Checked ids orders db (err e, db') = (db' ≡ db) × (refuses ids orders ≡ true)

  check_orders-Checked :
      (ids : List Uuid) (orders : List (Order F)) (db : Db F)
      → Checked ids orders db (check_orders ids orders db)
  unfolding check_orders
  check_orders-Checked ids orders db = elim (Bool-cases (length orders == length ids)) [
    | inr differ ↦ rw differ (refl, ground arith)
    | inl same ↦ rw same (elim (Bool-cases (any_invoiced orders)) [
      | inl billed ↦ rw billed (refl, ground arith)
      | inr free ↦ rw free (elim (Bool-cases (any_cancelled orders)) [
        | inl gone ↦ rw gone (refl, ground arith)
        | inr live ↦ rw live (elim (Bool-cases (ltb 1 (length (set_of (customer_ids orders))))) [
          | inl many ↦ rw many (refl, ground arith)
          | inr one ↦ rw one (refl, (==_iff _ _).0 same, free, live, one)
        ])
      ])
    ])
  ]

module _ {F : Type 0} ⦃num : Number F⦄ where
  -- an unpaid draft over billable orders of one customer heads the table of invoices
  abbrev pub Drafted : Uuid → List Uuid → List (Order F) → Db F → Invoice F → Db F → Type 0
  Drafted b ids orders db i db' =
      (length orders ≡ length ids)
      × ((c : Uuid) × (i.customer_id ≡ some c) × All (IsBillable c) orders)
      × ((i.status ≡ draft)
          × (i.amount_paid ≡ of_nat 0)
          × (i.order_ids ≡ ids)
          × (i.business_id ≡ b))
      × (i.total_amount ≡ (breakdown (sum_orders (of_nat 0) orders)).total_amount)
      × (db'.invoices ≡ i ∷ db.invoices)
      × (db'.resources ≡ db.resources)

  -- what `create` has done: the draft is written and linked from exactly its orders; or the orders
  -- cannot be billed and nothing is written; or the links cannot be written and the draft stays
  abbrev pub Issued :
      Env → Uuid → List Uuid → List (Order F) → Db F → Result (Invoice F) × Db F → Type 0
  Issued env b ids orders db (ok i, db') =
      Drafted b ids orders db i db'
      × (env.writes_orders ≡ true)
      × (db'.orders ≡ update_all (Orders.among b ids) (Orders.set_invoice (some i.id)) db.orders)
  Issued env b ids orders db (err e, db') =
      ((refuses ids orders ≡ true) × (db' ≡ db))
      ⊎ ((env.writes_orders ≡ false)
          × ((i : Invoice F) × Drafted b ids orders db i db')
          × (db'.orders ≡ db.orders))

  issue-Issued :
      (env : Env) (b : Uuid) (dto : CreateInvoiceDto) (ids : List Uuid) (orders : List (Order F))
      (db : Db F)
      → dto.order_ids ≡ ids
      → Checked ids orders db (ok tt, db)
      → Issued env b ids orders db (issue env b dto orders db)
  unfolding issue Repository.create Orders.attach_invoice
  issue-Issued env b dto ids [] db e h = inl (ground arith, refl)
  issue-Issued env b dto [] (o ∷ orders) db e h = absurd (suc-ne-zero _ h.1)
  issue-Issued env b dto (i ∷ ids) (o ∷ orders) db e h = rw e (elim (Bool-cases env.writes_orders) [
    | inl writes ↦ rw (writes, Orders.attach_invoice) (drafted, refl, refl)
    | inr fails ↦ rw (fails, Orders.attach_invoice) (inr (refl, (invoice, drafted), refl))
  ])
    where
      invoice : Invoice F
      invoice =
          Repository.new_row env
            (new_invoice env b (record dto { order_ids = i ∷ ids }) o
              (breakdown (sum_orders (of_nat 0) (o ∷ orders))))
            db

      drafted :
          Drafted b
            (i ∷ ids)
            (o ∷ orders)
            db
            invoice
            (record db { invoices = invoice ∷ db.invoices; drawn = suc db.drawn })
      drafted = (
        h.1,
        (
          o.customer_id,
          refl,
          billable o.customer_id (o ∷ orders) (customer_ids (o ∷ orders)) h.2 h.3 h.4 (ground arith)
              (customers_within (customer_ids (o ∷ orders)) (o ∷ orders) λ x k. k),
        ),
        (refl, refl, refl, refl),
        refl,
        refl,
        refl,
      )

  -- `create` of an invoice. If it succeeds, there are as many orders as ids asked for, all of one
  -- customer, none of them cancelled or on an invoice; the new invoice is an unpaid draft of that
  -- customer and the business over these ids with the total that the tax breakdown gives for the
  -- orders; it heads the table, its link is set on exactly the orders of the business with these ids,
  -- and the stock is as it was. If it fails, then either the orders are none, not as many as the ids,
  -- in part cancelled or on an invoice, or of several customers, and nothing has changed; or the
  -- database does not accept the write of an order, and the new invoice stays in the table, as
  -- described, while no order has changed.
  pub create-Issued :
      (env : Env) (b : Uuid) (dto : CreateInvoiceDto) (db : Db F)
      → Issued env b dto.order_ids (Orders.find_by_ids b dto.order_ids db) db (create env b dto db)
  unfolding create find_by_ids_in_business
  create-Issued env b dto db = go (check_orders ids orders db) (check_orders-Checked ids orders db)
    where
      ids : List Uuid
      ids = dto.order_ids

      orders : List (Order F)
      orders = Orders.find_by_ids b ids db

      go :
          (x : Result (Unit {0}) × Db F)
          → Checked ids orders db x
          → Issued env b ids orders db (and_then x λ _. issue env b dto orders)
      go (ok _, db') h =
          subst (λ s. Issued env b ids orders db (issue env b dto orders s)) (sym h.0)
            (issue-Issued env b dto ids orders db refl (refl, h.1, h.2, h.3, h.4))
      go (err e, db') h = inl (h.1, h.0)
