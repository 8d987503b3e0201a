-- ===== src/Order/Transitions.antt =====
-- `updateStatus` of src/order/application/order.service.ts as a state machine, and what it does when
-- the new status cannot be written.
use ventura_api.Common.{
  ℕ, ◌≡◌, refl, sym, ap, ◌∙◌, true, false, none, some, Uuid, find, find-fits, find-update, is_some,
  or_default, Bool-cases, Option-cases, inl, inr,
}
use mathlib.Core.Path.{subst}
use ventura_api.Common.Int.{pos, int_laws}
use ventura_api.Common.Action.{Result, ok, err, and_then, ◌>>=◌, pure, or_raise, map_state, >>=-ok}
use ventura_api.Db.{Db, Env}
use ventura_api.Resource.Stock.{shift, shift-shift, stock_of, Shifts}
use ventura_api.Order.Entity.{OrderStatus, pending, completed, cancelled, same_status, Order}
use ventura_api.Order.Repository
use ventura_api.Order.Repository.{at, apply_patch}
use ventura_api.Order.Service.{get_by_id, restore_stock}
use ventura_api.Order.Status.{
  allowed, release, product_lines, to_status, change_status, update_status,
}
use ventura_api.Order.Reserve.{is_cancelled, items_amount, order_amount, reserved, restore_stock-ok}
use ventura_api.Order.Conserve.{
  held, Released, release-Released, live_amount, taken_amount-product_lines,
}

-- the steps of an order's life; `stay` is no step
pub data Step : OrderStatus → OrderStatus → Type 0 where
  stay : {s : OrderStatus} → Step s s
  complete : Step pending completed
  cancel_pending : Step pending cancelled
  cancel_completed : Step completed cancelled

allowed-Step : (s t : OrderStatus) → allowed s t ≡ true → Step s t
unfolding allowed
allowed-Step pending pending h = cc
allowed-Step pending completed h = complete
allowed-Step pending cancelled h = cancel_pending
allowed-Step completed pending h = cc
allowed-Step completed completed h = cc
allowed-Step completed cancelled h = cancel_completed
allowed-Step cancelled pending h = cc
allowed-Step cancelled completed h = cc
allowed-Step cancelled cancelled h = cc

module _ {F : Type 0} where
  -- the order number `id` of a business after a change, next to what it was before
  abbrev pub Stepped : Uuid → Uuid → Order F → Db F → Type 0
  Stepped c id o db =
      (o' : Order F) × (Repository.find_by_id c id db ≡ some o')
      × Step o.status o'.status
      × (o'.items ≡ o.items)
      × (o'.total_amount ≡ o.total_amount)
      × (o'.invoice_id ≡ o.invoice_id)

  unmoved :
      (c id : Uuid) (o : Order F) (db : Db F)
      → Repository.find_by_id c id db ≡ some o
      → Stepped c id o db
  unmoved c id o db found = (o, found, stay, refl, refl, refl)

  set_status-Stepped :
      (env : Env) (c id : Uuid) (o : Order F) (status : OrderStatus) (db : Db F)
      → allowed o.status status ≡ true
      → Repository.find_by_id c id db ≡ some o
      → Stepped c id o (Repository.update_row env c id (to_status status) db).1
  unfolding Repository.update_row
  set_status-Stepped env c id o status db legal found = elim (Bool-cases env.writes_orders) [
    | inl writes ↦
        rw (found, Repository.update_row)
          (rw writes (
            apply_patch (to_status status) o,
            find-update (at c id) (apply_patch (to_status status)) db.orders o found
                (find-fits (at c id) db.orders o found),
            allowed-Step o.status status legal,
            refl,
            refl,
            refl,
          ))
    | inr fails ↦ rw (found, Repository.update_row) (rw fails (unmoved c id o db found))
  ]

  change_status-Stepped :
      (env : Env) (c id : Uuid) (o : Order F) (status : OrderStatus) (db : Db F)
      → Repository.find_by_id c id db ≡ some o
      → Stepped c id o (change_status env c id o status db).1
  unfolding change_status
  change_status-Stepped env c id o status db found = elim (Bool-cases (allowed o.status status)) [
    | inr illegal ↦ rw illegal (unmoved c id o db found)
    | inl legal ↦
        rw legal (next legal (release env c o status db) (release-Released c id env c o status db))
  ]
    where
      next :
          allowed o.status status ≡ true
          → (x : Result (Unit {0}) × Db F) → Released c id c o status db x
          → Stepped c id o
              (and_then x λ _. Repository.update_row env c id (to_status status) >>= λ updated.
                pure (or_default updated o)).1
      next legal (ok _, db') h =
          rw
            (map_state (Repository.update_row env c id (to_status status)) (λ u. or_default u o)
              db')
            (set_status-Stepped env c id o status db' legal (ap (find (at c id)) h.orders ∙ found))
      next legal (err e, db') h = rw h (unmoved c id o db found)

  -- Whatever `updateStatus` is asked for, and whether or not the order can be written: an order that
  -- is listed is listed afterwards, its status is as it was or has gone from pending to completed,
  -- from pending to cancelled or from completed to cancelled, and its lines, total and invoice are
  -- as they were.
  pub update_status-Stepped :
      (env : Env) (c id : Uuid) (status : OrderStatus) (o : Order F) (db : Db F)
      → Repository.find_by_id c id db ≡ some o
      → Stepped c id o (update_status env c id status db).1
  unfolding update_status get_by_id
  update_status-Stepped env c id status o db found =
      rw (found, update_status, get_by_id, or_raise)
        (elim (Bool-cases (same_status o.status status)) [
          | inl same ↦ rw same (unmoved c id o db found)
          | inr other ↦ rw other (change_status-Stepped env c id o status db found)
        ])

live_differs : (s : OrderStatus) → is_cancelled s ≡ false → same_status s cancelled ≡ false
live_differs pending h = refl
live_differs completed h = refl
live_differs cancelled h = h

live_allowed : (s : OrderStatus) → is_cancelled s ≡ false → allowed s cancelled ≡ true
unfolding allowed
live_allowed pending h = refl
live_allowed completed h = refl
live_allowed cancelled h = cc

module _ {F : Type 0} (b r : Uuid) where
  -- the stock moved, the orders did not
  held_of-restored :
      (n : ℕ) (db db' : Db F)
      → Shifts b r (pos n) db db'
      → held b r db' ≡ shift (pos n) (held b r db)
  held_of-restored n db db' h =
      rw (h.stock, h.orders)
        (shift-shift (pos n) (pos (reserved b r db.orders)) (stock_of b r db)
          ∙ ap (λ d. shift d (stock_of b r db)) (omega int_laws)
          ∙ sym (shift-shift (pos (reserved b r db.orders)) (pos n) (stock_of b r db)))

  -- a refused write leaves the state to the call before
  update_row-fails :
      (env : Env) (c id : Uuid) (patch : Repository.UpdateOrder F) (db : Db F)
      → env.writes_orders ≡ false
      → (Repository.update_row env c id patch db).1 ≡ db
  unfolding Repository.update_row
  update_row-fails env c id patch db fails = elim (Option-cases (Repository.find_by_id c id db)) [
    | inl missing ↦ rw (missing, Repository.update_row) refl
    | inr (o, found) ↦ rw (found, Repository.update_row) (rw fails refl)
  ]

  change_status-unwritten :
      (env : Env) (c id : Uuid) (o : Order F) (db : Db F)
      → env.writes_orders ≡ false
      → is_cancelled o.status ≡ false
      → o.invoice_id ≡ none
      → held b r (change_status env c id o cancelled db).1
        ≡ shift (pos (items_amount b r c o.items)) (held b r db)
  unfolding change_status release
  change_status-unwritten env c id o db fails live free =
      let taken = product_lines o.items in
      let (e, h) = restore_stock-ok b r env c taken db in
      let db' = (restore_stock env c taken db).1 in
      let free' : is_some o.invoice_id ≡ false = ap is_some free in
      rw (live_allowed o.status live) (
        rw free' (
          rw
            (>>=-ok (restore_stock env c taken)
              (λ _.
                Repository.update_row env c id (to_status cancelled) >>= λ u. pure (or_default u o))
              db tt e)
            (rw
              (map_state (Repository.update_row env c id (to_status cancelled))
                (λ u. or_default u o) db')
              (rw (update_row-fails env c id (to_status cancelled) db' fails) (
                held_of-restored (items_amount b r c o.items) db db' (
                  subst (λ n. Shifts b r (pos n) db db') (taken_amount-product_lines b r c o.items)
                    h))))))

  -- If the database refuses the write of an order that may be cancelled and is on no invoice, then
  -- `updateStatus` to cancelled leaves, for every product, the units on hand and held larger by the
  -- units that the order holds: its stock was given back and it still holds it.
  pub cancel-unwritten :
      (env : Env) (c id : Uuid) (o : Order F) (db : Db F)
      → env.writes_orders ≡ false
      → Repository.find_by_id c id db ≡ some o
      → is_cancelled o.status ≡ false
      → o.invoice_id ≡ none
      → held b r (update_status env c id cancelled db).1
        ≡ shift (pos (order_amount b r o)) (held b r db)
  unfolding update_status get_by_id
  cancel-unwritten env c id o db fails found live free =
      rw (found, update_status, get_by_id, or_raise)
        (rw (live_differs o.status live) (
          rw (live_amount b r c id db o found live)
            (change_status-unwritten env c id o db fails live free)))
