-- ===== src/Order/Edit.antt =====
-- `updateItems` of src/order/application/order.service.ts: what it does to the stock and to the order.
use ventura_api.Common.{
  ◌≡◌, refl, sym, ap, ◌∙◌, true, false, Option, none, some, List, [], Uuid, find, find-update,
  find-fits, update, ◌==◌, or_default, arith, Bool-cases, Option-cases, inl, inr, ==_iff, ◌≤◌,
}
use mathlib.Core.Path.{subst}
use mathlib.Core.Bool.{and-eq-true_iff}
use ventura_api.Common.Int.{pos, ◌+ℤ◌, ◌-ℤ◌, int_laws, zero-+ℤ}
use ventura_api.Common.Action.{
  Result, ok, err, internal, pure, raise, catch, ◌>>=◌, ◌>>◌, >>=-ok, or_raise, and_then,
  ReadOnly-elim,
}
use ventura_api.Number.{Number}
use ventura_api.Db.{Db, Env, Service}
use ventura_api.Resource.Stock.{stock_of, unexplained, Shifts, Shifts-refl, Shifts-trans}
use ventura_api.Order.Entity.{OrderStatus, pending, completed, cancelled, OrderItem, Order}
use ventura_api.Order.Repository
use ventura_api.Order.Repository.{at, apply_patch, find_by_id}
use ventura_api.Order.Service.{CreateOrderItem, Applied, build_items, total, get_by_id}
use ventura_api.Order.Quantities.{keys, union}
use ventura_api.Order.Items.{
  is_pending, quantities_from, names_from, more_names, rollback, reconcile, replace_items,
  update_items,
}
use ventura_api.Order.Tally.{times, times-union, times-quantities_from}
use ventura_api.Order.Reserve.{is_cancelled, items_amount, order_amount, reserved, Shifts-cast}
use ventura_api.Order.Create.{build_items-ReadOnly}
use ventura_api.Order.Conserve.{held, held_of_shift, live_amount, reserved-update}
use ventura_api.Order.Rollback.{Enough, rollback-ok}
use ventura_api.Order.Round.{Reconciling}
use ventura_api.Order.Reconcile.{changes-union, reconcile-Reconciling}

is_pending_lem : (s : OrderStatus) → is_pending s ≡ true → s ≡ pending
is_pending_lem pending h = refl
is_pending_lem completed h = cc
is_pending_lem cancelled h = cc

module _ {F : Type 0} ⦃num : Number F⦄ where
  -- the patch of `updateItems`
  abbrev pub to_items : List (OrderItem F) → Repository.UpdateOrder F
  to_items items = record {
    status = none;
    items = some items;
    total_amount = some (total items);
    invoice_id = none;
  }

module _ {F : Type 0} (env : Env) (c id : Uuid) (o : Order F)
    (patch : Repository.UpdateOrder F) where
  row_written :
      (db : Db F)
      → find_by_id c id db ≡ some o
      → env.writes_orders ≡ true
      → Repository.update_row env c id patch db ≡ (
        ok (some (apply_patch patch o)),
        record db { orders = update (at c id) (apply_patch patch) db.orders },
      )
  unfolding Repository.update_row
  row_written db found writes = rw (found, Repository.update_row) (rw writes refl)

  row_refused :
      (db : Db F)
      → find_by_id c id db ≡ some o
      → env.writes_orders ≡ false
      → Repository.update_row env c id patch db
        ≡ (err (internal "The order could not be written."), db)
  unfolding Repository.update_row
  row_refused db found fails = rw (found, Repository.update_row) (rw fails refl)

module _ {F : Type 0} ⦃num : Number F⦄ (b r : Uuid) where
  -- What editing the lines of order `id` of business `c` has done. It ended with a pending order that
  -- stands in the table, whose total is the sum of its lines; what is on hand and what orders hold of
  -- the product have the same sum, and the ledger explains the stock as far as before. Or it failed,
  -- and stock, orders, invoices and customers are as they were.
  abbrev pub Edited : Uuid → Uuid → Db F → Result (Order F) × Db F → Type 0
  Edited c id db (ok o, db') =
      (find_by_id c id db' ≡ some o)
      × (o.status ≡ pending)
      × (o.total_amount ≡ total o.items)
      × (held b r db' ≡ held b r db)
      × (unexplained b r db' ≡ unexplained b r db)
  Edited c id db (err e, db') = Shifts b r (pos 0) db db'

  items_sum :
      (c id : Uuid) (db : Db F) (o : Order F) (items : List (OrderItem F))
      → find_by_id c id db ≡ some o
      → o.status ≡ pending
      → pos (items_amount b r c o.items)
          -ℤ pos (items_amount b r c items)
          +ℤ pos (reserved b r (update (at c id) (apply_patch (to_items items)) db.orders))
        ≡ pos (reserved b r db.orders)
  items_sum c id db o items found open_ =
      let e = reserved-update b r c id db (to_items items) o found in
      let live : is_cancelled o.status ≡ false = ap is_cancelled open_ in
      let l = live_amount b r c id db o found live in
      let own : o.business_id ≡ c =
        (==_iff o.business_id c).0
          ((and-eq-true_iff (o.id == id) (o.business_id == c)).0
            (find-fits (at c id) db.orders o found)).1 in
      let m : order_amount b r (apply_patch (to_items items) o) ≡ items_amount b r c items =
        rw live (ap (λ x. items_amount b r x items) own) in
      omega (int_laws, e, l, m)

  -- the write of the new lines, with its rollback
  abbrev store_items :
      Env → Uuid → Uuid → Order F → List (OrderItem F) → List Applied → Service F (Order F)
  store_items env c id o items applied =
      catch
        (do updated ← Repository.update_row env c id (to_items items); pure (or_default updated o))
        (λ e. rollback env c applied >> raise e)

  -- the same, by what the write returned
  abbrev settled :
      Env
      → Uuid
      → Order F
      → List Applied
      → Result (Option (Order F)) × Db F
      → Result (Order F) × Db F
  settled env c o applied x =
      catch (λ (_ : Db F). and_then x (λ updated. pure (or_default updated o)))
        (λ e. rollback env c applied >> raise e) x.1

  stored :
      (env : Env) (c id : Uuid) (o : Order F) (items : List (OrderItem F)) (applied : List Applied)
      (db : Db F)
      → find_by_id c id db ≡ some o
      → env.writes_orders ≡ true
      → store_items env c id o items applied db ≡ (
        ok (apply_patch (to_items items) o),
        record db { orders = update (at c id) (apply_patch (to_items items)) db.orders },
      )
  stored env c id o items applied db found writes =
      ap (settled env c o applied) (row_written env c id o (to_items items) db found writes)

  not_stored :
      (env : Env) (c id : Uuid) (o : Order F) (items : List (OrderItem F)) (applied : List Applied)
      (db : Db F)
      → find_by_id c id db ≡ some o
      → env.writes_orders ≡ false
      → (rollback env c applied db).0 ≡ ok tt
      → store_items env c id o items applied db
        ≡ (err (internal "The order could not be written."), (rollback env c applied db).1)
  not_stored env c id o items applied db found fails e =
      ap (settled env c o applied) (row_refused env c id o (to_items items) db found fails)
      ∙ >>=-ok (rollback env c applied) (λ _. raise (internal "The order could not be written.")) db
          tt e

  store_items-Edited :
      (env : Env) (c id : Uuid) (o : Order F) (items : List (OrderItem F)) (db : Db F)
      → find_by_id c id db ≡ some o
      → o.status ≡ pending
      → (x : Result (List Applied) × Db F)
      → Reconciling b r c db (pos (items_amount b r c o.items) -ℤ pos (items_amount b r c items)) x
      → Edited c id db (and_then x (store_items env c id o items))
  store_items-Edited env c id o items db found open_ (err e, db') h = h
  store_items-Edited env c id o items db found open_ (ok applied, db') (moved, same, there) =
      let found' : find_by_id c id db' ≡ some o = ap (find (at c id)) moved.orders ∙ found in
      elim (Bool-cases env.writes_orders) [
        | inl writes ↦
            subst (Edited c id db) (sym (stored env c id o items applied db' found' writes)) (
              find-update (at c id) (apply_patch (to_items items)) db'.orders o found'
                  (find-fits (at c id) db'.orders o found'),
              open_,
              refl,
              held_of_shift b r _ db
                  (record db' {
                    orders = update (at c id) (apply_patch (to_items items)) db'.orders;
                  })
                  moved.stock (rw moved.orders (items_sum c id db o items found open_)),
              moved.explained,
            )
        | inr fails ↦
            let (e, back) = rollback-ok b r env c applied db' there in
            subst (Edited c id db) (sym (not_stored env c id o items applied db' found' fails e)) (
              Shifts-cast b r _ _ db _ (rw same (omega int_laws)) (Shifts-trans b r _ _ moved back))
      ]

  replace_items-Edited :
      (env : Env) (c id : Uuid) (o : Order F) (items : List (OrderItem F)) (db : Db F)
      → find_by_id c id db ≡ some o
      → o.status ≡ pending
      → Enough 0 (stock_of b r db)
      → Edited c id db (replace_items env c id o items db)
  unfolding replace_items
  replace_items-Edited env c id o items db found open_ enough =
      let old = quantities_from [] o.items in
      let new = quantities_from [] items in
      let names = more_names (names_from [] items) o.items in
      let h = times-quantities_from r [] o.items (omega arith) in
      let k = times-quantities_from r [] items (omega arith) in
      let once : times r (union (keys old) (keys new)) ≤ 1 =
        (let t = times-union r (keys old) (keys new) h k in ground arith) in
      store_items-Edited env c id o items db found open_
        (reconcile env c names old new (union (keys old) (keys new)) [] db)
        (subst
          (λ d.
            Reconciling b r c db d
              (reconcile env c names old new (union (keys old) (keys new)) [] db))
          (zero-+ℤ _ ∙ changes-union b r c o.items items)
          (reconcile-Reconciling b r c env names old new (union (keys old) (keys new)) [] (pos 0) db
            db once (λ _. refl)
            (Shifts-refl b r db, (let z : pos 0 ≡ pos 0 -ℤ pos 0 = omega int_laws in z), enough)))

  -- `updateItems` of an order, for any product whose stock is not below zero before: if it succeeds, the
  -- order stands in the table, pending, with the sum of its lines as its total, and the product's units
  -- on hand together with the units that orders hold have the same sum as before; if it fails, at
  -- whatever step, stock, orders, invoices and customers are as before. In both cases the ledger
  -- accounts for the stock exactly as far as it did before.
  pub update_items-Edited :
      (env : Env) (c id : Uuid) (lines : List CreateOrderItem) (db : Db F)
      → Enough 0 (stock_of b r db)
      → Edited c id db (update_items env c id lines db)
  unfolding update_items get_by_id
  update_items-Edited env c id lines db enough = elim (Option-cases (find_by_id c id db)) [
    | inl missing ↦ rw (missing, update_items, get_by_id, or_raise) (Shifts-refl b r db)
    | inr (o, found) ↦
        rw (found, update_items, get_by_id, or_raise)
          (elim (Bool-cases (is_pending o.status)) [
            | inl open_ ↦ rw open_ (
                ReadOnly-elim (Edited c id db) (build_items c lines)
                  (λ items. replace_items env c id o items) db (build_items-ReadOnly c lines)
                  (λ e. Shifts-refl b r db)
                  λ items.
                    replace_items-Edited env c id o items db found (is_pending_lem o.status open_)
                      enough)
            | inr closed ↦ rw closed (Shifts-refl b r db)
          ])
  ]
