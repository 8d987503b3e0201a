-- ===== src/Order/Conserve.antt =====
-- What a product has on hand and what the orders hold of it, under `create` and `updateStatus` of
-- src/order/application/order.service.ts.
use ventura_api.Common.{
  ◌+◌, ◌≡◌, refl, ap, ◌∙◌, true, false, Option, some, List, [], ◌∷◌, Uuid, Bool-cases, Option-cases,
  inl, inr, arith, sum_by-update, find, find-fits, update, is_some, ==_iff, if◌then◌else◌,
  or_default,
}
use mathlib.Core.Path.{subst}
use mathlib.Core.Bool.{and-eq-true_iff}
use ventura_api.Common.Int.{ℤ, pos, ◌+ℤ◌, ◌-ℤ◌, int_laws}
use ventura_api.Common.Action.{Result, ok, err, pure, ◌>>=◌, or_raise, and_then, map_state}
use ventura_api.Number.{Number}
use ventura_api.Db.{Db, Env}
use ventura_api.Resource.Stock.{stock_of, shift, shift-shift, Shifts, Shifts-refl}
use ventura_api.Order.Entity.{
  OrderStatus, pending, completed, cancelled, same_status, OrderItem, Order,
}
use ventura_api.Order.Repository
use ventura_api.Order.Repository.{at, apply_patch}
use ventura_api.Order.Service.{CreateOrderDto, restore_stock, create, get_by_id}
use ventura_api.Order.Status.{
  allowed, product_lines, release, to_status, change_status, update_status,
}
use ventura_api.Order.Reserve.{
  is_cancelled, items_amount, order_amount, reserved, taken_amount, restore_stock-ok,
}
use ventura_api.Order.Create.{Created, create-Created}

module _ {F : Type 0} (b r : Uuid) where
  -- units of a product on hand and held by orders together; `none` if it is not listed
  abbrev pub held : Db F → Option ℤ
  held db = shift (pos (reserved b r db.orders)) (stock_of b r db)

  pub held_of_shift :
      (d : ℤ) (db db' : Db F)
      → stock_of b r db' ≡ shift d (stock_of b r db)
      → d +ℤ pos (reserved b r db'.orders) ≡ pos (reserved b r db.orders)
      → held db' ≡ held db
  held_of_shift d db db' e k =
      ap (shift (pos (reserved b r db'.orders))) e
      ∙ shift-shift d (pos (reserved b r db'.orders)) (stock_of b r db)
      ∙ ap (λ x. shift x (stock_of b r db)) k

  pub held_of-Shifts : (db db' : Db F) → Shifts b r (pos 0) db db' → held db' ≡ held db
  held_of-Shifts db db' h = held_of_shift (pos 0) db db' h.stock (rw h.orders (omega int_laws))

module _ {F : Type 0} ⦃num : Number F⦄ (b r : Uuid) where
  held_of-Created :
      (c : Uuid) (db : Db F) (x : Result (Order F) × Db F)
      → Created b r c db x
      → held b r x.1 ≡ held b r db
  held_of-Created c db (ok o, db') h =
      held_of_shift b r (pos 0 -ℤ pos (order_amount b r o)) db db' h.5 (rw h.4 (omega int_laws))
  held_of-Created c db (err e, db') h = held_of-Shifts b r db db' h

  -- After `create` of an order, successful or not, the units on hand and the units that the orders
  -- which are not cancelled hold have the same sum as before, for every product.
  pub create-held :
      (env : Env) (c : Uuid) (dto : CreateOrderDto) (db : Db F)
      → held b r (create env c dto db).1 ≡ held b r db
  create-held env c dto db =
      held_of-Created c db (create env c dto db) (create-Created b r env c dto db)

pub allowed_live : (s t : OrderStatus) → allowed s t ≡ true → is_cancelled s ≡ false
unfolding allowed
allowed_live pending t h = refl
allowed_live completed t h = refl
allowed_live cancelled t h = absurd (not_allowed t h)
  where
    not_allowed : (t : OrderStatus) → allowed cancelled t ≡ true → ⊥
    not_allowed pending h = cc
    not_allowed completed h = cc
    not_allowed cancelled h = cc

module _ {F : Type 0} (b r : Uuid) where
  pub taken_amount-product_lines :
      (c : Uuid) (items : List (OrderItem F))
      → taken_amount b r c (product_lines items) ≡ items_amount b r c items
  unfolding product_lines
  taken_amount-product_lines c [] = refl
  taken_amount-product_lines c (item ∷ items) = ground (arith, taken_amount-product_lines c items)

  pub live_amount :
      (c id : Uuid) (db : Db F) (o : Order F)
      → Repository.find_by_id c id db ≡ some o
      → is_cancelled o.status ≡ false
      → order_amount b r o ≡ items_amount b r c o.items
  live_amount c id db o found live = rw live (
      ap (λ x. items_amount b r x o.items)
        ((==_iff _ _).0 ((and-eq-true_iff _ _).0 (find-fits (at c id) db.orders o found)).1))

  -- the units held once the order has been written again
  pub reserved-update :
      (c id : Uuid) (db : Db F) (patch : Repository.UpdateOrder F) (o : Order F)
      → Repository.find_by_id c id db ≡ some o
      → reserved b r (update (at c id) (apply_patch patch) db.orders) + order_amount b r o
        ≡ reserved b r db.orders + order_amount b r (apply_patch patch o)
  reserved-update c id db patch o found =
      sum_by-update (order_amount b r) (at c id) (apply_patch patch) db.orders o found

  status_sum :
      (c id : Uuid) (db : Db F) (o : Order F) (status : OrderStatus)
      → Repository.find_by_id c id db ≡ some o
      → is_cancelled o.status ≡ false
      → (if is_cancelled status then pos (items_amount b r c o.items) else pos 0)
          +ℤ pos (reserved b r (update (at c id) (apply_patch (to_status status)) db.orders))
        ≡ pos (reserved b r db.orders)
  status_sum c id db o status found live =
      let e = reserved-update c id db (to_status status) o found in
      let l = live_amount c id db o found live in
      elim (Bool-cases (is_cancelled status)) [
        | inl ends ↦
            let e' : reserved b r (update (at c id) (apply_patch (to_status status)) db.orders)
                  + order_amount b r o
                ≡ reserved b r db.orders + 0 =
              rw ends at e in
            rw ends (omega (int_laws, e', l))
        | inr stays ↦
            let e' : reserved b r (update (at c id) (apply_patch (to_status status)) db.orders)
                  + order_amount b r o
                ≡ reserved b r db.orders + items_amount b r o.business_id o.items =
              rw stays at e in
            let l' : order_amount b r o ≡ items_amount b r o.business_id o.items = rw live in
            rw stays (omega (int_laws, e', l'))
      ]

  -- the write of a status, after the stock of a cancelled order was given back
  set_status-held :
      (env : Env) (c id : Uuid) (o : Order F) (status : OrderStatus) (db db' : Db F)
      → env.writes_orders ≡ true
      → Repository.find_by_id c id db ≡ some o
      → is_cancelled o.status ≡ false
      → Shifts b r (if is_cancelled status then pos (items_amount b r c o.items) else pos 0) db db'
      → held b r (Repository.update_row env c id (to_status status) db').1 ≡ held b r db
  unfolding Repository.update_row
  set_status-held env c id o status db db' writes found live h =
      let found' : Repository.find_by_id c id db' ≡ some o = ap (find (at c id)) h.orders ∙ found in
      rw (found', Repository.update_row)
        (rw writes (
          held_of_shift b r
            (if is_cancelled status then pos (items_amount b r c o.items) else pos 0) db
            (record db' { orders = update (at c id) (apply_patch (to_status status)) db'.orders })
            h.stock (rw h.orders (status_sum c id db o status found live))))

  abbrev pub Released : Uuid → Order F → OrderStatus → Db F → Result (Unit {0}) × Db F → Type 0
  Released c o status db (ok _, db') =
      Shifts b r (if is_cancelled status then pos (items_amount b r c o.items) else pos 0) db db'
  Released c o status db (err e, db') = db' ≡ db

  Released-of :
      (c : Uuid) (o : Order F) (db : Db F) (x : Result (Unit {0}) × Db F)
      → x.0 ≡ ok tt
      → Shifts b r (pos (items_amount b r c o.items)) db x.1
      → Released c o cancelled db x
  Released-of c o db (ok _, db') e h = h
  Released-of c o db (err x, db') e h = cc

  pub release-Released :
      (env : Env) (c : Uuid) (o : Order F) (status : OrderStatus) (db : Db F)
      → Released c o status db (release env c o status db)
  unfolding release
  release-Released env c o pending db = Shifts-refl b r db
  release-Released env c o completed db = Shifts-refl b r db
  release-Released env c o cancelled db = elim (Bool-cases (is_some o.invoice_id)) [
    | inl invoiced ↦ rw invoiced refl
    | inr free ↦
        let taken = product_lines o.items in
        let (e, h) = restore_stock-ok b r env c taken db in
        rw free (
          Released-of c o db (restore_stock env c taken db) e (
            subst (λ n. Shifts b r (pos n) db (restore_stock env c taken db).1)
              (taken_amount-product_lines c o.items) h))
  ]

  change_status-held :
      (env : Env) (c id : Uuid) (o : Order F) (status : OrderStatus) (db : Db F)
      → env.writes_orders ≡ true
      → Repository.find_by_id c id db ≡ some o
      → held b r (change_status env c id o status db).1 ≡ held b r db
  unfolding change_status
  change_status-held env c id o status db writes found =
      elim (Bool-cases (allowed o.status status)) [
        | inl legal ↦ rw legal (
            next (release env c o status db) (release-Released env c o status db)
              (allowed_live o.status status legal))
        | inr illegal ↦ rw illegal refl
      ]
    where
      next :
          (x : Result (Unit {0}) × Db F)
          → Released c o status db x
          → is_cancelled o.status ≡ false
          → held b r
              (and_then x λ _. Repository.update_row env c id (to_status status) >>= λ updated.
                pure (or_default updated o)).1
            ≡ held b r db
      next (ok _, db') h live =
          rw
            (map_state (Repository.update_row env c id (to_status status)) (λ u. or_default u o)
              db')
            (set_status-held env c id o status db db' writes found live h)
      next (err e, db') h live = ap (held b r) h

  -- If the database accepts the write of the order, then after the orders' `updateStatus`, successful
  -- or not, the units on hand and the units that the orders which are not cancelled hold have the
  -- same sum as before, for every product.
  pub update_status-held :
      (env : Env) (c id : Uuid) (status : OrderStatus) (db : Db F)
      → env.writes_orders ≡ true
      → held b r (update_status env c id status db).1 ≡ held b r db
  unfolding update_status get_by_id
  update_status-held env c id status db writes =
      elim (Option-cases (Repository.find_by_id c id db)) [
        | inl missing ↦ rw (missing, update_status, get_by_id, or_raise) refl
        | inr (o, found) ↦
            rw (found, update_status, get_by_id, or_raise)
              (elim (Bool-cases (same_status o.status status)) [
                | inl same ↦ rw same refl
                | inr other ↦ rw other (change_status-held env c id o status db writes found)
              ])
      ]
