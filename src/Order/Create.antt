-- ===== src/Order/Create.antt =====
-- `create` of src/order/application/order.service.ts: what it does to the stock and to the orders.
use ventura_api.Common.{
  ◌≡◌, refl, ap, false, none, List, [], ◌∷◌, Uuid, Bool-cases, inl, inr, arith,
}
use mathlib.Core.Path.{subst}
use native.Mathlib.Nat.{zero-add}
use ventura_api.Common.Int.{pos, ◌-ℤ◌, int_laws}
use ventura_api.Common.Action.{
  Error, Result, ok, err, pure, raise, internal, ◌>>=◌, >>=-ok, ReadOnly, ReadOnly-elim,
  >>=-ReadOnly,
}
use ventura_api.Number.{Number}
use ventura_api.Db.{Db, Env, Service}
use ventura_api.Customer.Entity.{Customer}
use ventura_api.Customer.Service as Customers
use ventura_api.Resource.Service as Resources
use ventura_api.Resource.Stock.{stock_of, shift, unexplained, Shifts, Shifts-refl, Shifts-trans}
use ventura_api.Order.Entity.{pending, OrderItem, Order}
use ventura_api.Order.Repository
use ventura_api.Order.Service.{
  CreateOrderItem, CreateOrderDto, Taken, build_item, build_items, resolve_unit, total,
  restore_stock, reserve, store_order, place, create,
}
use ventura_api.Order.Reserve.{
  items_amount, order_amount, restore_stock-ok, Reserving, reserve-Reserving, Shifts-cast,
}

tail_eq {ℓ} : {A : Type ℓ} {a : A} {xs ys : List A} → xs ≡ ys → a ∷ xs ≡ a ∷ ys
tail_eq {a} e = ap (λ l. a ∷ l) e

abbrev write_failed : Error
write_failed = internal "The order could not be written."

module _ {F : Type 0} where
  pub customer-ReadOnly : (c i : Uuid) → ReadOnly {S = Db F} (Customers.get_by_id c i)
  unfolding Customers.get_by_id
  customer-ReadOnly c i db = ground arith

module _ {F : Type 0} ⦃num : Number F⦄ where
  build_item-ReadOnly :
      (c : Uuid) (line : CreateOrderItem) → ReadOnly {S = Db F} (build_item c line)
  unfolding build_item Resources.get_by_id resolve_unit
  build_item-ReadOnly c line db = ground arith

  -- `buildItems`, which validates the lines of an order, changes nothing, whether it succeeds or fails.
  pub build_items-ReadOnly :
      (c : Uuid) (lines : List CreateOrderItem) → ReadOnly {S = Db F} (build_items c lines)
  unfolding build_items
  build_items-ReadOnly c [] = λ db. refl
  build_items-ReadOnly c (line ∷ lines) =
      let rest : OrderItem F → Service F (List (OrderItem F)) =
        λ item. build_items c lines >>= λ items. pure (item ∷ items) in
      >>=-ReadOnly (build_item c line) rest (build_item-ReadOnly c line) λ item.
        >>=-ReadOnly (build_items c lines) (λ items. pure (item ∷ items))
          (build_items-ReadOnly c lines) λ items db. refl

module _ {F : Type 0} ⦃num : Number F⦄ (b r : Uuid) where
  -- What creating an order has done. It ended with a pending order that heads the table, whose total
  -- is the sum of its lines and whose units of the product are out of stock; or it failed, and the
  -- stock and the orders are as they were.
  abbrev pub Created : Uuid → Db F → Result (Order F) × Db F → Type 0
  Created c db (ok o, db') =
      (o.status ≡ pending)
      × (o.business_id ≡ c)
      × (o.invoice_id ≡ none)
      × (o.total_amount ≡ total o.items)
      × (db'.orders ≡ o ∷ db.orders)
      × (stock_of b r db' ≡ shift (pos 0 -ℤ pos (order_amount b r o)) (stock_of b r db))
      × (unexplained b r db' ≡ unexplained b r db)
  Created c db (err e, db') = Shifts b r (pos 0) db db'

  store_order-Created :
      (env : Env) (c i : Uuid) (customer : Customer) (items : List (OrderItem F)) (db₀ : Db F)
      (x : Result (List Taken) × Db F)
      → Reserving b r c db₀ (items_amount b r c items) x
      → Created c db₀ (
          let (res, db) = x in
          elim res [ ok a ↦ store_order env c i customer items a db | err e ↦ raise e db ])
  unfolding store_order Repository.create
  store_order-Created env c i customer items db₀ (err e, db) h = h
  store_order-Created env c i customer items db₀ (ok taken, db) h =
      elim (Bool-cases env.writes_orders) [
        | inl writes ↦
            rw writes (refl, refl, refl, refl, tail_eq h.1.orders, h.1.stock, h.1.explained)
        | inr fails ↦
            let env' : Env = record env { writes_orders = false } in
            let (e, back) = restore_stock-ok b r env' c taken db in
            rw fails (
              rw (>>=-ok (restore_stock env' c taken) (λ _. raise write_failed) db tt e) (
                Shifts-cast b r _ _ db₀ _ (rw h.0 (omega int_laws))
                  (Shifts-trans b r (pos 0 -ℤ pos (items_amount b r c items)) _ h.1 back)))
      ]

  -- Where nothing was changed before, `place` decides.
  pub place-Created :
      (env : Env) (c i : Uuid) (customer : Customer) (items : List (OrderItem F)) (db : Db F)
      → Created c db (place env c i customer items db)
  unfolding place
  place-Created env c i customer items db =
      store_order-Created env c i customer items db (reserve env c items [] db) (
        subst (λ n. Reserving b r c db n (reserve env c items [] db)) (zero-add _)
          (reserve-Reserving b r env c items [] 0 db db
            (refl, Shifts-cast b r (pos 0) _ db db (omega int_laws) (Shifts-refl b r db))))

  -- `create` of an order, for any product and whether or not the order can be written: if it succeeds,
  -- the new order is pending, of the business, on no invoice, its total is the sum of its lines, it
  -- heads the table, and the product's stock has fallen by the base units that its lines name; if it
  -- fails, stock, orders, invoices and customers are as before. In both cases the ledger accounts for
  -- the stock exactly as far as it did before.
  pub create-Created :
      (env : Env) (c : Uuid) (dto : CreateOrderDto) (db : Db F) → Created c db (create env c dto db)
  unfolding create
  create-Created env c dto db =
      let placing : Customer → List (OrderItem F) → Service F (Order F) =
        λ customer items. place env c dto.customer_id customer items in
      ReadOnly-elim (Created c db) (Customers.get_by_id c dto.customer_id)
        (λ customer. build_items c dto.items >>= placing customer) db
        (customer-ReadOnly c dto.customer_id) (λ e. Shifts-refl b r db)
        λ customer.
          ReadOnly-elim (Created c db) (build_items c dto.items) (placing customer) db
            (build_items-ReadOnly c dto.items) (λ e. Shifts-refl b r db)
            λ items. place-Created env c dto.customer_id customer items db
