-- ===== src/Order/Repository.antt =====
-- src/order/infrastructure/postgres-order.repository.ts. `id` is the primary key. A write of one
-- order fails when the environment says so, before anything is written.
use ventura_api.Common.{
  suc, Bool, ◌&&◌, Option, none, some, String, List, [], ◌∷◌, Uuid, find, filter, update,
  update_all, mem, ◌==◌, if◌then◌else◌, or_default,
}
use ventura_api.Common.Action.{ok, err, internal}
use ventura_api.Db.{Db, Env, Service}
use ventura_api.Order.Entity.{OrderStatus, OrderItem, Order}

-- `ICreateOrder`
pub record CreateOrder (F : Type 0) : Type 0 where
  pub business_id : Uuid
  pub customer_id : Uuid
  pub customer_name : String
  pub customer_email : Option String
  pub customer_phone : Option String
  pub items : List (OrderItem F)
  pub total_amount : F
  pub status : OrderStatus

-- `IUpdateOrder`: a field that is `none` is not written
pub record UpdateOrder (F : Type 0) : Type 0 where
  pub status : Option OrderStatus
  pub items : Option (List (OrderItem F))
  pub total_amount : Option F
  pub invoice_id : Option (Option Uuid)

module _ {F : Type 0} where
  -- `{ id, businessId }`
  abbrev pub at : Uuid → Uuid → Order F → Bool
  at business_id id o = o.id == id && o.business_id == business_id

  -- `{ id: { $in: ids }, businessId }`
  abbrev pub among : Uuid → List Uuid → Order F → Bool
  among business_id ids o = mem o.id ids && o.business_id == business_id

  -- a new row (postgres.order-entity.ts)
  abbrev pub new_row : Env → CreateOrder F → Db F → Order F
  new_row env d db = record {
    id = env.uuid db.drawn;
    order_number = env.label db.drawn;
    business_id = d.business_id;
    customer_id = d.customer_id;
    customer_name = d.customer_name;
    customer_email = d.customer_email;
    customer_phone = d.customer_phone;
    items = d.items;
    total_amount = d.total_amount;
    status = d.status;
    invoice_id = none;
  }

  unfoldable pub create : Env → CreateOrder F → Service F (Order F)
  create env d db =
      let row = new_row env d db in
      if env.writes_orders
      then (ok row, record db { orders = row ∷ db.orders; drawn = suc db.drawn })
      else (err (internal "The order could not be written."), db)

  abbrev pub find_by_id : Uuid → Uuid → Db F → Option (Order F)
  find_by_id business_id id db = find (at business_id id) db.orders

  abbrev pub find_by_ids : Uuid → List Uuid → Db F → List (Order F)
  find_by_ids business_id ids db = filter (among business_id ids) db.orders

  abbrev pub apply_patch : UpdateOrder F → Order F → Order F
  apply_patch p o = record o {
    status = or_default p.status o.status;
    items = or_default p.items o.items;
    total_amount = or_default p.total_amount o.total_amount;
    invoice_id = or_default p.invoice_id o.invoice_id;
  }

  unfoldable pub update_row : Env → Uuid → Uuid → UpdateOrder F → Service F (Option (Order F))
  update_row env business_id id patch db = elim (find_by_id business_id id db) [
    | none ↦ (ok none, db)
    | some o ↦
        if env.writes_orders
        then (
          ok (some (apply_patch patch o)),
          record db { orders = update (at business_id id) (apply_patch patch) db.orders },
        )
        else (err (internal "The order could not be written."), db)
  ]

  abbrev pub set_invoice : Option Uuid → Order F → Order F
  set_invoice i o = record o { invoice_id = i }

  -- The database may refuse the write, as in `update_row`.
  unfoldable pub attach_invoice : Env → Uuid → List Uuid → Uuid → Service F (Unit {0})
  attach_invoice env business_id [] invoice_id db = (ok tt, db)
  attach_invoice env business_id (i ∷ ids) invoice_id db =
      if env.writes_orders
      then (
        ok tt,
        record db {
          orders =
              update_all (among business_id (i ∷ ids)) (set_invoice (some invoice_id)) db.orders;
        },
      )
      else (err (internal "The orders could not be written."), db)

  unfoldable pub detach_invoice : Env → Uuid → List Uuid → Service F (Unit {0})
  detach_invoice env business_id [] db = (ok tt, db)
  detach_invoice env business_id (i ∷ ids) db =
      if env.writes_orders
      then (
        ok tt,
        record db {
          orders = update_all (among business_id (i ∷ ids)) (set_invoice none) db.orders;
        },
      )
      else (err (internal "The orders could not be written."), db)
