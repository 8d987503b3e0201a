-- ===== src/Order/Kept.antt =====
-- Invariants under the calls of src/order/application/order.service.ts and `adjustStock`
-- of src/resource/application/resource.service.ts.
use ventura_api.Common.{◌≡◌, sym, ℕ, zero, suc, String, Bool, true, false, List, [], ◌∷◌, Uuid}
use mathlib.Core.Path.{subst}
use ventura_api.Common.Int.{ℤ, pos, negsuc}
use ventura_api.Common.Action.{conflict, Action, ReadOnly, raise}
use ventura_api.Common.Keeps.{Keeps, Keeps->>=, Keeps-if, Keeps-pure, Keeps-raise, keeps_rules}
use ventura_api.Number.{Number}
use ventura_api.Db.{Db, Env}
use ventura_api.Resource.Entity.{is_product}
use ventura_api.Resource.Repository.{
  RecordAdjustment, record_adjustment, decrement_stock, increment_stock,
}
use ventura_api.Resource.Service as Resources
use ventura_api.Resource.Service.{StockAdjustmentDto, adjust_stock}
use ventura_api.Customer.Entity.{Customer}
use ventura_api.Customer.Service as Customers
use ventura_api.Order.Entity.{OrderStatus, pending, completed, cancelled, OrderItem, Order}
use ventura_api.Order.Repository
use ventura_api.Order.Quantities.{Map}
use ventura_api.Order.Service.{
  insufficient_stock, base_units, taken_or_failed, CreateOrderItem, CreateOrderDto, Taken, Applied,
  build_items, restore_stock, reserve_line, reserve, store_order, place, create, get_by_id,
}
use ventura_api.Order.Status.{release, change_status, update_status}
use ventura_api.Order.Items.{undo, rollback, reconcile_one, reconcile, replace_items, update_items}
use ventura_api.Order.Create.{customer-ReadOnly, build_items-ReadOnly}

-- an invariant that the stock operations and the writes of orders of a business keep
module _ {F : Type 0} (I : Db F → Type 0) (b : Uuid)
    (adjust-Keeps : (env : Env) (d : RecordAdjustment)
      → d.business_id ≡ b
      → Keeps I (record_adjustment env d))
    (order_row-Keeps : (env : Env) (id : Uuid) (patch : Repository.UpdateOrder F)
      → Keeps I (Repository.update_row env b id patch))
    (order-Keeps : (env : Env) (d : Repository.CreateOrder F)
      → d.business_id ≡ b
      → Keeps I (Repository.create env d)) where
  decrement_stock-Keeps :
      (env : Env) (r : Uuid) (n : ℕ) → Keeps I (decrement_stock {F = F} env b r n)
  unfolding decrement_stock
  decrement_stock-Keeps env r n = search (keeps_rules, adjust-Keeps) depth 10

  increment_stock-Keeps :
      (env : Env) (r : Uuid) (n : ℕ) → Keeps I (increment_stock {F = F} env b r n)
  unfolding increment_stock
  increment_stock-Keeps env r n = search (keeps_rules, adjust-Keeps) depth 10

  pub adjust_stock-Keeps :
      (env : Env) (r : Uuid) (dto : StockAdjustmentDto) (by : Uuid)
      → Keeps I (adjust_stock {F = F} env b r dto by)
  unfolding adjust_stock Resources.get_by_id
  adjust_stock-Keeps env r dto by = search (keeps_rules, adjust-Keeps) depth 14

  restore_stock-Keeps :
      (env : Env) (taken : List Taken) → Keeps I (restore_stock {F = F} env b taken)
  unfolding restore_stock
  restore_stock-Keeps env [] = search keeps_rules
  restore_stock-Keeps env (t ∷ taken) =
      Keeps->>= (increment_stock env b t.resource_id t.quantity) (λ _. restore_stock env b taken)
        (increment_stock-Keeps env t.resource_id t.quantity) (λ _. restore_stock-Keeps env taken)

  reserve_line-Keeps :
      (env : Env) (item : OrderItem F) (taken : List Taken)
      → Keeps I (reserve_line env b item taken)
  unfolding reserve_line
  reserve_line-Keeps env item taken =
      Keeps-if (is_product item.type) _ _
        (Keeps->>= (decrement_stock env b item.resource_id (base_units item))
          (taken_or_failed env b item taken)
          (decrement_stock-Keeps env item.resource_id (base_units item)) after)
        (Keeps-pure taken)
    where
      after : (enough : Bool) → Keeps I (taken_or_failed env b item taken enough)
      after true = Keeps-pure _
      after false =
          Keeps->>= (restore_stock env b taken)
            (λ _. raise (conflict (insufficient_stock item.name))) (restore_stock-Keeps env taken)
            (λ _. Keeps-raise _)

  reserve-Keeps :
      (env : Env) (items : List (OrderItem F)) (taken : List Taken)
      → Keeps I (reserve env b items taken)
  unfolding reserve
  reserve-Keeps env [] taken = Keeps-pure taken
  reserve-Keeps env (item ∷ items) taken =
      Keeps->>= (reserve_line env b item taken) (λ t. reserve env b items t)
        (reserve_line-Keeps env item taken) (λ t. reserve-Keeps env items t)

  release-Keeps :
      (env : Env) (o : Order F) (status : OrderStatus) → Keeps I (release env b o status)
  unfolding release
  release-Keeps env o pending = Keeps-pure tt
  release-Keeps env o completed = Keeps-pure tt
  release-Keeps env o cancelled = search (keeps_rules, restore_stock-Keeps) depth 10

  pub update_status-Keeps :
      (env : Env) (id : Uuid) (status : OrderStatus)
      → Keeps I (update_status {F = F} env b id status)
  unfolding update_status change_status get_by_id
  update_status-Keeps env id status = search (keeps_rules, release-Keeps, order_row-Keeps) depth 20

  undo-Keeps : (env : Env) (a : Applied) → Keeps I (undo {F = F} env b a)
  unfolding undo
  undo-Keeps env a = go a.quantity
    where
      go :
          (q : ℤ)
          → Keeps I (undo {F = F} env b (record { resource_id = a.resource_id; quantity = q }))
      go (pos zero) = search (keeps_rules, decrement_stock-Keeps) depth 10
      go (pos (suc n)) = increment_stock-Keeps env a.resource_id (suc n)
      go (negsuc n) = search (keeps_rules, decrement_stock-Keeps) depth 10

  rollback-Keeps : (env : Env) (applied : List Applied) → Keeps I (rollback {F = F} env b applied)
  unfolding rollback
  rollback-Keeps env [] = Keeps-pure tt
  rollback-Keeps env (a ∷ applied) =
      Keeps->>= (undo env b a) (λ _. rollback env b applied) (undo-Keeps env a)
        (λ _. rollback-Keeps env applied)

  reconcile_one-Keeps :
      (env : Env) (names : Map String) (old new : Map ℕ) (s : Uuid) (applied : List Applied)
      → Keeps I (reconcile_one {F = F} env b names old new s applied)
  unfolding reconcile_one
  reconcile_one-Keeps env names old new s applied =
      search (keeps_rules, decrement_stock-Keeps, increment_stock-Keeps, rollback-Keeps) depth 20

  reconcile-Keeps :
      (env : Env) (names : Map String) (old new : Map ℕ) (ids : List Uuid) (applied : List Applied)
      → Keeps I (reconcile {F = F} env b names old new ids applied)
  unfolding reconcile
  reconcile-Keeps env names old new [] applied = Keeps-pure applied
  reconcile-Keeps env names old new (s ∷ ids) applied =
      Keeps->>= (reconcile_one env b names old new s applied)
        (λ t. reconcile env b names old new ids t) (reconcile_one-Keeps env names old new s applied)
        (λ t. reconcile-Keeps env names old new ids t)

  module _ ⦃num : Number F⦄ where
    ReadOnly-Keeps : {A : Type 0} (m : Action (Db F) A) → ReadOnly m → Keeps I m
    ReadOnly-Keeps m h = record { at = λ db k. subst I (sym (h db)) k }

    items-Keeps : (lines : List CreateOrderItem) → Keeps I (build_items b lines)
    items-Keeps lines = ReadOnly-Keeps (build_items b lines) (build_items-ReadOnly b lines)

    customer-Keeps : (i : Uuid) → Keeps I (Customers.get_by_id b i)
    customer-Keeps i = ReadOnly-Keeps (Customers.get_by_id b i) (customer-ReadOnly b i)

    place-Keeps :
        (env : Env) (i : Uuid) (customer : Customer) (items : List (OrderItem F))
        → Keeps I (place env b i customer items)
    unfolding place store_order
    place-Keeps env i customer items =
        search (keeps_rules, reserve-Keeps, order-Keeps, restore_stock-Keeps) depth 12

    pub create-Keeps : (env : Env) (dto : CreateOrderDto) → Keeps I (create env b dto)
    unfolding create
    create-Keeps env dto = search (keeps_rules, customer-Keeps, items-Keeps, place-Keeps) depth 12

    replace_items-Keeps :
        (env : Env) (id : Uuid) (o : Order F) (items : List (OrderItem F))
        → Keeps I (replace_items env b id o items)
    unfolding replace_items
    replace_items-Keeps env id o items =
        search (keeps_rules, reconcile-Keeps, order_row-Keeps, rollback-Keeps) depth 14

    pub update_items-Keeps :
        (env : Env) (id : Uuid) (lines : List CreateOrderItem)
        → Keeps I (update_items env b id lines)
    unfolding update_items get_by_id
    update_items-Keeps env id lines =
        search (keeps_rules, items-Keeps, replace_items-Keeps) depth 14
