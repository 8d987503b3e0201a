-- ===== src/Order/Stocked.antt =====
-- No stock falls below zero under the calls of src/order/application/order.service.ts and `adjustStock`
-- of src/resource/application/resource.service.ts.
use ventura_api.Common.{List, Uuid, find, All, All-find, Option-cases, Bool-cases, inl, inr}
use ventura_api.Common.Keeps.{Keeps}
use ventura_api.Number.{Number}
use ventura_api.Db.{Db, Env}
use ventura_api.Resource.Entity.{is_product}
use ventura_api.Resource.Repository.{
  RecordAdjustment, record_adjustment, decrement_stock, increment_stock,
}
use ventura_api.Resource.Repository as Stock
use ventura_api.Resource.Service.{StockAdjustmentDto, adjust_stock}
use ventura_api.Resource.Nonneg.{IsStocked, record_adjustment-IsStocked}
use ventura_api.Resource.Stock.{stock_of}
use ventura_api.Order.Entity.{OrderStatus}
use ventura_api.Order.Repository
use ventura_api.Order.Service.{CreateOrderItem, CreateOrderDto, create}
use ventura_api.Order.Status.{update_status}
use ventura_api.Order.Items.{update_items}
use ventura_api.Order.Rollback.{Enough}
use ventura_api.Order.Kept.{
  adjust_stock-Keeps, update_status-Keeps, create-Keeps, update_items-Keeps,
}

module _ {F : Type 0} where
  -- no resource has a negative stock
  pub record AllStocked (db : Db F) : Type 0 where
    pub stocked : All IsStocked db.resources

  pub AllStocked-Enough : (b r : Uuid) (db : Db F) → AllStocked db → Enough 0 (stock_of b r db)
  AllStocked-Enough b r db h = elim (Option-cases (find (Stock.at b r) db.resources)) [
    | inl missing ↦ rw missing tt
    | inr (x, found) ↦ rw found (elim (Bool-cases (is_product x.type)) [
      | inl good ↦ rw good (All-find IsStocked (Stock.at b r) db.resources x h.stocked found)
      | inr other ↦ rw other tt
    ])
  ]

  adjust-AllStocked :
      (env : Env) (d : RecordAdjustment) → Keeps AllStocked (record_adjustment {F = F} env d)
  adjust-AllStocked env d = record {
    at = λ db h. record { stocked = record_adjustment-IsStocked env d db h.stocked };
  }

  order_row-AllStocked :
      (env : Env) (b id : Uuid) (patch : Repository.UpdateOrder F)
      → Keeps AllStocked (Repository.update_row env b id patch)
  unfolding Repository.update_row
  order_row-AllStocked env b id patch = record {
    at = λ db h. elim (Option-cases (Repository.find_by_id b id db)) [
      | inl missing ↦ rw (missing, Repository.update_row) h
      | inr (o, found) ↦
          rw (found, Repository.update_row)
            (elim (Bool-cases env.writes_orders) [
              | inl writes ↦ rw writes (record { stocked = h.stocked })
              | inr fails ↦ rw fails h
            ])
    ];
  }

  order-AllStocked :
      (env : Env) (row : Repository.CreateOrder F) → Keeps AllStocked (Repository.create env row)
  unfolding Repository.create
  order-AllStocked env row = record {
    at = λ db h. elim (Bool-cases env.writes_orders) [
      | inl writes ↦ rw writes (record { stocked = h.stocked })
      | inr fails ↦ rw fails h
    ];
  }

  pub adjust_stock-AllStocked :
      (env : Env) (b r : Uuid) (dto : StockAdjustmentDto) (by : Uuid)
      → Keeps AllStocked (adjust_stock {F = F} env b r dto by)
  adjust_stock-AllStocked env b r dto by =
      adjust_stock-Keeps AllStocked b (λ e d _. adjust-AllStocked e d)
        (λ e id p. order_row-AllStocked e b id p) (λ e d _. order-AllStocked e d) env r dto by

  pub update_status-AllStocked :
      (env : Env) (b id : Uuid) (status : OrderStatus)
      → Keeps AllStocked (update_status {F = F} env b id status)
  update_status-AllStocked env b id status =
      update_status-Keeps AllStocked b (λ e d _. adjust-AllStocked e d)
        (λ e id p. order_row-AllStocked e b id p) (λ e d _. order-AllStocked e d) env id status

module _ {F : Type 0} ⦃num : Number F⦄ where
  pub create-AllStocked :
      (env : Env) (b : Uuid) (dto : CreateOrderDto) → Keeps {S = Db F} AllStocked (create env b dto)
  create-AllStocked env b dto =
      create-Keeps AllStocked b (λ e d _. adjust-AllStocked e d)
        (λ e id p. order_row-AllStocked e b id p) (λ e d _. order-AllStocked e d) env dto

  pub update_items-AllStocked :
      (env : Env) (b id : Uuid) (lines : List CreateOrderItem)
      → Keeps {S = Db F} AllStocked (update_items env b id lines)
  update_items-AllStocked env b id lines =
      update_items-Keeps AllStocked b (λ e d _. adjust-AllStocked e d)
        (λ e id p. order_row-AllStocked e b id p) (λ e d _. order-AllStocked e d) env id lines
