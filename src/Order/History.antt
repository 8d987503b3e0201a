-- ===== src/Order/History.antt =====
-- Histories of the calls of src/order/application/order.service.ts that change an order or a stock, and
-- of `adjustStock` of src/resource/application/resource.service.ts.
use ventura_api.Common.{◌≡◌, sym, ap, ◌∙◌, true, List, [], ◌∷◌, Uuid, All}
use ventura_api.Common.Int.{ℤ, pos, ◌+ℤ◌}
use ventura_api.Common.Action.{Result, ok, err}
use ventura_api.Number.{Number}
use ventura_api.Db.{Db, Env}
use ventura_api.Resource.Service.{StockAdjustmentDto, adjust_stock}
use ventura_api.Resource.Stock.{shift, shift-shift, shift_zero}
use ventura_api.Order.Entity.{OrderStatus, Order}
use ventura_api.Order.Service.{CreateOrderItem, CreateOrderDto, create}
use ventura_api.Order.Status.{update_status}
use ventura_api.Order.Items.{update_items}
use ventura_api.Order.Conserve.{held, held_of-Shifts, create-held, update_status-held}
use ventura_api.Order.Edit.{Edited, update_items-Edited}
use ventura_api.Order.Stocked.{
  AllStocked, AllStocked-Enough, create-AllStocked, update_status-AllStocked,
  update_items-AllStocked, adjust_stock-AllStocked,
}
use ventura_api.Order.Manual.{adjusted, adjust_stock-held}

pub data Call : Type 0 where
  place : Uuid → CreateOrderDto → Call
  mark : Uuid → Uuid → OrderStatus → Call
  edit : Uuid → Uuid → List CreateOrderItem → Call
  adjust : Uuid → Uuid → StockAdjustmentDto → Uuid → Call

module _ {F : Type 0} ⦃num : Number F⦄ where
  -- the database after a call
  abbrev pub step : Env → Call → Db F → Db F
  step env (place business_id dto) db = (create env business_id dto db).1
  step env (mark business_id id status) db = (update_status env business_id id status db).1
  step env (edit business_id id lines) db = (update_items env business_id id lines db).1
  step env (adjust business_id id dto created_by) db =
      (adjust_stock env business_id id dto created_by db).1

  -- the database after the calls, each in the environment of its time
  abbrev pub run : List (Env × Call) → Db F → Db F
  run [] db = db
  run ((env, call) ∷ calls) db = run calls (step env call db)

  step-AllStocked :
      (env : Env) (call : Call) (db : Db F) → AllStocked db → AllStocked (step env call db)
  step-AllStocked env (place b dto) = (create-AllStocked env b dto).at
  step-AllStocked env (mark b id status) = (update_status-AllStocked env b id status).at
  step-AllStocked env (edit b id lines) = (update_items-AllStocked env b id lines).at
  step-AllStocked env (adjust b id dto by) = (adjust_stock-AllStocked env b id dto by).at

  -- If no stock is below zero, none is after any calls that place orders, change their status or their
  -- lines, or adjust a stock by hand, in any order and with any outcome.
  pub run-AllStocked :
      (calls : List (Env × Call)) (db : Db F) → AllStocked db → AllStocked (run calls db)
  run-AllStocked [] db h = h
  run-AllStocked ((env, call) ∷ calls) db h =
      run-AllStocked calls (step env call db) (step-AllStocked env call db h)

  module _ (b r : Uuid) where
    Edited-held :
        (c id : Uuid) (db : Db F) (x : Result (Order F) × Db F)
        → Edited b r c id db x
        → held b r x.1 ≡ held b r db
    Edited-held c id db (ok o, db') h = h.3
    Edited-held c id db (err e, db') h = held_of-Shifts b r db db' h

    -- units of the product that a call brings from outside
    abbrev pub brought : Env → Call → Db F → ℤ
    brought env (adjust c s dto by) db = adjusted b r env c s dto by db
    brought env (place c dto) db = pos 0
    brought env (mark c id status) db = pos 0
    brought env (edit c id lines) db = pos 0

    abbrev pub all_brought : List (Env × Call) → Db F → ℤ
    all_brought [] db = pos 0
    all_brought ((env, call) ∷ calls) db =
        brought env call db +ℤ all_brought calls (step env call db)

    step-held :
        (env : Env) (call : Call) (db : Db F)
        → env.writes_orders ≡ true
        → AllStocked db
        → held b r (step env call db) ≡ shift (brought env call db) (held b r db)
    step-held env (place c dto) db writes h =
        create-held b r env c dto db ∙ sym (shift_zero (held b r db))
    step-held env (mark c id status) db writes h =
        update_status-held b r env c id status db writes ∙ sym (shift_zero (held b r db))
    step-held env (edit c id lines) db writes h =
        Edited-held c id db (update_items env c id lines db)
          (update_items-Edited b r env c id lines db (AllStocked-Enough b r db h))
        ∙ sym (shift_zero (held b r db))
    step-held env (adjust c s dto by) db writes h = adjust_stock-held b r env c s dto by db

    -- From a database without negative stock, after any calls that place orders, change their status
    -- or their lines, or adjust a stock by hand, while orders can be written: for every product, the
    -- units on hand and the units that the orders which are not cancelled hold amount to what they
    -- were before plus what the accepted adjustments brought.
    pub run-held :
        (calls : List (Env × Call)) (db : Db F)
        → All (λ c. c.0.writes_orders ≡ true) calls
        → AllStocked db
        → held b r (run calls db) ≡ shift (all_brought calls db) (held b r db)
    run-held [] db writes h = sym (shift_zero (held b r db))
    run-held ((env, call) ∷ calls) db (w, writes) h =
        run-held calls (step env call db) writes (step-AllStocked env call db h)
        ∙ ap (shift (all_brought calls (step env call db))) (step-held env call db w h)
        ∙ shift-shift (brought env call db) (all_brought calls (step env call db)) (held b r db)
