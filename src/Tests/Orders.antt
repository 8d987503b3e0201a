-- ===== src/Tests/Orders.antt =====
-- The theorems on orders and their stock at work on the sample shop.
use ventura_api.Common.{◌≡◌, refl, true, false, none, List, [], ◌∷◌, arith}
use ventura_api.Number.Decimal.{decimal_number}
use ventura_api.Common.Int.{negsuc, ◌-ℤ◌, ◌+ℤ◌}
use ventura_api.Db.{Env}
use ventura_api.Resource.Entity.{manual}
use ventura_api.Resource.Service.{StockAdjustmentDto}
use ventura_api.Resource.Stock.{shift}
use ventura_api.Resource.Repository.{decrement_stock, increment_stock, record_adjustment}
use ventura_api.Resource.Counter
use ventura_api.Resource.Counter.{
  take, give, answers, all_seen, promised, counters_of, answers-promised,
}
use ventura_api.Order.Entity.{cancelled}
use ventura_api.Order.Service.{CreateOrderItem}
use ventura_api.Order.Items.{update_items}
use ventura_api.Order.Conserve.{held}
use ventura_api.Order.Edit.{Edited, update_items-Edited}
use ventura_api.Order.Stocked.{AllStocked}
use ventura_api.Order.History.{
  Call, place, mark, edit, adjust, run, all_brought, run-AllStocked, run-held,
}
use ventura_api.Samples.{shop, env, basket}

-- three bottles of Malt in place of two cartons, and a bottle of Milo
abbrev lines : List CreateOrderItem
lines =
    record { resource_id = 1; quantity = 3; unit = none }
    ∷ record { resource_id = 2; quantity = 1; unit = none }
    ∷ []

update_items-Edited_example : Edited 7 1 7 20 shop (update_items env 7 20 lines shop)
update_items-Edited_example = update_items-Edited 7 1 env 7 20 lines shop (omega arith)

-- two broken bottles
abbrev breakage : StockAdjustmentDto
breakage = record { delta = negsuc 1; reason = manual; note = none }

abbrev day : List (Env × Call)
day =
    (env, place 7 basket)
    ∷ (env, edit 7 20 lines)
    ∷ (env, adjust 7 1 breakage 9)
    ∷ (env, mark 7 20 cancelled)
    ∷ []

shop-AllStocked : AllStocked shop
shop-AllStocked = record { stocked = (omega arith, (omega arith, (omega arith, tt))) }

run-AllStocked_example : AllStocked (run day shop)
run-AllStocked_example = run-AllStocked day shop shop-AllStocked

run-held_example : held 7 1 (run day shop) ≡ shift (all_brought 7 1 day shop) (held 7 1 shop)
run-held_example = run-held 7 1 day shop (refl, (refl, (refl, (refl, tt)))) shop-AllStocked

-- thirty bottles of Malt are taken, then one more, which is refused
abbrev rush : List (Env × Counter.Call)
rush = (env, take 7 1 30) ∷ (env, take 7 1 1) ∷ (env, give 7 1 2) ∷ []

answers-promised_example : all_seen (answers rush shop) ≡ promised rush (counters_of shop)
answers-promised_example = answers-promised rush shop

thirty_then_one : (answers rush shop).0 ≡ true ∷ false ∷ true ∷ []
unfolding decrement_stock increment_stock record_adjustment ◌-ℤ◌ ◌+ℤ◌
thirty_then_one = refl
