-- ===== src/Customer/History.antt =====
-- Histories of the calls of src/customer/application/customer.service.ts that change a customer.
use ventura_api.Common.{
  Bool, true, false, ◌≡◌, refl, sym, ◌∙◌, ◌&&◌, ◌||◌, ◌==◌, List, [], ◌∷◌, Option, none, some,
  String, Uuid, remove, if◌then◌else◌, arith, Bool-cases, Option-cases, inl, inr,
}
use ventura_api.Common.Action.{Result, ok, err, or_raise}
use ventura_api.Db.{Db, Env}
use ventura_api.Customer.Entity.{Customer}
use ventura_api.Customer.Repository.{CreateCustomer, UpdateCustomer, at, find_by_id, delete_row}
use ventura_api.Customer.Service.{BulkImportResult, create, bulk_create, update, delete}
use ventura_api.Customer.Distinct.{
  clashes, IsDistinct, create-IsDistinct, Imported, bulk_create-Imported,
}
use ventura_api.Customer.Moved.{update-IsDistinct}

pub data Call : Type 0 where
  add : Uuid → CreateCustomer → Call
  import_all : Uuid → List CreateCustomer → Call
  edit : Uuid → Uuid → UpdateCustomer → Call
  drop : Uuid → Uuid → Call

module _ (p : Customer → Bool) where
  clashes-remove :
      (b : Uuid) (e : Option String) (cs : List Customer)
      → clashes b e cs ≡ false
      → clashes b e (remove p cs) ≡ false
  clashes-remove b e [] h = h
  clashes-remove b e (c ∷ cs) h = elim (Bool-cases (p c)) [
    | inl here ↦ rw here (ground arith)
    | inr later ↦ rw later (ground (arith, clashes-remove b e cs))
  ]

  IsDistinct-remove : (cs : List Customer) → IsDistinct cs → IsDistinct (remove p cs)
  IsDistinct-remove [] h = tt
  IsDistinct-remove (c ∷ cs) (first, rest) = elim (Bool-cases (p c)) [
    | inl here ↦ rw here rest
    | inr later ↦
        rw later (clashes-remove c.business_id c.email cs first, IsDistinct-remove cs rest)
  ]

module _ {F : Type 0} where
  delete-IsDistinct :
      (b id : Uuid) (db : Db F) → IsDistinct db.customers → IsDistinct (delete b id db).1.customers
  unfolding delete delete_row
  delete-IsDistinct b id db h = elim (Option-cases (find_by_id b id db)) [
    | inl missing ↦ rw (missing, delete, delete_row, or_raise) h
    | inr (c, found) ↦
        rw (found, delete, delete_row, or_raise) (IsDistinct-remove (at b id) db.customers h)
  ]

  bulk_create-IsDistinct :
      (env : Env) (b : Uuid) (dtos : List CreateCustomer) (db : Db F)
      → IsDistinct db.customers
      → IsDistinct (bulk_create env b dtos db).1.customers
  bulk_create-IsDistinct env b dtos db h =
      go (bulk_create env b dtos db) (bulk_create-Imported env b dtos db h)
    where
      go :
          (x : Result BulkImportResult × Db F)
          → Imported (ventura_api.Common.length dtos) x
          → IsDistinct x.1.customers
      go (ok r, db') (_, k) = k
      go (err e, db') k = absurd k

  -- the database after a call
  abbrev pub step : Env → Call → Db F → Db F
  step env (add business_id dto) db = (create env business_id dto db).1
  step env (import_all business_id dtos) db = (bulk_create env business_id dtos db).1
  step env (edit business_id id dto) db = (update business_id id dto db).1
  step env (drop business_id id) db = (delete business_id id db).1

  -- the database after the calls, each in the environment of its time
  abbrev pub run : List (Env × Call) → Db F → Db F
  run [] db = db
  run ((env, call) ∷ calls) db = run calls (step env call db)

  step-IsDistinct :
      (env : Env) (call : Call) (db : Db F)
      → IsDistinct db.customers
      → IsDistinct (step env call db).customers
  step-IsDistinct env (add b dto) = create-IsDistinct env b dto
  step-IsDistinct env (import_all b dtos) = bulk_create-IsDistinct env b dtos
  step-IsDistinct env (edit b id dto) = update-IsDistinct b id dto
  step-IsDistinct env (drop b id) = delete-IsDistinct b id

  -- If no two customers of a business have the same address, up to case and empty ones aside, none have
  -- after any calls that create, import, update or delete customers, of any businesses, in any order and
  -- with any outcome.
  pub run-IsDistinct :
      (calls : List (Env × Call)) (db : Db F)
      → IsDistinct db.customers
      → IsDistinct (run calls db).customers
  run-IsDistinct [] db h = h
  run-IsDistinct ((env, call) ∷ calls) db h =
      run-IsDistinct calls (step env call db) (step-IsDistinct env call db h)
