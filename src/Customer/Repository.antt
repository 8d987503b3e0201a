-- ===== src/Customer/Repository.antt =====
-- src/customer/infrastructure/postgres-customer.repository.ts. `id` is the primary key. The write of
-- a new customer fails when the environment says so; its id is drawn all the same.
use ventura_api.Common.{
  suc, Bool, ◌&&◌, Option, none, some, String, List, [], ◌∷◌, Uuid, find, filter, update, remove,
  count, ltb, ◌==◌, if◌then◌else◌, or_default,
}
use ventura_api.Common.Text.{codes}
use ventura_api.Common.Like.{escape_like, column_like, searched}
use ventura_api.Common.Action.{ok, err, internal}
use ventura_api.Db.{Db, Env, Service}
use ventura_api.Customer.Entity.{Customer}

-- `ICreateCustomer`, without the business
pub record CreateCustomer : Type 0 where
  pub name : String
  pub email : Option String
  pub phone : Option String
  pub notes : Option String

-- `IUpdateCustomer`: a field that is `none` is not written, `some none` writes null
pub record UpdateCustomer : Type 0 where
  pub name : Option String
  pub email : Option (Option String)
  pub phone : Option (Option String)
  pub notes : Option (Option String)

-- `{ id, businessId }`
abbrev pub at : Uuid → Uuid → Customer → Bool
at business_id id c = c.id == id && c.business_id == business_id

-- `{ businessId, email: { $ilike: escapeLike(email) } }`
abbrev pub has_email : Uuid → String → Customer → Bool
has_email business_id email c =
    c.business_id == business_id && column_like (escape_like (codes email)) c.email

abbrev pub apply_patch : UpdateCustomer → Customer → Customer
apply_patch p c = record c {
  name = or_default p.name c.name;
  email = or_default p.email c.email;
  phone = or_default p.phone c.phone;
  notes = or_default p.notes c.notes;
}

-- the rows that `list` asks for
unfoldable pub listed : Uuid → Option String → List Customer → List Customer
unfolding searched
listed business_id q customers =
    filter (λ c. c.business_id == business_id && searched q (some c.name ∷ c.email ∷ c.phone ∷ []))
      customers

module _ {F : Type 0} where
  -- a new row (postgres.customer-entity.ts)
  abbrev pub new_row : Env → Uuid → CreateCustomer → Db F → Customer
  new_row env business_id dto db = record {
    id = env.uuid db.drawn;
    short_id = env.label db.drawn;
    business_id = business_id;
    name = dto.name;
    email = dto.email;
    phone = dto.phone;
    notes = dto.notes;
  }

  unfoldable pub create : Env → Uuid → CreateCustomer → Service F Customer
  create env business_id dto db =
      let row = new_row env business_id dto db in
      if env.writes_customers db.drawn
      then (ok row, record db { customers = row ∷ db.customers; drawn = suc db.drawn })
      else (err (internal "The customer could not be written."), record db { drawn = suc db.drawn })

  abbrev pub find_by_id : Uuid → Uuid → Db F → Option Customer
  find_by_id business_id id db = find (at business_id id) db.customers

  abbrev pub email_exists : Uuid → String → Db F → Bool
  email_exists business_id email db = ltb 0 (count (has_email business_id email) db.customers)

  unfoldable pub update_row : Uuid → Uuid → UpdateCustomer → Service F (Option Customer)
  update_row business_id id patch db = elim (find_by_id business_id id db) [
    | none ↦ (ok none, db)
    | some c ↦ (
      ok (some (apply_patch patch c)),
      record db { customers = update (at business_id id) (apply_patch patch) db.customers },
    )
  ]

  unfoldable pub delete_row : Uuid → Uuid → Service F (Option Customer)
  delete_row business_id id db = elim (find_by_id business_id id db) [
    | none ↦ (ok none, db)
    | some c ↦ (ok (some c), record db { customers = remove (at business_id id) db.customers })
  ]
