-- ===== src/Customer/Distinct.antt =====
-- The addresses of the customers of a business, under `create` and `bulkCreate` of
-- src/customer/application/customer.service.ts.
use ventura_api.Common.{
  or_false_right, ℕ, suc, ◌+◌, ◌≡◌, refl, ap, sym, ◌∙◌, Bool, true, false, not, ◌&&◌, ◌||◌, Option,
  none, some, String, List, [], ◌∷◌, ◌++◌, Uuid, map, count, length, ltb, ◌==◌, if◌then◌else◌,
  arith, Bool-cases, inl, inr, str_eq,
}
use mathlib.Core.Path.{subst}
use native.Mathlib.Nat.{zero-add}
use ventura_api.Common.Text.{truthy, codes, lower, same_codes}
use ventura_api.Common.Like.{escape_like, column_like, ilike-escape_like}
use ventura_api.Common.Action.{Result, ok, err, and_then, catch, pure, message}
use ventura_api.Db.{Db, Env}
use ventura_api.Customer.Entity.{Customer}
use ventura_api.Customer.Repository
use ventura_api.Customer.Repository.{CreateCustomer, has_email}
use ventura_api.Customer.Service.{
  BulkImportResult, is_taken, create, insert_row, import_row, import_rows, add_row, fail_row,
  is_repeated, add_seen, batch_duplicates, bulk_create,
}

-- the same address up to case, where an empty one is no address
abbrev pub same_email : Option String → Option String → Bool
same_email none e = false
same_email (some a) none = false
same_email (some a) (some b) =
    not (str_eq a "") && same_codes (map lower (codes a)) (map lower (codes b))

-- a customer of the business has the address
abbrev pub clashes : Uuid → Option String → List Customer → Bool
clashes b e [] = false
clashes b e (d ∷ ds) = (d.business_id == b && same_email e d.email) || clashes b e ds

abbrev pub IsDistinct : List Customer → Type 0
IsDistinct [] = Unit
IsDistinct (c ∷ cs) = (clashes c.business_id c.email cs ≡ false) × IsDistinct cs

has_email-same_email :
    (b : Uuid) (a : String) (d : Customer)
    → not (str_eq a "") ≡ true
    → has_email b a d ≡ (d.business_id == b && same_email (some a) d.email)
has_email-same_email b a d h = ap (λ x. d.business_id == b && x) (column d.email)
  where
    column : (e : Option String) → column_like (escape_like (codes a)) e ≡ same_email (some a) e
    column none = refl
    column (some s) = rw h (ilike-escape_like (codes a) (codes s))

taken-clashes :
    (b : Uuid) (a : String) (ds : List Customer)
    → not (str_eq a "") ≡ true
    → ltb 0 (count (has_email b a) ds) ≡ clashes b (some a) ds
taken-clashes b a [] h = refl
taken-clashes b a (d ∷ ds) h = rw (has_email-same_email b a d h) (
    next (d.business_id == b && same_email (some a) d.email) (count (has_email b a) ds)
      (taken-clashes b a ds h))
  where
    next :
        (here : Bool) (n : ℕ)
        → ltb 0 n ≡ clashes b (some a) ds
        → ltb 0 ((if here then 1 else 0) + n) ≡ (here || clashes b (some a) ds)
    next true n e = ground arith
    next false n e = ground arith

no_address-clashes :
    (b : Uuid) (e : Option String) (ds : List Customer) → truthy e ≡ false → clashes b e ds ≡ false
no_address-clashes b e [] h = refl
no_address-clashes b none (d ∷ ds) h = ground (arith, no_address-clashes b none ds)
no_address-clashes b (some a) (d ∷ ds) h = rw (no_address-clashes b (some a) ds h) (gone d.email)
  where
    gone : (e : Option String) → ((d.business_id == b && same_email (some a) e) || false) ≡ false
    gone none = ground arith
    gone (some s) = rw h (ground arith)

module _ {F : Type 0} where
  -- the query of `emailExists` finds the clashes
  pub is_taken-clashes :
      (b : Uuid) (e : Option String) (db : Db F) → is_taken b e db ≡ clashes b e db.customers
  is_taken-clashes b e db = elim (Bool-cases (truthy e)) [
    | inl there ↦ taken e there
    | inr absent ↦ rw (absent, no_address-clashes b e db.customers absent) refl
  ]
    where
      taken : (e : Option String) → truthy e ≡ true → is_taken b e db ≡ clashes b e db.customers
      taken none h = cc
      taken (some a) h = rw (h, taken-clashes b a db.customers h) refl

  row-IsDistinct :
      (env : Env) (b : Uuid) (dto : CreateCustomer) (db : Db F)
      → IsDistinct db.customers
      → is_taken b dto.email db ≡ false
      → IsDistinct (Repository.create env b dto db).1.customers
  unfolding Repository.create
  row-IsDistinct env b dto db h free = elim (Bool-cases (env.writes_customers db.drawn)) [
    | inl writes ↦ rw writes (sym (is_taken-clashes b dto.email db) ∙ free, h)
    | inr fails ↦ rw fails h
  ]

  -- If the addresses of the customers of every business differ up to case (empty ones aside), they
  -- still do after `create` of a customer, successful or not.
  pub create-IsDistinct :
      (env : Env) (b : Uuid) (dto : CreateCustomer) (db : Db F)
      → IsDistinct db.customers
      → IsDistinct (create env b dto db).1.customers
  unfolding create
  create-IsDistinct env b dto db h = elim (Bool-cases (is_taken b dto.email db)) [
    | inl taken ↦ rw taken h
    | inr free ↦ rw free (row-IsDistinct env b dto db h free)
  ]

-- how many rows of an import are reported
abbrev pub reported : BulkImportResult → ℕ
reported r = length r.created + length r.skipped + length r.failed

length-snoc {ℓ} : {A : Type ℓ} (xs : List A) (x : A) → length (xs ++ x ∷ []) ≡ suc (length xs)
length-snoc [] x = refl
length-snoc (y ∷ xs) x = ap suc (length-snoc xs x)

module _ {F : Type 0} where
  -- what a round of an import has done: it succeeded, with one row more reported
  abbrev pub Imported : ℕ → Result BulkImportResult × Db F → Type 0
  Imported n (ok r, db') = (reported r ≡ n) × IsDistinct db'.customers
  Imported n (err e, db') = ⊥

  insert_row-Imported :
      (env : Env) (b : Uuid) (i : ℕ) (dto : CreateCustomer) (r : BulkImportResult) (db : Db F)
      → IsDistinct db.customers
      → is_taken b dto.email db ≡ false
      → Imported (suc (reported r)) (insert_row env b i dto r db)
  unfolding insert_row
  insert_row-Imported env b i dto r db h free =
      go (Repository.create env b dto db) (row-IsDistinct env b dto db h free)
    where
      go :
          (x : Result Customer × Db F)
          → IsDistinct x.1.customers
          → Imported
              (suc (reported r))
              (catch (λ _. and_then x λ c. pure (add_row c r)) (λ e. pure (fail_row i e r)) db)
      go (ok c, db') k = (omega (arith, length-snoc r.created c), k)
      go (err e, db') k =
          (omega (arith, length-snoc r.failed (record { index = i; reason = message e })), k)

  import_row-Imported :
      (env : Env) (b : Uuid) (i : ℕ) (duplicate : Bool) (dto : CreateCustomer)
      (r : BulkImportResult) (db : Db F)
      → IsDistinct db.customers
      → Imported (suc (reported r)) (import_row env b i duplicate dto r db)
  unfolding import_row
  import_row-Imported env b i duplicate dto r db h =
      elim (Bool-cases (duplicate || is_taken b dto.email db)) [
        | inl skip ↦ rw skip (
          omega (arith, length-snoc r.skipped (record { index = i; reason = "Duplicate email." })),
          h,
        )
        | inr keep ↦
            rw keep (insert_row-Imported env b i dto r db h (or_false_right duplicate _ keep))
      ]

  import_rows-Imported :
      (env : Env) (b : Uuid) (i : ℕ) (emails : List (List ℕ)) (dtos : List CreateCustomer)
      (r : BulkImportResult) (db : Db F)
      → IsDistinct db.customers
      → Imported
          (reported r + length dtos)
          (import_rows env b i (batch_duplicates emails dtos) dtos r db)
  unfolding import_rows batch_duplicates
  import_rows-Imported env b i emails [] r db h = (omega arith, h)
  import_rows-Imported env b i emails (dto ∷ dtos) r db h =
      go (λ r' db' k. import_rows-Imported env b (suc i) (add_seen emails dto) dtos r' db' k)
        (import_row env b i (is_repeated emails dto) dto r db)
        (import_row-Imported env b i (is_repeated emails dto) dto r db h)
    where
      go :
          ((r' : BulkImportResult) (db' : Db F)
            → IsDistinct db'.customers
            → Imported (reported r' + length dtos) (
                import_rows env b
                  (suc i)
                  (batch_duplicates (add_seen emails dto) dtos)
                  dtos
                  r'
                  db'))
          → (x : Result BulkImportResult × Db F) → Imported (suc (reported r)) x
          → Imported (reported r + length (dto ∷ dtos)) (
              and_then x λ r'.
                import_rows env b (suc i) (batch_duplicates (add_seen emails dto) dtos) dtos r')
      go rest (ok r', db') k =
          let n : suc (reported r) + length dtos ≡ reported r + length (dto ∷ dtos) = omega arith in
          subst
            (λ m.
              Imported m (
                import_rows env b (suc i) (batch_duplicates (add_seen emails dto) dtos) dtos r'
                  db'))
            (ap (λ m. m + length dtos) k.0 ∙ n) (rest r' db' k.1)
      go rest (err e, db') k = elim k [ ]

  -- If the addresses of the customers of every business differ up to case (empty ones aside), then
  -- `bulkCreate` succeeds, the rows that it reports as created, skipped and failed are together as
  -- many as it was given, and the addresses still differ.
  pub bulk_create-Imported :
      (env : Env) (b : Uuid) (dtos : List CreateCustomer) (db : Db F)
      → IsDistinct db.customers
      → Imported (length dtos) (bulk_create env b dtos db)
  unfolding bulk_create
  bulk_create-Imported env b dtos db h =
      subst (λ m. Imported m (bulk_create env b dtos db)) (zero-add (length dtos))
        (import_rows-Imported env b 0 [] dtos (record { created = []; skipped = []; failed = [] })
          db h)
