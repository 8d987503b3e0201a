-- ===== src/Business/Repository.antt =====
-- src/business/infrastructure/postgres-business.repository.ts
use ventura_api.Common.{
  suc, Bool, true, Option, none, some, String, List, ◌∷◌, Uuid, find, update, remove, ◌==◌,
  or_default,
}
use ventura_api.Common.Action.{ok, modify}
use ventura_api.Resource.Entity.{BusinessHours}
use ventura_api.Accounts.{Accounts, Env, Service}
use ventura_api.Business.Entity.{Business}

-- `ICreateBusiness`
pub record CreateBusiness : Type 0 where
  pub name : String
  pub owner_id : Uuid
  pub categories : List String
  pub socials : List (String × String)

-- `IUpdateBusiness`: a field that is `none` is not written, `some none` writes null
pub record UpdateBusiness : Type 0 where
  pub name : Option String
  pub categories : Option (List String)
  pub description : Option (Option String)
  pub tag_line : Option (Option String)
  pub logo : Option (Option String)
  pub logo_key : Option (Option String)
  pub email : Option (Option String)
  pub phone : Option (Option String)
  pub website : Option (Option String)
  pub address : Option (Option String)
  pub city : Option (Option String)
  pub state : Option (Option String)
  pub country : Option (Option String)
  pub tax_id : Option (Option String)
  pub registration_number : Option (Option String)
  pub business_hours : Option (Option BusinessHours)
  pub socials : Option (List (String × String))

abbrev pub has_id : Uuid → Business → Bool
has_id id b = b.id == id

abbrev pub has_owner : Uuid → Business → Bool
has_owner owner_id b = b.owner_id == owner_id

abbrev pub apply_patch : UpdateBusiness → Business → Business
apply_patch p b = record b {
  name = or_default p.name b.name;
  categories = or_default p.categories b.categories;
  description = or_default p.description b.description;
  tag_line = or_default p.tag_line b.tag_line;
  logo = or_default p.logo b.logo;
  logo_key = or_default p.logo_key b.logo_key;
  email = or_default p.email b.email;
  phone = or_default p.phone b.phone;
  website = or_default p.website b.website;
  address = or_default p.address b.address;
  city = or_default p.city b.city;
  state = or_default p.state b.state;
  country = or_default p.country b.country;
  tax_id = or_default p.tax_id b.tax_id;
  registration_number = or_default p.registration_number b.registration_number;
  business_hours = or_default p.business_hours b.business_hours;
  socials = or_default p.socials b.socials;
}

abbrev pub find_by_id : Uuid → Accounts → Option Business
find_by_id id s = find (has_id id) s.businesses

abbrev pub find_by_owner : Uuid → Accounts → Option Business
find_by_owner owner_id s = find (has_owner owner_id) s.businesses

-- a new row (postgres.business-entity.ts)
abbrev pub new_row : Env → CreateBusiness → Accounts → Business
new_row env data' s = record {
  id = env.uuid s.drawn;
  short_id = env.label s.drawn;
  name = data'.name;
  owner_id = data'.owner_id;
  categories = data'.categories;
  description = none;
  tag_line = none;
  logo = none;
  logo_key = none;
  email = none;
  phone = none;
  website = none;
  address = none;
  city = none;
  state = none;
  country = none;
  tax_id = none;
  registration_number = none;
  business_hours = none;
  socials = data'.socials;
  is_active = true;
}

unfoldable pub create : Env → CreateBusiness → Service Business
create env data' s =
    let row = new_row env data' s in
    (ok row, record s { businesses = row ∷ s.businesses; drawn = suc s.drawn })

unfoldable pub update_row : Uuid → UpdateBusiness → Service (Option Business)
update_row id patch s = elim (find_by_id id s) [
  | none ↦ (ok none, s)
  | some b ↦ (
    ok (some (apply_patch patch b)),
    record s { businesses = update (has_id id) (apply_patch patch) s.businesses },
  )
]

unfoldable pub delete : Uuid → Service (Unit {0})
delete id = modify λ s. record s { businesses = remove (has_id id) s.businesses }
