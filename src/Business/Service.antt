-- ===== src/Business/Service.antt =====
-- src/business/application/business.service.ts
use ventura_api.Common.{not, Option, none, some, String, List, [], ◌∷◌, Uuid, ◌==◌, or_default}
use ventura_api.Common.Action.{
  ◌>>=◌, ◌>>◌, pure, raise, gets, or_raise, raise_if, catch, not_found, forbidden,
}
use ventura_api.Accounts.{Env, Service}
use ventura_api.User.Service.{set_business_id}
use ventura_api.User.Profile.{delete_old_asset}
use ventura_api.Business.Entity.{Business}
use ventura_api.Business.Repository
use ventura_api.Business.Repository.{UpdateBusiness, find_by_id, find_by_owner}

-- `SUGGESTED_CATEGORIES`
abbrev pub get_categories : List String
get_categories =
    "tech" ∷ "beauty" ∷ "food & drink" ∷ "retail" ∷ "services" ∷ "supplier" ∷ "apparel" ∷ "health"
    ∷ "education" ∷ "other" ∷ []

pub record CreateBusinessDto : Type 0 where
  pub name : String
  pub categories : Option (List String)

-- links the business to the owner's account, or takes it back
unfoldable pub link_owner : Env → Uuid → Business → Service Business
unfolding set_business_id Repository.delete
link_owner env owner_id business =
    catch (do set_business_id env owner_id business.id; pure business)
      (λ e. Repository.delete business.id >> raise e)

unfoldable pub create : Env → Uuid → CreateBusinessDto → Service Business
unfolding Repository.create link_owner
create env owner_id dto = do
  business ← Repository.create env (record {
    name = dto.name;
    owner_id = owner_id;
    categories = or_default dto.categories [];
    socials = [];
  })
  link_owner env owner_id business

unfoldable pub get_by_id : Uuid → Service Business
get_by_id business_id = do
  business ← gets (find_by_id business_id)
  or_raise business (not_found "Business not found.")

unfoldable pub get_by_id_for_owner : Uuid → Uuid → Service Business
unfolding get_by_id
get_by_id_for_owner business_id owner_id = do
  business ← get_by_id business_id
  raise_if (not (business.owner_id == owner_id)) (not_found "Business not found.")
  pure business

abbrev pub get_by_owner : Uuid → Service (Option Business)
get_by_owner owner_id = gets (find_by_owner owner_id)

-- `if (dto.logoKey !== undefined && oldLogoKey && oldLogoKey !== dto.logoKey)`, and the deletion
unfoldable pub clean_logo : Env → Option String → Option (Option String) → Service (Unit {0})
unfolding delete_old_asset
clean_logo env old_key none = pure tt
clean_logo env old_key (some new_key) = delete_old_asset env old_key new_key

unfoldable pub update : Env → Uuid → Uuid → UpdateBusiness → Service Business
unfolding get_by_id Repository.update_row clean_logo
update env business_id owner_id dto = do
  business ← get_by_id business_id
  raise_if (not (business.owner_id == owner_id)) (forbidden "You do not own this business.")
  updated ← Repository.update_row business_id dto
  clean_logo env business.logo_key dto.logo_key
  pure (or_default updated business)
