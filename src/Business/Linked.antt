-- ===== src/Business/Linked.antt =====
-- Businesses and the accounts of their owners, under `create` of
-- src/business/application/business.service.ts.
use ventura_api.Common.{
  suc, ◌≡◌, refl, ap, ◌∙◌, Bool, true, false, Option, none, some, [], ◌∷◌, Uuid, find-update,
  find-fits, is_some, or_default, remove, ==_iff, Bool-cases, Option-cases, inl, inr,
}
use ventura_api.Common.Action.{
  Result, ok, err, and_then, or_raise, pure, raise, raise_if, catch, not_found, conflict, ◌>>=◌,
  ◌>>◌,
}
use ventura_api.Accounts.{Accounts, Env}
use ventura_api.User.Entity.{User}
use ventura_api.User.Repository.{
  UpdateUser, no_change, apply_patch, find_by_id, refused, update_row,
}
use ventura_api.User.Repository as Users
use ventura_api.User.Service.{get_user_or_throw, get_active_user_or_throw, set_business_id}
use ventura_api.Business.Entity.{Business}
use ventura_api.Business.Repository
use ventura_api.Business.Repository.{CreateBusiness, has_id, new_row}
use ventura_api.Business.Service.{CreateBusinessDto, link_owner, create}

-- the business of an account
abbrev pub business_of : Uuid → Accounts → Option Uuid
business_of id s = elim (find_by_id id s) [ none ↦ none | some u ↦ u.business_id ]

-- the outcome of attaching a business to an account
abbrev Attached : Uuid → Uuid → Accounts → Result User × Accounts → Type 0
Attached id b s (ok u, s') =
    (business_of id s ≡ none) × (business_of id s' ≡ some b) × (s'.businesses ≡ s.businesses)
Attached id b s (err e, s') = s' ≡ s

no_business : (o : Option Uuid) → is_some o ≡ false → o ≡ none
no_business none h = refl
no_business (some b) h = cc

abbrev attach : Uuid → UpdateUser
attach b = record no_change { business_id = some b }

module _ (env : Env) (id b : Uuid) (s : Accounts) (u : User)
    (found : find_by_id id s ≡ some u) where
  written-Attached :
      business_of id s ≡ none
      → Attached id b s (and_then (update_row env id (attach b) s) λ o. pure (or_default o u))
  unfolding update_row
  written-Attached free = elim (Bool-cases (refused env id (attach b) u s.users)) [
    | inl refuses ↦ rw (found, update_row, refuses) refl
    | inr accepts ↦
        rw (found, update_row, accepts)
          (
            free,
            rw
                (
                  business_of,
                  find-update (Users.has_id id) (apply_patch (attach b)) s.users u found
                      (find-fits (Users.has_id id) s.users u found),
                )
                refl,
            refl,
          )
  ]

  -- the guards of `setBusinessId`, each by what it tests
  free-Attached :
      (has : Bool)
      → (has ≡ false → business_of id s ≡ none)
      → Attached id b s (
          and_then
            (raise_if has (conflict "id already exists") s)
            λ _. update_row env id (attach b) >>= λ o. pure (or_default o u))
  free-Attached true k = refl
  free-Attached false k = written-Attached (k refl)

  active-Attached :
      (deleted : Bool)
      → Attached id b s (
          and_then ((raise_if deleted (not_found "User not found.") >> pure u) s) λ v.
            raise_if (is_some v.business_id) (conflict "id already exists")
            >> (update_row env id (attach b) >>= λ o. pure (or_default o v)))
  active-Attached true = refl
  active-Attached false =
      free-Attached (is_some u.business_id)
        (λ h. rw (found, business_of) (no_business u.business_id h))

set_business_id-Attached :
    (env : Env) (id b : Uuid) (s : Accounts) → Attached id b s (set_business_id env id b s)
unfolding set_business_id get_active_user_or_throw get_user_or_throw update_row
set_business_id-Attached env id b s = elim (Option-cases (find_by_id id s)) [
  | inl missing ↦
      rw (missing, set_business_id, get_active_user_or_throw, get_user_or_throw, or_raise) refl
  | inr (u, found) ↦
      rw (found, set_business_id, get_active_user_or_throw, get_user_or_throw, or_raise)
        (active-Attached env id b s u found u.deleted)
]

-- a business is created and linked to an account that had none, or nothing is left of it
abbrev pub Linked : Uuid → Accounts → Result Business × Accounts → Type 0
Linked owner s (ok b, s') =
    (business_of owner s ≡ none)
    × (business_of owner s' ≡ some b.id)
    × (s'.businesses ≡ b ∷ s.businesses)
Linked owner s (err e, s') = (s'.businesses ≡ s.businesses) × (s'.users ≡ s.users)

-- `create` of a business either adds it for an owner whose account had no business, and the account
-- then has this one, or it fails and the tables of businesses and users are as they were.
pub create-Linked :
    (env : Env) (owner : Uuid) (dto : CreateBusinessDto) (s : Accounts)
    → Linked owner s (create env owner dto s)
unfolding create Repository.create link_owner Repository.delete
create-Linked env owner dto s =
    go (set_business_id env owner row.id t) (set_business_id-Attached env owner row.id t)
  where
    row : Business
    row =
        new_row env
          (record {
            name = dto.name;
            owner_id = owner;
            categories = or_default dto.categories [];
            socials = [];
          })
          s

    t : Accounts
    t = record s { businesses = row ∷ s.businesses; drawn = suc s.drawn }

    go :
        (x : Result User × Accounts)
        → Attached owner row.id t x
        → Linked owner s
            (catch (λ _. and_then x λ _. pure row) (λ e. Repository.delete row.id >> raise e) t)
    go (ok u, s') h = h
    go (err e, s') h =
        let own : has_id row.id row ≡ true = (==_iff row.id row.id).1 refl in
        (ap (λ r. remove (has_id row.id) r.businesses) h ∙ rw own refl, ap (λ r. r.users) h)
