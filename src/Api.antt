-- ===== src/Api.antt =====
-- The controllers of src/: the handlers of the requests about the tables of the shop. A request comes
-- with the id of the user whose token it bears, and the controller looks up the business of that user. The
-- rows are returned as they are, without the responses that they are mapped to.
use ventura_api.Common.{
  Option, none, some, String, Uuid, ◌≡◌, refl, false, true, Bool, ◌==◌, Option-cases, inl, inr,
}
use ventura_api.Common.Action.{Action, Result, ok, err, forbidden, raise, pure}
use ventura_api.Common.Keeps.{Keeps, Keeps-raise}
use ventura_api.Paging.{Paginated, paginate}
use ventura_api.Accounts.{Accounts}
use mathlib.Core.Path.{subst}
use ventura_api.User.Entity.{User}
use ventura_api.User.Repository.{find_by_id}
use ventura_api.User.Service.{get_user_by_id, get_user_or_throw}
pub mod Customers
pub mod Resources
pub mod Orders
pub mod Invoices
pub mod Appointments

-- `if (!user.businessId) { throw ... }`
abbrev pub own_business : String → Option Uuid → Result Uuid
own_business message none = err (forbidden message)
own_business message (some business_id) = ok business_id

-- `resolveBusinessId`, which differs in its message from controller to controller
unfoldable pub resolve_business_id : String → Uuid → Accounts → Result Uuid
unfolding get_user_or_throw
resolve_business_id message user_id accounts = elim (get_user_by_id user_id accounts).0 [
  | ok user ↦ own_business message user.business_id
  | err e ↦ err e
]

-- what a handler does with the business, or its absence
abbrev pub answer : {S A : Type 0} → (Uuid → Action S A) → Result Uuid → Action S A
answer handler (ok business_id) = handler business_id
answer handler (err e) = raise e

-- `paginate(page.data.map(...), page.meta.total, page.meta.page, page.meta.limit)`
unfoldable pub again : {S T : Type 0} → Paginated T → Action S (Paginated T)
unfolding paginate
again page = pure (paginate page.rows page.meta.total page.meta.page page.meta.limit)

-- the business of a user is another, if there is any
abbrev pub is_of : Uuid → Option Uuid → Bool
is_of c none = false
is_of c (some b) = b == c

abbrev pub business_in : Option User → Option Uuid
business_in none = none
business_in (some user) = user.business_id

module _ {S A : Type 0} (I : S → Type 0) (c : Uuid) (message : String)
    (handler : Uuid → Action S A) where
  -- an invariant that the handler keeps for every business but one
  pub answer-Keeps :
      (user_id : Uuid) (accounts : Accounts)
      → is_of c (business_in (find_by_id user_id accounts)) ≡ false
      → ((b : Uuid) → (b == c) ≡ false → Keeps I (handler b))
      → Keeps I (answer handler (resolve_business_id message user_id accounts))
  unfolding resolve_business_id get_user_or_throw
  answer-Keeps user_id accounts outside h = elim (Option-cases (find_by_id user_id accounts)) [
    | inl missing ↦ rw (missing, resolve_business_id) (Keeps-raise _)
    | inr (u, found) ↦
        rw (found, resolve_business_id)
          (go u.business_id (subst (λ o. is_of c (business_in o) ≡ false) found outside))
  ]
    where
      go : (o : Option Uuid) → is_of c o ≡ false → Keeps I (answer handler (own_business message o))
      go none k = Keeps-raise _
      go (some b) k = h b k
