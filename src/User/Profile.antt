-- ===== src/User/Profile.antt =====
-- Profiles, in src/user/application/user.service.ts.
use ventura_api.Common.{not, ◌||◌, Option, none, some, String, ◌∷◌, Uuid, if◌then◌else◌, or_default}
use ventura_api.Common.Text.{truthy, is_text}
use ventura_api.Common.Action.{◌>>=◌, ◌>>◌, pure, or_raise, modify, not_found}
use ventura_api.Accounts.{Env, Service}
use ventura_api.User.Entity.{Text, User}
use ventura_api.User.Repository.{UpdateUser, absent, set, no_change, update_row}
use ventura_api.User.Service.{get_active_user_or_throw}

-- writes a patch to an active account that must still be there
abbrev pub patch_active : Env → Uuid → UpdateUser → Service User
patch_active env user_id patch = do
  get_active_user_or_throw user_id
  updated ← update_row env user_id patch
  or_raise updated (not_found "User not found.")

unfoldable pub update_first_name : Env → Uuid → Text → Service User
unfolding get_active_user_or_throw update_row
update_first_name env user_id first_name =
    patch_active env user_id (record no_change { first_name = set first_name })

unfoldable pub update_last_name : Env → Uuid → Option Text → Service User
unfolding get_active_user_or_throw update_row
update_last_name env user_id last_name =
    patch_active env user_id (record no_change { last_name = some last_name })

-- deletes the object, unless the key stays; a failure of the store is swallowed
unfoldable pub delete_old_asset : Env → Option String → Option String → Service (Unit {0})
delete_old_asset env old_key new_key =
    let key = or_default old_key "" in
    if not (truthy old_key) || is_text new_key key || not env.deletes_objects
    then pure tt
    else modify λ s. record s { deleted_objects = key ∷ s.deleted_objects }

unfoldable pub update_avatar : Env → Uuid → Option String → Option String → Service User
unfolding get_active_user_or_throw update_row delete_old_asset
update_avatar env user_id avatar_url avatar_key = do
  user ← get_active_user_or_throw user_id
  updated ←
      update_row env user_id
        (record no_change { avatar_url = some avatar_url; avatar_key = some avatar_key })
  delete_old_asset env user.avatar_key avatar_key
  pure (or_default updated user)

-- a field that is `none` is not in the request, `some none` is null
pub record UpdateProfileDto : Type 0 where
  pub first_name : Option Text
  pub last_name : Option (Option Text)
  pub avatar_url : Option (Option String)

unfoldable pub update_profile : Env → Uuid → UpdateProfileDto → Service User
unfolding get_active_user_or_throw update_row
update_profile env user_id dto = patch_active env user_id (record no_change {
  first_name = elim dto.first_name [ none ↦ absent | some name ↦ set name ];
  last_name = dto.last_name;
  avatar_url = dto.avatar_url;
})
