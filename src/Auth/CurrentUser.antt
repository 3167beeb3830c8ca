-- ===== src/Auth/CurrentUser.antt =====
-- app/services/auth/current_user.py and app/core/rbac/principal.py
use fastapi_template.Prelude.{
  ℕ, String, Bool, Option, none, some, if◌then◌else◌, nat_eq, string_eq, option_eq,
}
use fastapi_template.Error.{
  Result, ok, err, by_id, user_not_found, invalid_token, user_deactivated, tenant_inactive,
  stale_token,
}
use fastapi_template.Models.{LoadedUser}
use fastapi_template.World.{link_eq, Action, lift, or_raise, ◌>>=◌}
use fastapi_template.Rbac.Mask.{hex_to_mask}
use fastapi_template.AuthzCache.{Cache, is_user_inactive, is_tenant_inactive, is_stale}
use fastapi_template.Auth.Token.{TokenPayload, Libraries, verify_token}
use fastapi_template.Repositories.UserRepo

pub record Principal : Type 0 where
  pub id : ℕ
  pub tenant_id : Option ℕ
  pub is_superuser : Bool
  pub perm_mask : ℕ
  pub perm_version : ℕ

-- The three checks of `_authenticate` against the cache.
unfoldable pub check_cache : Cache → TokenPayload → Result TokenPayload
check_cache c payload =
    if is_user_inactive c payload.id
    then err user_deactivated
    else if is_tenant_inactive c payload.tenant_id
    then err tenant_inactive
    else if is_stale c payload.id payload.perm_version
    then err stale_token
    else ok payload

module _ (lib : Libraries) where
  -- `_authenticate`
  unfoldable pub authenticate : Cache → ℕ → String → Result TokenPayload
  authenticate c now token = elim (verify_token lib now token) [
    | none ↦ err invalid_token
    | some payload ↦ check_cache c payload
  ]

  abbrev pub principal_of : TokenPayload → Result Principal
  principal_of payload = elim (hex_to_mask (some payload.perm_mask)) [
    | err e ↦ err e
    | ok mask ↦ ok (record {
      id = payload.id;
      tenant_id = payload.tenant_id;
      is_superuser = payload.is_superuser;
      perm_mask = mask;
      perm_version = payload.perm_version;
    })
  ]

  unfoldable pub get_current_principal : Cache → ℕ → String → Result Principal
  get_current_principal c now token = elim (authenticate c now token) [
    | err e ↦ err e
    | ok payload ↦ principal_of payload
  ]

  unfoldable pub get_current_user : Cache → ℕ → String → Action LoadedUser
  get_current_user c now token = do
    payload ← lift (authenticate c now token)
    found ← UserRepo.get_by_id_with_grants payload.id
    or_raise found (user_not_found (by_id payload.id))
