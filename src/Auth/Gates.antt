-- ===== src/Auth/Gates.antt =====
-- app/core/dependencies.py: the gates that the routes depend on.
pub mod AccessToken
use fastapi_template.Prelude.{
  ℕ, zero, suc, ◌+◌, ◌-◌, ◌*◌, ◌/◌, ◌%◌, ◌^◌, ◌≤◌, ◌<◌, min, max, bit_and, bit_or, String, ◌≡◌, ◌≢◌,
  refl, sym, ap, ◌∙◌, subst, fun_ext, ◌↔◌, ◌⊎◌, inl, inr, Bool, true, false, ◌&&◌, ◌||◌, not,
  Option, none, some, List, [], ◌∷◌, ◌++◌, map, arith, ltb, leb, nat_beq, if◌then◌else◌,
  nat_beq_iff, Eq, ◌==◌, nat_eq, string_eq, option_eq, beq_refl, Bool-cases, Option-cases,
  map_option, is_some,
}
use fastapi_template.Prelude.Lists.{any, all, filter, find, contains, take, drop, length, lookup}
use fastapi_template.Error.{
  Error, Result, ok, err, by_id, by_name, unknown, role_not_found, role_exists,
  permission_not_found, grant_not_allowed, permission_already_granted, permission_not_granted,
  role_already_assigned, role_not_assigned, superuser_required, username_exist, user_mail_exist,
  user_not_found, tenant_not_found, tenant_exists, integrity_error, attribute_error, key_error,
  http_exception, user_unauthenticated, user_not_verified, invalid_token, user_deactivated,
  tenant_inactive, stale_token, rate_limit, runtime_error,
}
use fastapi_template.Models.{Permission, Role, User, Tenant, RefreshToken, LoadedRole, LoadedUser}
use fastapi_template.World.{
  Link, link_eq, Db, World, Action, pure, raise, gets, lift, or_raise, ◌>>=◌, ◌>>◌, raise_if,
  modify_db, update_rows, load_role, load_user, find_tenant,
}
use fastapi_template.World.Mirror.{
  Event, perm_version, user_status, tenant_status, Redis, publish_events,
}
use fastapi_template.Prelude.Bits.{has_bit}
use fastapi_template.Rbac.Registry.{registry_get}
use fastapi_template.Rbac.Delegation.{can_grant_role, can_grant_permission}
use fastapi_template.Auth.CurrentUser.{Principal}

unfoldable pub role_required : List String → LoadedUser → Result LoadedUser
role_required roles u =
    if u.user.is_superuser
    then ok u
    else if not (any (λ (r : LoadedRole). contains r.role.name roles) u.roles)
    then err (http_exception 403)
    else ok u

-- The bit is looked up when the route is declared: a name that is not in the catalog raises
-- `KeyError` then.
unfoldable pub permission_required : String → Principal → Result Principal
permission_required required_permission principal = elim (registry_get required_permission) [
  | none ↦ err key_error
  | some bit ↦
      if principal.is_superuser
      then ok principal
      else if not (has_bit principal.perm_mask bit)
      then err (http_exception 403)
      else ok principal
]

unfoldable pub grant_role_required : ℕ → LoadedUser → Action LoadedUser
grant_role_required role_id current_user = do
  allowed ← can_grant_role current_user role_id
  raise_if (not allowed) grant_not_allowed
  pure current_user

unfoldable pub grant_permission_required : ℕ → LoadedUser → Action LoadedUser
grant_permission_required permission_id current_user = do
  allowed ← can_grant_permission current_user permission_id
  raise_if (not allowed) grant_not_allowed
  pure current_user

unfoldable pub superuser_required_gate : LoadedUser → Result LoadedUser
superuser_required_gate current_user =
    if not current_user.user.is_superuser then err superuser_required else ok current_user
