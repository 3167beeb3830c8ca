-- ===== src/Rbac/Delegation.antt =====
-- app/core/rbac/delegation.py, and the `sorted` of Python on names.
pub mod Effective
use fastapi_template.Prelude.{
  ℕ, zero, suc, ◌+◌, ◌-◌, ◌*◌, ◌/◌, ◌%◌, ◌^◌, ◌≤◌, ◌<◌, min, max, bit_and, bit_or, String, ◌≡◌, ◌≢◌,
  refl, sym, ap, ◌∙◌, subst, fun_ext, ◌↔◌, ◌⊎◌, inl, inr, Bool, true, false, ◌&&◌, ◌||◌, not,
  Option, none, some, List, [], ◌∷◌, ◌++◌, map, arith, ltb, leb, nat_beq, if◌then◌else◌,
  nat_beq_iff, Eq, ◌==◌, nat_eq, string_eq, option_eq, beq_refl, Bool-cases, Option-cases,
  map_option, is_some,
}
use fastapi_template.Prelude.Lists.{any, all, filter, find, contains, take, drop, length, lookup}
use fastapi_template.Error.{
  Error, Result, ok, err, by_id, by_name, unknown, role_not_found, role_exists,
  permission_not_found, grant_not_allowed, permission_already_granted, permission_not_granted,
  role_already_assigned, role_not_assigned, superuser_required, username_exist, user_mail_exist,
  user_not_found, tenant_not_found, tenant_exists, integrity_error, attribute_error, http_exception,
  user_unauthenticated, user_not_verified, invalid_token, user_deactivated, tenant_inactive,
  stale_token, rate_limit, runtime_error,
}
use fastapi_template.Models.{Permission, Role, User, Tenant, RefreshToken, LoadedRole, LoadedUser}
use fastapi_template.World.{
  Link, link_eq, Db, World, Action, pure, raise, gets, lift, or_raise, ◌>>=◌, ◌>>◌, raise_if,
  modify_db, update_rows, load_role, load_user, find_tenant,
}
use fastapi_template.World.Mirror.{
  Event, perm_version, user_status, tenant_status, Redis, publish_events,
}
use Prim.Native.Char.{code}
use fastapi_template.Rbac.Registry.{registry_get}
use fastapi_template.Repositories.RoleRepo.{mask_with}
use fastapi_template.Repositories.RoleRepo.Grants.{
  get_grantable_role_ids, get_grantable_permission_ids,
}

-- The names of the permissions of some loaded roles, one role after the other.
unfoldable pub role_permission_names : List LoadedRole → List String
role_permission_names [] = []
role_permission_names (r ∷ roles) = map (λ p. p.name) r.permissions ++ role_permission_names roles

unfoldable pub effective_permissions : LoadedUser → List String
unfolding role_permission_names
effective_permissions u = role_permission_names u.roles ++ map (λ p. p.name) u.permissions

unfoldable pub or_role_masks : ℕ → List LoadedRole → ℕ
or_role_masks mask [] = mask
or_role_masks mask (r ∷ roles) = or_role_masks (bit_or mask r.role.permission_mask) roles

-- The bit of a direct grant comes from the registry, by the name of the permission.
unfoldable pub or_direct_grants : ℕ → List Permission → ℕ
or_direct_grants mask [] = mask
or_direct_grants mask (p ∷ permissions) =
    or_direct_grants (mask_with mask (registry_get p.name)) permissions

unfoldable pub effective_permission_mask : LoadedUser → ℕ
unfolding or_role_masks or_direct_grants
effective_permission_mask u = or_direct_grants (or_role_masks 0 u.roles) u.permissions

abbrev pub role_ids : LoadedUser → List ℕ
role_ids actor = map (λ (r : LoadedRole). r.role.id) actor.roles

abbrev pub is_empty : {A : Type 0} → List A → Bool
is_empty [] = true
is_empty (x ∷ xs) = false

unfoldable pub can_grant_role : LoadedUser → ℕ → Action Bool
unfolding get_grantable_role_ids
can_grant_role actor role_id =
    if actor.user.is_superuser then pure true else if is_empty actor.roles then pure false else do
      grantable_ids ← get_grantable_role_ids (role_ids actor)
      pure (contains role_id grantable_ids)

unfoldable pub can_grant_permission : LoadedUser → ℕ → Action Bool
unfolding get_grantable_permission_ids
can_grant_permission actor permission_id =
    if actor.user.is_superuser then pure true else if is_empty actor.roles then pure false else do
      grantable_ids ← get_grantable_permission_ids (role_ids actor)
      pure (contains permission_id grantable_ids)

-- Python's order on texts, by code points.
unfoldable pub str_leb : String → String → Bool
str_leb String.[] t = true
str_leb (String.◌∷◌ c s) String.[] = false
str_leb (String.◌∷◌ c s) (String.◌∷◌ d t) =
    let rest = str_leb s t in if code c == code d then rest else ltb (code c) (code d)

unfoldable pub insert_name : String → List String → List String
insert_name name [] = name ∷ []
insert_name name (n ∷ names) =
    if name == n
    then n ∷ names
    else if str_leb name n
    then name ∷ n ∷ names
    else n ∷ insert_name name names

-- `sorted` of a set of names: each name once.
unfoldable pub sorted : List String → List String
unfolding insert_name str_leb
sorted [] = []
sorted (name ∷ names) = insert_name name (sorted names)
