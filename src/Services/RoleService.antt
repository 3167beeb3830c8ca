-- ===== src/Services/RoleService.antt =====
-- app/services/rbac/role_service.py: roles, within the scope of the actor. The configuration of grant
-- delegation is in `Delegating`.
pub mod Delegating
pub mod Scoping
pub mod Grantable
pub mod Additions
pub mod Ceiling
use fastapi_template.Prelude.{
  ℕ, zero, suc, ◌+◌, ◌-◌, ◌*◌, ◌/◌, ◌%◌, ◌^◌, ◌≤◌, ◌<◌, min, max, bit_and, bit_or, String, ◌≡◌, ◌≢◌,
  refl, sym, ap, ◌∙◌, subst, fun_ext, ◌↔◌, ◌⊎◌, inl, inr, Bool, true, false, ◌&&◌, ◌||◌, not,
  Option, none, some, List, [], ◌∷◌, ◌++◌, map, arith, ltb, leb, nat_beq, if◌then◌else◌,
  nat_beq_iff, Eq, ◌==◌, nat_eq, string_eq, option_eq, beq_refl, Bool-cases, Option-cases,
  map_option, is_some,
}
use fastapi_template.Prelude.Lists.{any, all, filter, find, contains, take, drop, length, lookup}
use fastapi_template.Error.{
  Error, Result, ok, err, by_id, by_name, unknown, role_not_found, role_exists,
  permission_not_found, grant_not_allowed, permission_already_granted, permission_not_granted,
  role_already_assigned, role_not_assigned, superuser_required, username_exist, user_mail_exist,
  user_not_found, tenant_not_found, tenant_exists, integrity_error, attribute_error, http_exception,
  user_unauthenticated, user_not_verified, invalid_token, user_deactivated, tenant_inactive,
  stale_token, rate_limit, runtime_error,
}
use fastapi_template.Models.{Permission, Role, User, Tenant, RefreshToken, LoadedRole, LoadedUser}
use fastapi_template.World.{
  Link, link_eq, Db, World, Action, pure, raise, gets, lift, or_raise, ◌>>=◌, ◌>>◌, raise_if,
  modify_db, update_rows, load_role, load_user, find_tenant,
}
use fastapi_template.World.Mirror.{
  Event, perm_version, user_status, tenant_status, Redis, publish_events,
}
use fastapi_template.Prelude.Bits.{and_not}
use fastapi_template.Rbac.Registry.{mask_for, expand_implied}
use fastapi_template.Rbac.Delegation.{role_ids}
use fastapi_template.Repositories.PermissionRepo
use fastapi_template.Repositories.RoleRepo
use fastapi_template.Repositories.RoleRepo.Grants

-- What is read of a `User` or a `Principal` that acts.
pub record Scope : Type 0 where
  pub is_superuser : Bool
  pub tenant_id : Option ℕ

abbrev pub scope_of : LoadedUser → Scope
scope_of actor = record { is_superuser = actor.user.is_superuser; tenant_id = actor.user.tenant_id }

-- The role belongs to a tenant that is not the actor's.
abbrev pub is_foreign : Role → Scope → Bool
is_foreign role actor =
    not actor.is_superuser && (is_some role.tenant_id && not (role.tenant_id == actor.tenant_id))

unfoldable pub ensure_role_in_scope : Role → Scope → Action Unit
ensure_role_in_scope role actor = raise_if (is_foreign role actor) (role_not_found (by_id role.id))

-- `mask &= actor.tenant.allowed_permission_mask` where the actor has a tenant
abbrev pub under_ceiling : ℕ → Option Tenant → ℕ
under_ceiling mask none = mask
under_ceiling mask (some tenant) = bit_and mask tenant.allowed_permission_mask

unfoldable pub grantable_mask_for : LoadedUser → Action ℕ
grantable_mask_for actor = do
  mask ← Grants.get_grantable_permission_mask (role_ids actor)
  pure (under_ceiling mask actor.tenant)

unfoldable pub get_role : ℕ → Scope → Action LoadedRole
unfolding ensure_role_in_scope
get_role role_id actor = do
  found ← RoleRepo.get_by_id role_id
  role ← or_raise found (role_not_found (by_id role_id))
  ensure_role_in_scope role.role actor
  pure role

pub record RoleCreate : Type 0 where
  pub name : String
  pub permission_names : List String

-- `if not actor.is_superuser`: the mask that is asked for lies in what the actor may grant.
unfoldable pub ensure_grantable : LoadedUser → ℕ → Action Unit
unfolding grantable_mask_for
ensure_grantable actor requested_mask = if actor.user.is_superuser then pure tt else do
  allowed_mask ← grantable_mask_for actor
  raise_if (not (and_not requested_mask allowed_mask == 0)) grant_not_allowed

-- The loop that lets the actor's own roles grant the new role.
unfoldable pub link_actor_roles : List LoadedRole → ℕ → Action Unit
link_actor_roles [] new_role_id = pure tt
link_actor_roles (r ∷ roles) new_role_id = do
  linked ← Grants.grantable_role_link_exists r.role.id new_role_id
  (if linked then pure tt else Grants.add_grantable_role r.role.id new_role_id)
  link_actor_roles roles new_role_id

-- `new_id` is the key that the database gives to the new role.
unfoldable pub create_role : ℕ → RoleCreate → LoadedUser → Action LoadedRole
unfolding ensure_grantable link_actor_roles
create_role new_id role actor = do
  let tenant_id = if actor.user.is_superuser then none else actor.user.tenant_id
  existing ← RoleRepo.get_by_name role.name tenant_id
  raise_if (is_some existing) (role_exists (by_name role.name))
  let expanded_names = expand_implied role.permission_names
  requested_mask ← lift (mask_for expanded_names)
  ensure_grantable actor requested_mask
  permissions ← PermissionRepo.get_by_names expanded_names
  created ← RoleRepo.create new_id role.name tenant_id permissions requested_mask
  new_role ← or_raise created attribute_error
  (if actor.user.is_superuser then pure tt else link_actor_roles actor.roles new_role.role.id)
  pure new_role

unfoldable pub update_role : ℕ → String → LoadedUser → Action (Option LoadedRole)
update_role role_id name actor = do
  db_role ← get_role role_id (scope_of actor)
  RoleRepo.update db_role name

unfoldable pub delete_role : ℕ → LoadedUser → Action Unit
delete_role role_id actor = do db_role ← get_role role_id (scope_of actor); RoleRepo.delete db_role

unfoldable pub get_all_roles : Scope → ℕ → ℕ → Action (List LoadedRole)
get_all_roles actor skip limit =
    if actor.is_superuser
    then RoleRepo.list_all skip limit
    else RoleRepo.list_by_tenant actor.tenant_id skip limit

abbrev pub permission_names : LoadedRole → List String
permission_names r = map (λ (p : Permission). p.name) r.permissions

-- `perm in role.permissions`: one object of the session for one row.
abbrev pub has_permission_row : LoadedRole → Permission → Bool
has_permission_row r perm = any (λ (p : Permission). p.id == perm.id) r.permissions

-- `expand_implied([perm.name]) - have_names - {perm.name}`
unfoldable pub missing_implied : LoadedRole → Permission → List String
missing_implied r perm =
    filter (λ name. not (contains name (permission_names r)) && not (name == perm.name))
      (expand_implied (perm.name ∷ []))

unfoldable pub add_permissions : LoadedRole → List Permission → Action LoadedRole
add_permissions r [] = pure r
add_permissions r (perm ∷ perms) = do r' ← RoleRepo.add_permission r perm; add_permissions r' perms

-- `if not actor.is_superuser`: the permission and what it implies lie in what the actor may grant.
unfoldable pub ensure_names_grantable : LoadedUser → List String → Action Unit
ensure_names_grantable actor names = if actor.user.is_superuser then pure tt else do
  allowed_mask ← grantable_mask_for actor
  mask ← lift (mask_for names)
  raise_if (not (and_not mask allowed_mask == 0)) grant_not_allowed

unfoldable pub add_permission_to_role : ℕ → ℕ → LoadedUser → Action LoadedRole
unfolding ensure_names_grantable add_permissions missing_implied
add_permission_to_role role_id permission_id actor = do
  role ← get_role role_id (scope_of actor)
  found ← RoleRepo.get_permission_by_id permission_id
  perm ← or_raise found (permission_not_found (by_id permission_id))
  raise_if (has_permission_row role perm) permission_already_granted
  let implied_names = missing_implied role perm
  ensure_names_grantable actor (perm.name ∷ implied_names)
  implied_perms ← PermissionRepo.get_by_names implied_names
  add_permissions role (perm ∷ implied_perms)

unfoldable pub remove_permission_from_role : ℕ → ℕ → LoadedUser → Action LoadedRole
remove_permission_from_role role_id permission_id actor = do
  role ← get_role role_id (scope_of actor)
  found ← RoleRepo.get_permission_by_id permission_id
  perm ← or_raise found (permission_not_found (by_id permission_id))
  raise_if (not (has_permission_row role perm)) permission_not_granted
  RoleRepo.remove_permission role perm
