-- ===== src/Services/RoleService/Delegating.antt =====
-- app/services/rbac/role_service.py: which roles and permissions a holder of a role may hand out.
use fastapi_template.Prelude.{
  ℕ, String, not, List, [], ◌∷◌, map, if◌then◌else◌, nat_eq, string_eq, option_eq,
}
use fastapi_template.Prelude.Lists.{contains}
use fastapi_template.Error.{
  by_id, role_not_found, permission_not_found, grant_not_allowed, permission_already_granted,
  permission_not_granted,
}
use fastapi_template.Models.{Permission, LoadedRole, LoadedUser}
use fastapi_template.World.{link_eq, Action, pure, or_raise, ◌>>=◌, ◌>>◌, raise_if}
use fastapi_template.Rbac.Delegation.{role_ids}
use fastapi_template.Repositories.PermissionRepo
use fastapi_template.Repositories.RoleRepo
use fastapi_template.Repositories.RoleRepo.Grants
use fastapi_template.Services.RoleService.{Scope, scope_of, get_role}

-- `if not actor.is_superuser`: the role is one that the actor's own roles may grant.
unfoldable pub ensure_role_delegable : LoadedUser → ℕ → Action Unit
ensure_role_delegable actor grantable_role_id = if actor.user.is_superuser then pure tt else do
  allowed_role_ids ← Grants.get_grantable_role_ids (role_ids actor)
  raise_if (not (contains grantable_role_id allowed_role_ids)) grant_not_allowed

unfoldable pub add_grantable_role : ℕ → ℕ → LoadedUser → Action Unit
unfolding ensure_role_delegable
add_grantable_role role_id grantable_role_id actor = do
  get_role role_id (scope_of actor)
  found ← RoleRepo.get_by_id grantable_role_id
  grantable_role ← or_raise found (role_not_found (by_id grantable_role_id))
  ensure_role_delegable actor grantable_role_id
  linked ← Grants.grantable_role_link_exists role_id grantable_role_id
  raise_if linked permission_already_granted
  Grants.add_grantable_role role_id grantable_role_id

unfoldable pub remove_grantable_role : ℕ → ℕ → LoadedUser → Action Unit
remove_grantable_role role_id grantable_role_id actor = do
  get_role role_id (scope_of actor)
  found ← RoleRepo.get_by_id grantable_role_id
  grantable_role ← or_raise found (role_not_found (by_id grantable_role_id))
  linked ← Grants.grantable_role_link_exists role_id grantable_role_id
  raise_if (not linked) permission_not_granted
  Grants.remove_grantable_role role_id grantable_role_id

-- `if not actor.is_superuser`: the permission is one that the actor's own roles may grant.
unfoldable pub ensure_permission_delegable : LoadedUser → ℕ → Action Unit
ensure_permission_delegable actor permission_id = if actor.user.is_superuser then pure tt else do
  allowed_permission_ids ← Grants.get_grantable_permission_ids (role_ids actor)
  raise_if (not (contains permission_id allowed_permission_ids)) grant_not_allowed

unfoldable pub add_grantable_permission : ℕ → ℕ → LoadedUser → Action Unit
unfolding ensure_permission_delegable
add_grantable_permission role_id permission_id actor = do
  get_role role_id (scope_of actor)
  found ← RoleRepo.get_permission_by_id permission_id
  perm ← or_raise found (permission_not_found (by_id permission_id))
  ensure_permission_delegable actor permission_id
  linked ← Grants.grantable_permission_link_exists role_id permission_id
  raise_if linked permission_already_granted
  Grants.add_grantable_permission role_id permission_id

unfoldable pub remove_grantable_permission : ℕ → ℕ → LoadedUser → Action Unit
remove_grantable_permission role_id permission_id actor = do
  get_role role_id (scope_of actor)
  found ← RoleRepo.get_permission_by_id permission_id
  perm ← or_raise found (permission_not_found (by_id permission_id))
  linked ← Grants.grantable_permission_link_exists role_id permission_id
  raise_if (not linked) permission_not_granted
  Grants.remove_grantable_permission role_id permission_id

pub record RoleGrants : Type 0 where
  pub grantable_roles : List String
  pub grantable_permissions : List String

unfoldable pub get_role_grants : ℕ → Scope → Action RoleGrants
get_role_grants role_id actor = do
  get_role role_id actor
  grantable_role_ids ← Grants.get_grantable_role_ids (role_id ∷ [])
  grantable_permission_ids ← Grants.get_grantable_permission_ids (role_id ∷ [])
  roles ← RoleRepo.get_by_ids grantable_role_ids
  permissions ← PermissionRepo.get_by_ids grantable_permission_ids
  pure (record {
    grantable_roles = map (λ (r : LoadedRole). r.role.name) roles;
    grantable_permissions = map (λ (p : Permission). p.name) permissions;
  })
