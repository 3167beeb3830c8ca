-- ===== src/Routes/Roles.antt =====
-- app/api/v1/routes/rbac/roles.py and permission.py
use fastapi_template.Prelude.{ℕ, String, Option, none, some, List, if◌then◌else◌}
use fastapi_template.Models.{Permission, LoadedRole}
use fastapi_template.World.{Action, ◌>>=◌, ◌>>◌}
use fastapi_template.Rbac.Registry.{names_for_mask}
use fastapi_template.Services.RoleService
use fastapi_template.Services.RoleService.{RoleCreate}
use fastapi_template.Services.RoleService.Delegating
use fastapi_template.Services.PermissionService
use fastapi_template.Routes.{Caller, with_permission, current_user, scope}

unfoldable pub create_new_role : Caller → ℕ → RoleCreate → Action LoadedRole
create_new_role c new_id role = do
  with_permission c "role:create"
  u ← current_user c
  RoleService.create_role new_id role u

unfoldable pub read_role : Caller → ℕ → Action LoadedRole
read_role c role_id = do
  principal ← with_permission c "role:read.id"
  RoleService.get_role role_id (scope principal)

unfoldable pub read_role_grants : Caller → ℕ → Action Delegating.RoleGrants
read_role_grants c role_id = do
  principal ← with_permission c "role:read.id"
  Delegating.get_role_grants role_id (scope principal)

unfoldable pub update_role_endpoint : Caller → ℕ → String → Action (Option LoadedRole)
update_role_endpoint c role_id name = do
  with_permission c "role:update"
  u ← current_user c
  RoleService.update_role role_id name u

unfoldable pub delete_role_endpoint : Caller → ℕ → Action Unit
delete_role_endpoint c role_id = do
  with_permission c "role:delete"
  u ← current_user c
  RoleService.delete_role role_id u

unfoldable pub read_roles : Caller → ℕ → ℕ → Action (List LoadedRole)
read_roles c skip limit = do
  principal ← with_permission c "role:read"
  RoleService.get_all_roles (scope principal) skip limit

unfoldable pub add_permission_to_role_endpoint : Caller → ℕ → ℕ → Action LoadedRole
add_permission_to_role_endpoint c role_id permission_id = do
  with_permission c "role:add-permission"
  u ← current_user c
  RoleService.add_permission_to_role role_id permission_id u

unfoldable pub remove_permission_from_role_endpoint : Caller → ℕ → ℕ → Action LoadedRole
remove_permission_from_role_endpoint c role_id permission_id = do
  with_permission c "role:delete-permission"
  u ← current_user c
  RoleService.remove_permission_from_role role_id permission_id u

unfoldable pub add_grantable_role_endpoint : Caller → ℕ → ℕ → Action Unit
add_grantable_role_endpoint c role_id grantable_role_id = do
  with_permission c "role:update"
  u ← current_user c
  Delegating.add_grantable_role role_id grantable_role_id u

unfoldable pub remove_grantable_role_endpoint : Caller → ℕ → ℕ → Action Unit
remove_grantable_role_endpoint c role_id grantable_role_id = do
  with_permission c "role:update"
  u ← current_user c
  Delegating.remove_grantable_role role_id grantable_role_id u

unfoldable pub add_grantable_permission_endpoint : Caller → ℕ → ℕ → Action Unit
add_grantable_permission_endpoint c role_id permission_id = do
  with_permission c "role:update"
  u ← current_user c
  Delegating.add_grantable_permission role_id permission_id u

unfoldable pub remove_grantable_permission_endpoint : Caller → ℕ → ℕ → Action Unit
remove_grantable_permission_endpoint c role_id permission_id = do
  with_permission c "role:update"
  u ← current_user c
  Delegating.remove_grantable_permission role_id permission_id u

unfoldable pub read_permission : Caller → ℕ → Action Permission
read_permission c permission_id = do
  with_permission c "permission:read.id"
  PermissionService.get_permission permission_id

unfoldable pub read_permissions : Caller → ℕ → ℕ → Action (List Permission)
read_permissions c skip limit = do
  principal ← with_permission c "permission:read"
  let names = if principal.is_superuser then none else some (names_for_mask principal.perm_mask)
  PermissionService.get_all_permissions skip limit names
