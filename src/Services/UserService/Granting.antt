-- ===== src/Services/UserService/Granting.antt =====
-- app/services/users/user_management_service.py: assigning and removing roles, granting and revoking
-- permissions.
use fastapi_template.Prelude.{ℕ, not, nat_eq, string_eq, option_eq}
use fastapi_template.Error.{
  by_id, role_not_found, permission_not_found, grant_not_allowed, permission_already_granted,
  permission_not_granted, role_already_assigned, role_not_assigned, user_not_found,
}
use fastapi_template.Models.{Permission, LoadedUser}
use fastapi_template.World.{link_eq, Action, pure, or_raise, ◌>>=◌, ◌>>◌, raise_if}
use fastapi_template.Rbac.Delegation.{can_grant_role, can_grant_permission}
use fastapi_template.Repositories.RoleRepo
use fastapi_template.Repositories.RoleRepo.Assignment
use fastapi_template.Repositories.UserRepo
use fastapi_template.Services.RoleService.{scope_of}
use fastapi_template.Services.UserService.{ensure_same_tenant}

-- The checks that `assign_role` and `remove_role` share, in their order.
unfoldable pub check_role_grant : LoadedUser → ℕ → ℕ → Action Unit
unfolding ensure_same_tenant
check_role_grant actor target_user_id role_id = do
  allowed ← can_grant_role actor role_id
  raise_if (not allowed) grant_not_allowed
  found_role ← RoleRepo.get_by_id role_id
  or_raise found_role (role_not_found (by_id role_id))
  found ← UserRepo.get_by_id target_user_id
  target ← or_raise found (user_not_found (by_id target_user_id))
  ensure_same_tenant target (scope_of actor)

unfoldable pub assign_role : LoadedUser → ℕ → ℕ → Action Unit
unfolding check_role_grant
assign_role actor target_user_id role_id = do
  check_role_grant actor target_user_id role_id
  held ← Assignment.user_has_role target_user_id role_id
  raise_if held role_already_assigned
  Assignment.assign_to_user role_id target_user_id

unfoldable pub remove_role : LoadedUser → ℕ → ℕ → Action Unit
unfolding check_role_grant
remove_role actor target_user_id role_id = do
  check_role_grant actor target_user_id role_id
  held ← Assignment.user_has_role target_user_id role_id
  raise_if (not held) role_not_assigned
  Assignment.remove_from_user role_id target_user_id

-- The checks that `grant_permission` and `revoke_permission` share, and what they loaded.
unfoldable pub check_permission_grant : LoadedUser → ℕ → ℕ → Action (LoadedUser × Permission)
unfolding ensure_same_tenant
check_permission_grant actor target_user_id permission_id = do
  allowed ← can_grant_permission actor permission_id
  raise_if (not allowed) grant_not_allowed
  found_permission ← RoleRepo.get_permission_by_id permission_id
  permission ← or_raise found_permission (permission_not_found (by_id permission_id))
  found ← UserRepo.get_by_id_with_grants target_user_id
  target ← or_raise found (user_not_found (by_id target_user_id))
  ensure_same_tenant target.user (scope_of actor)
  pure (target, permission)

unfoldable pub grant_permission : LoadedUser → ℕ → ℕ → Action Unit
unfolding check_permission_grant
grant_permission actor target_user_id permission_id = do
  (target, permission) ← check_permission_grant actor target_user_id permission_id
  held ← UserRepo.has_permission target_user_id permission_id
  raise_if held permission_already_granted
  UserRepo.grant_permission target.user permission

unfoldable pub revoke_permission : LoadedUser → ℕ → ℕ → Action Unit
unfolding check_permission_grant
revoke_permission actor target_user_id permission_id = do
  (target, permission) ← check_permission_grant actor target_user_id permission_id
  held ← UserRepo.has_permission target_user_id permission_id
  raise_if (not held) permission_not_granted
  UserRepo.revoke_permission target permission
