-- ===== src/Services/PermissionService.antt =====
-- app/services/rbac/permission_service.py
use fastapi_template.Prelude.{ℕ, String, Option, none, some, List, nat_eq, string_eq, option_eq}
use fastapi_template.Error.{by_id, permission_not_found}
use fastapi_template.Models.{Permission}
use fastapi_template.World.{link_eq, Action, or_raise, ◌>>=◌}
use fastapi_template.Repositories.PermissionRepo

unfoldable pub get_permission : ℕ → Action Permission
get_permission permission_id = do
  found ← PermissionRepo.get_by_id permission_id
  or_raise found (permission_not_found (by_id permission_id))

unfoldable pub get_all_permissions : ℕ → ℕ → Option (List String) → Action (List Permission)
get_all_permissions skip limit none = PermissionRepo.list_all skip limit
get_all_permissions skip limit (some names) = PermissionRepo.list_by_names names skip limit
