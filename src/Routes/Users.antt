-- ===== src/Routes/Users.antt =====
-- app/api/v1/routes/users.py
use fastapi_template.Prelude.{ℕ, true, false, Option, List}
use fastapi_template.Models.{LoadedUser}
use fastapi_template.World.{Action, ◌>>=◌, ◌>>◌}
use fastapi_template.Services.UserService
use fastapi_template.Services.UserService.Granting
use fastapi_template.Routes.{
  Caller, with_permission, current_user, role_granter, permission_granter, scope,
}

unfoldable pub get_my_grants : Caller → Action UserService.Grants
get_my_grants c = do u ← current_user c; UserService.get_grants u

unfoldable pub create_user : Caller → ℕ → UserService.UserCreate → Action (Option LoadedUser)
create_user c new_id form = do
  with_permission c "user:create"
  u ← current_user c
  UserService.create_user c.lib.hashpw new_id u form

unfoldable pub list_users : Caller → ℕ → ℕ → Option ℕ → Action (List LoadedUser)
list_users c skip limit tenant_id = do
  principal ← with_permission c "user:read"
  UserService.list_users c.order_by_username (scope principal) skip limit tenant_id

unfoldable pub count_users : Caller → Option ℕ → Action ℕ
count_users c tenant_id = do
  principal ← with_permission c "user:read"
  UserService.count_users (scope principal) tenant_id

unfoldable pub get_user : Caller → ℕ → Action UserService.UserDetail
get_user c user_id = do
  principal ← with_permission c "user:read.id"
  UserService.get_user_detail (scope principal) user_id

unfoldable pub assign_role_to_user : Caller → ℕ → ℕ → Action Unit
assign_role_to_user c user_id role_id = do
  role_granter c role_id
  u ← current_user c
  Granting.assign_role u user_id role_id

unfoldable pub remove_role_from_user : Caller → ℕ → ℕ → Action Unit
remove_role_from_user c user_id role_id = do
  role_granter c role_id
  u ← current_user c
  Granting.remove_role u user_id role_id

unfoldable pub grant_permission_to_user : Caller → ℕ → ℕ → Action Unit
grant_permission_to_user c user_id permission_id = do
  permission_granter c permission_id
  u ← current_user c
  Granting.grant_permission u user_id permission_id

unfoldable pub revoke_permission_from_user : Caller → ℕ → ℕ → Action Unit
revoke_permission_from_user c user_id permission_id = do
  permission_granter c permission_id
  u ← current_user c
  Granting.revoke_permission u user_id permission_id

unfoldable pub deactivate_user : Caller → ℕ → Action Unit
deactivate_user c user_id = do
  principal ← with_permission c "user:deactivate"
  UserService.set_user_active (scope principal) user_id false

unfoldable pub activate_user : Caller → ℕ → Action Unit
activate_user c user_id = do
  principal ← with_permission c "user:deactivate"
  UserService.set_user_active (scope principal) user_id true
