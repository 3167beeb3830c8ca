-- ===== src/Routes/Endpoints.antt =====
-- The routes as one type, with what the decorators and dependencies of each ask of its caller.
pub mod Guards
pub mod Tokens
use fastapi_template.Prelude.{ℕ, String, Bool, true, false, Option, none, some, List}
use fastapi_template.Error.{Error, Result, ok, err}
use fastapi_template.World.{World, Action}
use fastapi_template.Services.RoleService.{RoleCreate}
use fastapi_template.Services.UserService.{UserCreate}
use fastapi_template.Services.TenantService.{NewIds, TenantCreate}
use fastapi_template.Auth.Account.{UserRegister, LinkData}
use fastapi_template.Routes.{Caller}
use fastapi_template.Routes.Roles
use fastapi_template.Routes.Users
use fastapi_template.Routes.Tenants
use fastapi_template.Routes.Accounts

pub data Endpoint : Type 0 where
  -- rbac/roles.py
  create_new_role : ℕ → RoleCreate → Endpoint
  read_role read_role_grants delete_role_endpoint : ℕ → Endpoint
  update_role_endpoint : ℕ → String → Endpoint
  read_roles : ℕ → ℕ → Endpoint
  add_permission_to_role_endpoint remove_permission_from_role_endpoint add_grantable_role_endpoint
        remove_grantable_role_endpoint add_grantable_permission_endpoint
        remove_grantable_permission_endpoint :
      ℕ → ℕ → Endpoint
  -- rbac/permission.py
  read_permission : ℕ → Endpoint
  read_permissions : ℕ → ℕ → Endpoint
  -- users.py
  get_my_grants : Endpoint
  create_user : ℕ → UserCreate → Endpoint
  list_users : ℕ → ℕ → Option ℕ → Endpoint
  count_users : Option ℕ → Endpoint
  get_user deactivate_user activate_user : ℕ → Endpoint
  assign_role_to_user remove_role_from_user : (user_id role_id : ℕ) → Endpoint
  grant_permission_to_user revoke_permission_from_user : (user_id permission_id : ℕ) → Endpoint
  -- tenant.py
  create_tenant : NewIds → TenantCreate → Endpoint
  list_tenants : ℕ → ℕ → Endpoint
  get_tenant deactivate_tenant activate_tenant : ℕ → Endpoint
  update_tenant_permissions : ℕ → List String → Endpoint
  -- auth/account.py
  register_user : ℕ → UserRegister → Endpoint
  verify_user_account : LinkData → Endpoint
  login_user : Bool → String → String → String → Endpoint
  logout_user : Option String → Endpoint
  refresh_access_token : String → String → Endpoint
  reset_password_mail : String → Endpoint
  reset_password_update : LinkData → String → String → Endpoint
  get_current_user_info : Endpoint
  -- auth/google_oauth.py
  google_callback : ℕ → String → Option String → Endpoint

-- What the caller of a route must be.
pub data Access : Type 0 where
  anyone logged_in superuser : Access
  permitted : (name : String) → Access
  role_granter permission_granter : (id : ℕ) → Access

unfoldable pub access : Endpoint → Access
access (create_new_role new_id role) = permitted "role:create"
access (read_role role_id) = permitted "role:read.id"
access (read_role_grants role_id) = permitted "role:read.id"
access (delete_role_endpoint role_id) = permitted "role:delete"
access (update_role_endpoint role_id name) = permitted "role:update"
access (read_roles skip limit) = permitted "role:read"
access (add_permission_to_role_endpoint role_id id) = permitted "role:add-permission"
access (remove_permission_from_role_endpoint role_id id) = permitted "role:delete-permission"
access (add_grantable_role_endpoint role_id id) = permitted "role:update"
access (remove_grantable_role_endpoint role_id id) = permitted "role:update"
access (add_grantable_permission_endpoint role_id id) = permitted "role:update"
access (remove_grantable_permission_endpoint role_id id) = permitted "role:update"
access (read_permission permission_id) = permitted "permission:read.id"
access (read_permissions skip limit) = permitted "permission:read"
access get_my_grants = logged_in
access (create_user new_id form) = permitted "user:create"
access (list_users skip limit tenant_id) = permitted "user:read"
access (count_users tenant_id) = permitted "user:read"
access (get_user user_id) = permitted "user:read.id"
access (deactivate_user user_id) = permitted "user:deactivate"
access (activate_user user_id) = permitted "user:deactivate"
access (assign_role_to_user user_id role_id) = role_granter role_id
access (remove_role_from_user user_id role_id) = role_granter role_id
access (grant_permission_to_user user_id permission_id) = permission_granter permission_id
access (revoke_permission_from_user user_id permission_id) = permission_granter permission_id
access (create_tenant new_ids form) = superuser
access (list_tenants skip limit) = superuser
access (get_tenant tenant_id) = superuser
access (deactivate_tenant tenant_id) = superuser
access (activate_tenant tenant_id) = superuser
access (update_tenant_permissions tenant_id names) = superuser
access get_current_user_info = logged_in
access other = anyone

-- The error that a call raises, if it raises one, and what it leaves behind.
abbrev pub outcome : {A : Type 0} → Result A × World → Option Error × World
outcome (ok a, w) = (none, w)
outcome (err e, w) = (some e, w)

unfoldable pub run : Caller → Endpoint → World → Option Error × World
run c (create_new_role new_id role) w = outcome (Roles.create_new_role c new_id role w)
run c (read_role role_id) w = outcome (Roles.read_role c role_id w)
run c (read_role_grants role_id) w = outcome (Roles.read_role_grants c role_id w)
run c (delete_role_endpoint role_id) w = outcome (Roles.delete_role_endpoint c role_id w)
run c (update_role_endpoint role_id name) w = outcome (Roles.update_role_endpoint c role_id name w)
run c (read_roles skip limit) w = outcome (Roles.read_roles c skip limit w)
run c (add_permission_to_role_endpoint role_id id) w =
    outcome (Roles.add_permission_to_role_endpoint c role_id id w)
run c (remove_permission_from_role_endpoint role_id id) w =
    outcome (Roles.remove_permission_from_role_endpoint c role_id id w)
run c (add_grantable_role_endpoint role_id id) w =
    outcome (Roles.add_grantable_role_endpoint c role_id id w)
run c (remove_grantable_role_endpoint role_id id) w =
    outcome (Roles.remove_grantable_role_endpoint c role_id id w)
run c (add_grantable_permission_endpoint role_id id) w =
    outcome (Roles.add_grantable_permission_endpoint c role_id id w)
run c (remove_grantable_permission_endpoint role_id id) w =
    outcome (Roles.remove_grantable_permission_endpoint c role_id id w)
run c (read_permission permission_id) w = outcome (Roles.read_permission c permission_id w)
run c (read_permissions skip limit) w = outcome (Roles.read_permissions c skip limit w)
run c get_my_grants w = outcome (Users.get_my_grants c w)
run c (create_user new_id form) w = outcome (Users.create_user c new_id form w)
run c (list_users skip limit tenant_id) w = outcome (Users.list_users c skip limit tenant_id w)
run c (count_users tenant_id) w = outcome (Users.count_users c tenant_id w)
run c (get_user user_id) w = outcome (Users.get_user c user_id w)
run c (deactivate_user user_id) w = outcome (Users.deactivate_user c user_id w)
run c (activate_user user_id) w = outcome (Users.activate_user c user_id w)
run c (assign_role_to_user user_id role_id) w =
    outcome (Users.assign_role_to_user c user_id role_id w)
run c (remove_role_from_user user_id role_id) w =
    outcome (Users.remove_role_from_user c user_id role_id w)
run c (grant_permission_to_user user_id permission_id) w =
    outcome (Users.grant_permission_to_user c user_id permission_id w)
run c (revoke_permission_from_user user_id permission_id) w =
    outcome (Users.revoke_permission_from_user c user_id permission_id w)
run c (create_tenant new_ids form) w = outcome (Tenants.create_tenant c new_ids form w)
run c (list_tenants skip limit) w = outcome (Tenants.list_tenants c skip limit w)
run c (get_tenant tenant_id) w = outcome (Tenants.get_tenant c tenant_id w)
run c (deactivate_tenant tenant_id) w = outcome (Tenants.deactivate_tenant c tenant_id w)
run c (activate_tenant tenant_id) w = outcome (Tenants.activate_tenant c tenant_id w)
run c (update_tenant_permissions tenant_id names) w =
    outcome (Tenants.update_tenant_permissions c tenant_id names w)
run c (register_user new_id form) w = outcome (Accounts.register_user c new_id form w)
run c (verify_user_account link) w = outcome (Accounts.verify_user_account link w)
run c (login_user allowed username password jti) w =
    outcome (Accounts.login_user c allowed username password jti w)
run c (logout_user refresh_token) w = outcome (Accounts.logout_user refresh_token w)
run c (refresh_access_token refresh_token jti) w =
    outcome (Accounts.refresh_access_token c refresh_token jti w)
run c (reset_password_mail email) w = outcome (Accounts.reset_password_mail email w)
run c (reset_password_update link new_password confirm_password) w =
    outcome (Accounts.reset_password_update c link new_password confirm_password w)
run c get_current_user_info w = outcome (Accounts.get_current_user_info c w)
run c (google_callback new_id jti email) w = outcome (Accounts.google_callback c new_id jti email w)
