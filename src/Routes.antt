-- ===== src/Routes.antt =====
-- app/api/v1/routes/**/*.py: what a request brings to a route, and the guards that the routes depend
-- on. FastAPI runs the `dependencies` of the decorator first and then those of the parameters, in
-- their order; the forms are values that pydantic has read.
pub mod Roles
pub mod Users
pub mod Tenants
pub mod Accounts
pub mod Endpoints
use fastapi_template.Prelude.{ℕ, String, List}
use fastapi_template.Models.{User, LoadedUser}
use fastapi_template.World.{Action, lift, ◌>>=◌}
use fastapi_template.Services.RoleService.{Scope}
use fastapi_template.AuthzCache.{Cache}
use fastapi_template.Auth.Token.{Libraries}
use fastapi_template.Auth.CurrentUser.{Principal, get_current_user}
use fastapi_template.Auth.Gates.{
  grant_role_required, grant_permission_required, superuser_required_gate,
}
use fastapi_template.Auth.Gates.AccessToken.{route_gate}

-- The bearer token of a request and its time, with the cache of the worker that serves it.
-- `order_by_username` is the order of the database.
pub record Caller : Type 0 where
  pub lib : Libraries
  pub cache : Cache
  pub now : ℕ
  pub token : String
  pub order_by_username : List User → List User

-- `Depends(permission_required(name))`
abbrev pub with_permission : Caller → String → Action Principal
with_permission c name = lift (route_gate c.lib c.cache c.now c.token name)

-- `Depends(get_current_user)`
abbrev pub current_user : Caller → Action LoadedUser
current_user c = get_current_user c.lib c.cache c.now c.token

-- `Depends(superuser_required())`
abbrev pub superuser : Caller → Action LoadedUser
superuser c = do u ← current_user c; lift (superuser_required_gate u)

-- `Depends(grant_role_required())`, for the `role_id` of the path
abbrev pub role_granter : Caller → ℕ → Action LoadedUser
role_granter c role_id = do u ← current_user c; grant_role_required role_id u

-- `Depends(grant_permission_required())`, for the `permission_id` of the path
abbrev pub permission_granter : Caller → ℕ → Action LoadedUser
permission_granter c permission_id = do
  u ← current_user c
  grant_permission_required permission_id u

-- The tenant and the superuser flag that the services read of a principal.
abbrev pub scope : Principal → Scope
scope p = record { is_superuser = p.is_superuser; tenant_id = p.tenant_id }
