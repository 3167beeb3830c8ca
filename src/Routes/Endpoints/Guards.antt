-- ===== src/Routes/Endpoints/Guards.antt =====
-- The guard of every route comes first.
use fastapi_template.Prelude.{◌≡◌, some, arith}
use fastapi_template.Error.{Error, err}
use fastapi_template.World.{World}
use fastapi_template.Routes.{Caller, with_permission, current_user}
use fastapi_template.Routes as Routes
use fastapi_template.Routes.Endpoints.{
  Endpoint, Access, access, anyone, logged_in, superuser, permitted, role_granter,
  permission_granter, run,
}
use fastapi_template.Routes.Roles
use fastapi_template.Routes.Users
use fastapi_template.Routes.Tenants
use fastapi_template.Routes.Accounts

-- The guard of an access raises, and changes nothing.
abbrev pub Refuses : Caller → Access → World → Error → Type 0
Refuses c anyone w e = ⊥
Refuses c logged_in w e = current_user c w ≡ (err e, w)
Refuses c superuser w e = Routes.superuser c w ≡ (err e, w)
Refuses c (permitted name) w e = with_permission c name w ≡ (err e, w)
Refuses c (role_granter id) w e = Routes.role_granter c id w ≡ (err e, w)
Refuses c (permission_granter id) w e = Routes.permission_granter c id w ≡ (err e, w)

pub run-guarded :
    (c : Caller) (endpoint : Endpoint) (w : World) (e : Error)
    → Refuses c (access endpoint) w e
    → run c endpoint w ≡ (some e, w)
unfolding run access Roles.create_new_role Roles.read_role Roles.read_role_grants
    Roles.delete_role_endpoint Roles.update_role_endpoint Roles.read_roles
    Roles.add_permission_to_role_endpoint Roles.remove_permission_from_role_endpoint
    Roles.add_grantable_role_endpoint Roles.remove_grantable_role_endpoint
    Roles.add_grantable_permission_endpoint Roles.remove_grantable_permission_endpoint
    Roles.read_permission Roles.read_permissions Users.get_my_grants Users.create_user
    Users.list_users Users.count_users Users.get_user Users.deactivate_user Users.activate_user
    Users.assign_role_to_user Users.remove_role_from_user Users.grant_permission_to_user
    Users.revoke_permission_from_user Tenants.create_tenant Tenants.list_tenants Tenants.get_tenant
    Tenants.deactivate_tenant Tenants.activate_tenant Tenants.update_tenant_permissions
    Accounts.get_current_user_info
run-guarded c (Endpoint.register_user new_id form) w e h = elim h [ ]
run-guarded c other w e h = ground arith
