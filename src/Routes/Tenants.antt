-- ===== src/Routes/Tenants.antt =====
-- app/api/v1/routes/tenant.py
use fastapi_template.Prelude.{ℕ, String, true, false, List}
use fastapi_template.Models.{User, Tenant}
use fastapi_template.World.{Action, ◌>>=◌, ◌>>◌}
use fastapi_template.Services.TenantService
use fastapi_template.Routes.{Caller, superuser}

unfoldable pub create_tenant :
    Caller → TenantService.NewIds → TenantService.TenantCreate → Action (Tenant × User)
create_tenant c new_ids form = do
  u ← superuser c
  TenantService.create_tenant_with_admin c.lib.hashpw new_ids u form

unfoldable pub list_tenants : Caller → ℕ → ℕ → Action (List Tenant)
list_tenants c skip limit = do superuser c; TenantService.list_tenants skip limit

unfoldable pub get_tenant : Caller → ℕ → Action Tenant
get_tenant c tenant_id = do superuser c; TenantService.get_tenant tenant_id

unfoldable pub deactivate_tenant : Caller → ℕ → Action Tenant
deactivate_tenant c tenant_id = do
  u ← superuser c
  TenantService.set_tenant_active u tenant_id false

unfoldable pub activate_tenant : Caller → ℕ → Action Tenant
activate_tenant c tenant_id = do u ← superuser c; TenantService.set_tenant_active u tenant_id true

unfoldable pub update_tenant_permissions : Caller → ℕ → List String → Action Tenant
update_tenant_permissions c tenant_id allowed_permissions = do
  u ← superuser c
  TenantService.update_tenant_permissions u tenant_id allowed_permissions
