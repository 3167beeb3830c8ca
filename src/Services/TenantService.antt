-- ===== src/Services/TenantService.antt =====
-- app/services/tenant/tenant_service.py
use fastapi_template.Prelude.{
  ℕ, bit_and, String, Bool, true, not, Option, none, some, List, nat_eq, string_eq, option_eq,
  is_some,
}
use fastapi_template.Error.{
  Result, ok, err, by_id, by_name, superuser_required, username_exist, user_mail_exist,
  tenant_not_found, tenant_exists, attribute_error,
}
use fastapi_template.Models.{User, Tenant, LoadedUser}
use fastapi_template.World.{link_eq, Action, pure, lift, or_raise, ◌>>=◌, ◌>>◌, raise_if}
use fastapi_template.Rbac.Registry.{mask_for, tenant_role_mask}
use fastapi_template.Repositories.TenantRepo
use fastapi_template.Repositories.RoleRepo
use fastapi_template.Repositories.RoleRepo.Assignment
use fastapi_template.Repositories.UserRepo
use fastapi_template.Repositories.UserRepo.{new_user}

pub record TenantCreate : Type 0 where
  pub name : String
  pub admin_username : String
  pub admin_email : String
  pub admin_password : String
  pub allowed_permissions : Option (List String)

-- `(mask_for(allowed) if allowed is not None else TENANT_ROLE_MASK) & TENANT_ROLE_MASK`
unfoldable pub ceiling_for : Option (List String) → Result ℕ
ceiling_for none = ok (bit_and tenant_role_mask tenant_role_mask)
ceiling_for (some names) = elim (mask_for names) [
  | ok mask ↦ ok (bit_and mask tenant_role_mask)
  | err e ↦ err e
]

-- The keys that the new rows get: two UUIDs and a number.
pub record NewIds : Type 0 where
  pub tenant : ℕ
  pub role : ℕ
  pub admin : ℕ

unfoldable pub create_tenant_with_admin :
    (String → String) → NewIds → LoadedUser → TenantCreate → Action (Tenant × User)
unfolding ceiling_for
create_tenant_with_admin hash new_ids actor form = do
  raise_if (not actor.user.is_superuser) superuser_required
  existing ← TenantRepo.get_by_name form.name
  raise_if (is_some existing) (tenant_exists (by_name form.name))
  username_taken ← UserRepo.exists_by_username form.admin_username
  raise_if username_taken (username_exist (by_name form.admin_username))
  email_taken ← UserRepo.exists_by_email form.admin_email
  raise_if email_taken (user_mail_exist (by_name form.admin_email))
  allowed_mask ← lift (ceiling_for form.allowed_permissions)
  tenant ← TenantRepo.create new_ids.tenant form.name allowed_mask
  created ← RoleRepo.create_root_tenant_role new_ids.role tenant.id allowed_mask
  admin_role ← or_raise created attribute_error
  admin_user ←
      UserRepo.create new_ids.admin
        (record (new_user form.admin_username form.admin_email (some (hash form.admin_password))) {
          is_verified = true;
          tenant_id = some tenant.id;
          created_by_id = some actor.user.id;
        })
  Assignment.assign_to_user admin_role.role.id admin_user.id
  pure (tenant, admin_user)

unfoldable pub get_tenant : ℕ → Action Tenant
get_tenant tenant_id = do
  found ← TenantRepo.get_by_id tenant_id
  or_raise found (tenant_not_found (by_id tenant_id))

unfoldable pub list_tenants : ℕ → ℕ → Action (List Tenant)
list_tenants skip limit = TenantRepo.list_all skip limit

unfoldable pub set_tenant_active : LoadedUser → ℕ → Bool → Action Tenant
unfolding get_tenant
set_tenant_active actor tenant_id is_active = do
  raise_if (not actor.user.is_superuser) superuser_required
  tenant ← get_tenant tenant_id
  TenantRepo.set_active tenant is_active

unfoldable pub update_tenant_permissions : LoadedUser → ℕ → List String → Action Tenant
unfolding get_tenant ceiling_for
update_tenant_permissions actor tenant_id allowed_permissions = do
  raise_if (not actor.user.is_superuser) superuser_required
  tenant ← get_tenant tenant_id
  allowed_mask ← lift (ceiling_for (some allowed_permissions))
  updated ← TenantRepo.set_allowed_permission_mask tenant allowed_mask
  RoleRepo.sync_root_tenant_role_permissions updated.id allowed_mask
  pure updated
