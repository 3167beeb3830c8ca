-- ===== src/Repositories/TenantRepo.antt =====
-- app/repositories/tenant/tenant.py
use fastapi_template.Prelude.{
  ℕ, String, Bool, true, ◌||◌, Option, List, [], ◌∷◌, ◌++◌, if◌then◌else◌, ◌==◌, nat_eq, string_eq,
  option_eq,
}
use fastapi_template.Prelude.Lists.{any, find, take, drop}
use fastapi_template.Error.{ok, err, integrity_error}
use fastapi_template.Models.{Tenant}
use fastapi_template.World.{link_eq, Db, Action, gets, update_rows}
use fastapi_template.World.Mirror.{tenant_status, publish_events}

unfoldable pub get_by_id : ℕ → Action (Option Tenant)
get_by_id tenant_id = gets λ db. find (λ t. t.id == tenant_id) db.tenants

unfoldable pub get_by_name : String → Action (Option Tenant)
get_by_name name = gets λ db. find (λ t. t.name == name) db.tenants

-- `new_id` is the value of `uuid.uuid4()`; a new tenant is active.
unfoldable pub create : ℕ → String → ℕ → Action Tenant
create new_id name allowed_permission_mask w =
    let row : Tenant = record {
      id = new_id;
      name = name;
      is_active = true;
      allowed_permission_mask = allowed_permission_mask;
    } in
    if any (λ t. t.id == new_id || t.name == name) w.db.tenants
    then (err integrity_error, w)
    else (ok row, record w { db = record w.db { tenants = w.db.tenants ++ row ∷ [] } })

unfoldable pub list_all : ℕ → ℕ → Action (List Tenant)
list_all skip limit = gets λ db. take limit (drop skip db.tenants)

abbrev pub update_tenant : ℕ → (Tenant → Tenant) → Db → Db
update_tenant tenant_id f db = record db {
  tenants = update_rows (λ t. t.id == tenant_id) f db.tenants;
}

unfoldable pub set_allowed_permission_mask : Tenant → ℕ → Action Tenant
set_allowed_permission_mask tenant mask w = (
  ok (record tenant { allowed_permission_mask = mask }),
  record w { db = update_tenant tenant.id (λ t. record t { allowed_permission_mask = mask }) w.db },
)

unfoldable pub set_active : Tenant → Bool → Action Tenant
set_active tenant is_active w = (
  ok (record tenant { is_active = is_active }),
  record {
    db = update_tenant tenant.id (λ t. record t { is_active = is_active }) w.db;
    redis = publish_events (tenant_status tenant.id is_active ∷ []) w.redis;
  },
)
