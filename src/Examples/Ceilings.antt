-- ===== src/Examples/Ceilings.antt =====
-- A permission that is added to a role, at a concrete input.
use fastapi_template.Prelude.{
  ◌^◌, ◌≡◌, refl, true, false, not, ◌&&◌, ◌||◌, some, [], ◌∷◌, ◌++◌, ◌==◌, nat_eq, string_eq,
  option_eq,
}
use fastapi_template.Prelude.Lists.{any, all, filter, find, contains, lookup}
use fastapi_template.Error.{ok}
use fastapi_template.Models.{Permission, LoadedRole}
use fastapi_template.World.{link_eq, World, load_role, update_rows}
use fastapi_template.Prelude.Bits.{and_not, test_bit}
use fastapi_template.Rbac.Registry.{mask_for, registry_get, permission_registry, expand_implied}
use fastapi_template.Services.RoleService.{
  scope_of, is_foreign, has_permission_row, grantable_mask_for, get_role, add_permission_to_role,
}
use fastapi_template.Repositories.RoleRepo
use fastapi_template.Repositories.RoleRepo.Grants
use fastapi_template.Repositories.PermissionRepo
use fastapi_template.Services.RoleService.Grantable.{may_grant_bit, tenant_allows}
use fastapi_template.Services.RoleService.Ceiling.Added.{add_permission_to_role-within}
use fastapi_template.Services.RoleService.Additions.{added_rows}
use fastapi_template.Examples.Grants.{world, loaded_ann, manager}

-- The world with one more role of Ann's tenant, without permissions.
abbrev wider : World
wider = record world {
  db = record world.db {
    roles =
        manager ∷ record { id = 25; name = "reader"; tenant_id = some 1; permission_mask = 0 } ∷ [];
  };
}

abbrev reader : LoadedRole
reader = record {
  role = record { id = 25; name = "reader"; tenant_id = some 1; permission_mask = 2 ^ 9 };
  permissions = record { id = 32; name = "user:read"; bit_position = some 9 } ∷ [];
}

reader_extended : (add_permission_to_role 25 32 loaded_ann wider).0 ≡ ok reader
unfolding add_permission_to_role get_role RoleRepo.get_by_id find load_role
    RoleRepo.get_permission_by_id any filter contains grantable_mask_for
    Grants.get_grantable_permission_mask mask_for registry_get lookup permission_registry
    expand_implied and_not PermissionRepo.get_by_names RoleRepo.add_permission
    RoleRepo.bump_commit_publish update_rows
reader_extended = refl

add_permission_to_role-within_example :
    let db' = (add_permission_to_role 25 32 loaded_ann wider).1.db in
    (role : LoadedRole) × (perm : Permission) × ((get_role 25 (scope_of loaded_ann) wider).0
      ≡ ok role)
    × (find (λ (p : Permission). p.id == 32) wider.db.permissions ≡ some perm)
    × (is_foreign role.role (scope_of loaded_ann) ≡ false)
    × (has_permission_row role perm ≡ false)
    × (reader.permissions ≡ role.permissions ++ added_rows role perm wider.db)
    × (contains (role.role.id, 32) db'.role_permissions ≡ (
        contains (role.role.id, 32) wider.db.role_permissions
        || any (λ (p : Permission). p.id == 32) (added_rows role perm wider.db)))
    × ((not (test_bit reader.role.permission_mask 9)
          || (test_bit role.role.permission_mask 9
              || (may_grant_bit loaded_ann 9 wider.db && tenant_allows loaded_ann.tenant 9)))
        ≡ true)
add_permission_to_role-within_example =
    add_permission_to_role-within 25 32 9 32 loaded_ann wider reader refl
      (unfold all registry_get lookup permission_registry in refl) reader_extended
