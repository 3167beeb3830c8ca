-- ===== src/Examples/Grants.antt =====
-- A world of one tenant, and the theorems on roles and grants applied in it.
use fastapi_template.Prelude.{
  ◌+◌, ◌^◌, bit_and, bit_or, ◌≡◌, refl, true, false, not, ◌&&◌, ◌||◌, none, some, [], ◌∷◌, arith,
  ◌==◌, nat_eq, string_eq, option_eq, map_option, is_some, if◌then◌else◌,
}
use fastapi_template.Prelude.Lists.{any, all, filter, find, contains, lookup}
use fastapi_template.Error.{ok, err, is_ok, by_id, role_not_found, role_already_assigned}
use fastapi_template.Models.{Permission, Role, User, Tenant, LoadedRole, LoadedUser}
use fastapi_template.World.{link_eq, World, load_role}
use fastapi_template.Prelude.Bits.{has_bit, and_not, test_bit, test_bit-zero, test_bit-pow}
use fastapi_template.World.Rows.{distinct}
use fastapi_template.Repositories.RoleRepo.RootRole.{
  is_root_permission, create_root_tenant_role-within,
}
use fastapi_template.Repositories.RoleRepo.{
  create_root_tenant_role, root_role_permissions, role_taken,
}
use fastapi_template.Rbac.Registry.{
  tenant_role_mask, mask_for, expand_implied, registry_get, permission_registry,
}
use fastapi_template.Rbac.Delegation.{effective_permission_mask, effective_permissions}
use fastapi_template.Rbac.Delegation.Effective.{
  AllExact, roles_synced, effective_permission_mask-contains,
}
use fastapi_template.Repositories.UserRepo.{find_user}
use fastapi_template.Repositories.RoleRepo.{
  find_role, bump_commit_publish, add_permission, remove_permission,
}
use fastapi_template.Repositories.RoleRepo.Masks.{
  MasksExact, PermissionKeys, add_permission-MasksExact, remove_permission-MasksExact,
}
use fastapi_template.Repositories.RoleRepo.Versions.{
  find_row, bumped_if, was_hit, version_of, bump_commit_publish-mirror,
}
use fastapi_template.Rbac.Delegation.{can_grant_role}
use fastapi_template.Repositories.RoleRepo
use fastapi_template.Repositories.RoleRepo.Assignment
use fastapi_template.Repositories.RoleRepo.Grants as Grants
use fastapi_template.Repositories.UserRepo
use fastapi_template.Repositories.PermissionRepo
use fastapi_template.AuthzCache.{is_stale, snapshot}
use fastapi_template.Services.RoleService.{
  scope_of, get_role, update_role, delete_role, add_permission_to_role, remove_permission_from_role,
  create_role, RoleCreate,
}
use fastapi_template.Services.RoleService.Delegating.{
  get_role_grants, add_grantable_role, remove_grantable_role, add_grantable_permission,
  remove_grantable_permission,
}
use fastapi_template.Services.RoleService.Scoping.{hidden-out_of_reach}
use fastapi_template.Services.RoleService.Ceiling.{create_role-within}
use fastapi_template.Services.RoleService.Grantable.{may_grant_bit, tenant_allows}
use fastapi_template.Services.UserService.Granting.{assign_role}
use fastapi_template.Services.UserService.Delegated.{
  may_grant_role, reaches, bumped, assign_role-delegated, assign_role-raises,
}

abbrev reading : Permission
reading = record { id = 31; name = "role:read"; bit_position = some 1 }

abbrev user_reading : Permission
user_reading = record { id = 32; name = "user:read"; bit_position = some 9 }

abbrev pub manager : Role
manager = record { id = 21; name = "manager"; tenant_id = some 1; permission_mask = 2 ^ 9 }

abbrev foreign_role : Role
foreign_role = record { id = 22; name = "manager"; tenant_id = some 2; permission_mask = 0 }

abbrev pub ann : User
ann = record {
  id = 7;
  username = "ann";
  email = "ann@example.org";
  password = some "secret";
  is_verified = true;
  is_superuser = false;
  is_active = true;
  created_by_id = none;
  tenant_id = some 1;
  perm_version = 1;
}

abbrev pub bob : User
bob = record ann { id = 8; username = "bob"; email = "bob@example.org" }

abbrev pub acme : Tenant
acme = record { id = 1; name = "acme"; is_active = true; allowed_permission_mask = 2 ^ 9 + 2 ^ 10 }

-- Ann is a manager; managers may grant their own role and the permission `user:read`.
abbrev pub world : World
world = record {
  db = record {
    users = ann ∷ bob ∷ [];
    roles = manager ∷ foreign_role ∷ [];
    permissions = reading ∷ user_reading ∷ [];
    tenants = acme ∷ [];
    refresh_tokens = record { token = "t1"; user_id = 7; expires_at = 90; is_revoked = false } ∷ [];
    user_roles = (7, 21) ∷ [];
    role_permissions = (21, 32) ∷ [];
    user_permissions = [];
    role_grantable_roles = (21, 21) ∷ [];
    role_grantable_permissions = (21, 32) ∷ [];
  };
  redis = record {
    is_up = true;
    perm_versions = [];
    inactive_users = [];
    inactive_tenants = [];
    channel = [];
  };
}

abbrev pub loaded_manager : LoadedRole
loaded_manager = record { role = manager; permissions = user_reading ∷ [] }

abbrev pub loaded_ann : LoadedUser
loaded_ann = record {
  user = ann;
  roles = loaded_manager ∷ [];
  permissions = [];
  tenant = some acme;
}

pub manager-AllExact : AllExact (loaded_ann.roles)
unfolding any
manager-AllExact = (λ i. ground (arith, test_bit-pow i 9), tt)

pub manager-synced : roles_synced loaded_ann.roles ≡ true
unfolding all registry_get permission_registry lookup
manager-synced = refl

pub user_read_bit : registry_get "user:read" ≡ some 9
unfolding registry_get permission_registry lookup
user_read_bit = refl

effective_permission_mask-contains_example :
    test_bit (effective_permission_mask loaded_ann) 9
    ≡ contains "user:read" (effective_permissions loaded_ann)
effective_permission_mask-contains_example =
    effective_permission_mask-contains loaded_ann "user:read" 9 user_read_bit manager-AllExact
      manager-synced

world-PermissionKeys : PermissionKeys world.db
unfolding distinct any
world-PermissionKeys = record { ids = refl; bits = refl }

world-MasksExact : MasksExact world.db
unfolding find any contains
world-MasksExact role_id r i h = ground (arith, test_bit-pow i 9, test_bit-zero i)

added_reading : LoadedRole
added_reading = record {
  role = record manager { permission_mask = bit_or (2 ^ 9) 2 };
  permissions = user_reading ∷ reading ∷ [];
}

add_permission-MasksExact_example : MasksExact (add_permission loaded_manager reading world).1.db
add_permission-MasksExact_example =
    add_permission-MasksExact loaded_manager reading world added_reading world-MasksExact
      world-PermissionKeys (unfold find in refl) (unfold find in refl)
      (unfold add_permission contains any added_reading in refl)

remove_permission-MasksExact_example :
    let held = any (λ (q : Permission). q.id == 32) loaded_manager.permissions in
    (is_ok (remove_permission loaded_manager user_reading world).0 ≡ held)
    × (contains (21, 32) (remove_permission loaded_manager user_reading world).1.db.role_permissions
        ≡ (not held && contains (21, 32) world.db.role_permissions))
    × MasksExact (remove_permission loaded_manager user_reading world).1.db
remove_permission-MasksExact_example =
    remove_permission-MasksExact loaded_manager user_reading world world-MasksExact
      world-PermissionKeys (unfold find in refl) (unfold find in refl)

bump_commit_publish-mirror_example :
    let w' = bump_commit_publish (λ u. u.id == 8) world in
    let row = find_row 8 world.db.users in
    (find_row 8 w'.db.users ≡ map_option (bumped_if (λ u. u.id == 8)) row)
    × (lookup 8 w'.redis.perm_versions ≡ (
        if was_hit (λ u. u.id == 8) row
        then map_option (λ (u : User). u.perm_version) (find_row 8 w'.db.users)
        else lookup 8 world.redis.perm_versions))
    × (is_stale (snapshot w'.redis) 8 (version_of row)
        ≡ (was_hit (λ u. u.id == 8) row || is_stale (snapshot world.redis) 8 (version_of row)))
bump_commit_publish-mirror_example =
    bump_commit_publish-mirror (λ u. u.id == 8) world 8 refl (unfold distinct any in refl)

hidden-out_of_reach_example :
    let missing = role_not_found (by_id 22) in
    (get_role 22 (scope_of loaded_ann) world ≡ (err missing, world))
    × (update_role 22 "mine" loaded_ann world ≡ (err missing, world))
    × (delete_role 22 loaded_ann world ≡ (err missing, world))
    × (add_permission_to_role 22 31 loaded_ann world ≡ (err missing, world))
    × (remove_permission_from_role 22 31 loaded_ann world ≡ (err missing, world))
    × (get_role_grants 22 (scope_of loaded_ann) world ≡ (err missing, world))
    × (add_grantable_role 22 21 loaded_ann world ≡ (err missing, world))
    × (remove_grantable_role 22 21 loaded_ann world ≡ (err missing, world))
    × (add_grantable_permission 22 31 loaded_ann world ≡ (err missing, world))
    × (remove_grantable_permission 22 31 loaded_ann world ≡ (err missing, world))
hidden-out_of_reach_example =
    hidden-out_of_reach 22 31 21 "mine" loaded_ann world (unfold find in refl)

-- Ann makes Bob a manager.
bob_becomes_manager : (assign_role loaded_ann 8 21 world).0 ≡ ok tt
unfolding assign_role can_grant_role contains filter RoleRepo.get_by_id find UserRepo.get_by_id
    Assignment.user_has_role Assignment.assign_to_user
bob_becomes_manager = refl

assign_role-delegated_example :
    let db' = (assign_role loaded_ann 8 21 world).1.db in
    ((loaded_ann.user.is_superuser || may_grant_role loaded_ann 21 world.db) ≡ true)
    × (is_some (find_role 21 world.db) ≡ true)
    × (reaches loaded_ann (find_user 8 world.db) ≡ true)
    × (contains (8, 21) world.db.user_roles ≡ false)
    × (contains (8, 21) db'.user_roles ≡ true)
    × (find_user 8 db' ≡ map_option bumped (find_user 8 world.db))
assign_role-delegated_example = assign_role-delegated loaded_ann 8 21 world tt bob_becomes_manager

ann_is_manager : (assign_role loaded_ann 7 21 world).0 ≡ err role_already_assigned
unfolding assign_role can_grant_role contains filter RoleRepo.get_by_id find UserRepo.get_by_id
    Assignment.user_has_role
ann_is_manager = refl

assign_role-raises_example : (assign_role loaded_ann 7 21 world).1 ≡ world
assign_role-raises_example =
    assign_role-raises loaded_ann 7 21 world role_already_assigned ann_is_manager

abbrev viewer : RoleCreate
viewer = record { name = "viewer"; permission_names = "user:read" ∷ [] }

abbrev viewer_role : LoadedRole
viewer_role = record {
  role = record { id = 23; name = "viewer"; tenant_id = some 1; permission_mask = 2 ^ 9 };
  permissions = user_reading ∷ [];
}

viewer_created : (create_role 23 viewer loaded_ann world).0 ≡ ok viewer_role
unfolding create_role RoleRepo.get_by_name find mask_for expand_implied contains lookup registry_get
    permission_registry Grants.get_grantable_permission_mask and_not filter
    PermissionRepo.get_by_names RoleRepo.create Grants.grantable_role_link_exists load_role
    Grants.add_grantable_role
viewer_created = refl

create_role-within_example :
    (viewer_role.role.tenant_id ≡ some 1)
    × (mask_for (expand_implied ("user:read" ∷ [])) ≡ ok (2 ^ 9))
    × ((not (test_bit (2 ^ 9) 9)
          || (may_grant_bit loaded_ann 9 world.db && tenant_allows loaded_ann.tenant 9))
        ≡ true)
create_role-within_example =
    create_role-within 23 9 viewer loaded_ann world viewer_role refl viewer_created

-- The root role of a second tenant whose ceiling has `user:read` and `tenant:read`.
abbrev beta_admin : LoadedRole
beta_admin = record {
  role = record { id = 24; name = "tenant-admin"; tenant_id = some 2; permission_mask = 2 ^ 9 };
  permissions = user_reading ∷ [];
}

beta_admin_created : (create_root_tenant_role 24 2 (2 ^ 9 + 2 ^ 14) world).0 ≡ ok (some beta_admin)
unfolding create_root_tenant_role any find load_role tenant_role_mask filter contains lookup has_bit
beta_admin_created = refl

create_root_tenant_role-within_example :
    (2 ^ 9 ≡ bit_and (2 ^ 9 + 2 ^ 14) tenant_role_mask)
    × (all (is_root_permission (bit_and (2 ^ 9 + 2 ^ 14) tenant_role_mask)) (user_reading ∷ [])
        ≡ true)
create_root_tenant_role-within_example =
    create_root_tenant_role-within 24 2 (2 ^ 9 + 2 ^ 14) world beta_admin
      (unfold distinct any in refl) (unfold any in refl) beta_admin_created
