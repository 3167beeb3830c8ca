-- ===== src/Repositories/RoleRepo.antt =====
-- app/repositories/rbac/role.py: roles, their permissions and the bump of `perm_version`.
pub mod Assignment
pub mod Grants
pub mod Masks
pub mod Versions
pub mod RootRole
pub mod NewRow
use fastapi_template.Prelude.{
  ℕ, zero, suc, ◌+◌, ◌-◌, ◌*◌, ◌/◌, ◌%◌, ◌^◌, ◌≤◌, ◌<◌, min, max, bit_and, bit_or, String, ◌≡◌, ◌≢◌,
  refl, sym, ap, ◌∙◌, subst, fun_ext, ◌↔◌, ◌⊎◌, inl, inr, Bool, true, false, ◌&&◌, ◌||◌, not,
  Option, none, some, List, [], ◌∷◌, ◌++◌, map, arith, ltb, leb, nat_beq, if◌then◌else◌,
  nat_beq_iff, Eq, ◌==◌, nat_eq, string_eq, option_eq, beq_refl, Bool-cases, Option-cases,
  map_option, is_some,
}
use fastapi_template.Prelude.Lists.{any, all, filter, find, contains, take, drop, length, lookup}
use fastapi_template.Error.{
  Error, Result, ok, err, by_id, by_name, unknown, role_not_found, role_exists,
  permission_not_found, grant_not_allowed, permission_already_granted, permission_not_granted,
  role_already_assigned, role_not_assigned, superuser_required, username_exist, user_mail_exist,
  user_not_found, tenant_not_found, tenant_exists, integrity_error, attribute_error, http_exception,
  user_unauthenticated, user_not_verified, invalid_token, user_deactivated, tenant_inactive,
  stale_token, rate_limit, runtime_error, value_error,
}
use fastapi_template.Models.{Permission, Role, User, Tenant, RefreshToken, LoadedRole, LoadedUser}
use fastapi_template.World.{
  Link, link_eq, Db, World, Action, pure, raise, gets, lift, or_raise, ◌>>=◌, ◌>>◌, raise_if,
  modify_db, update_rows, load_role, load_user, find_tenant,
}
use fastapi_template.World.Mirror.{
  Event, perm_version, user_status, tenant_status, Redis, publish_events,
}
use fastapi_template.Prelude.Bits.{has_bit, and_not, bit_in}
use fastapi_template.Rbac.Registry.{superuser_only_permissions, tenant_role_mask}

abbrev pub find_role : ℕ → Db → Option Role
find_role role_id db = find (λ r. r.id == role_id) db.roles

unfoldable pub get_by_id : ℕ → Action (Option LoadedRole)
get_by_id role_id = gets λ db. map_option (load_role db) (find_role role_id db)

unfoldable pub get_by_name : String → Option ℕ → Action (Option Role)
get_by_name name tenant_id =
    gets λ db. find (λ r. r.name == name && r.tenant_id == tenant_id) db.roles

unfoldable pub get_by_ids : List ℕ → Action (List LoadedRole)
get_by_ids role_ids = gets λ db. map (load_role db) (filter (λ r. contains r.id role_ids) db.roles)

-- The new rows of `role_permissions` for one role.
unfoldable pub links_to : ℕ → List Permission → List Link
links_to role_id permissions = map (λ p. (role_id, p.id)) permissions

-- `uq_roles_tenant_id_name`, `uq_roles_global_name` and the primary key
unfoldable pub role_taken : ℕ → String → Option ℕ → Db → Bool
role_taken new_id name tenant_id db =
    any (λ r. r.id == new_id || (r.name == name && r.tenant_id == tenant_id)) db.roles

-- The key of the new row comes from the database.
unfoldable pub create : ℕ → String → Option ℕ → List Permission → ℕ → Action (Option LoadedRole)
unfolding role_taken links_to get_by_id
create new_id name tenant_id permissions permission_mask w =
    let row : Role = record {
      id = new_id;
      name = name;
      tenant_id = tenant_id;
      permission_mask = permission_mask;
    } in
    let db' = record w.db {
      roles = w.db.roles ++ row ∷ [];
      role_permissions = links_to new_id permissions ++ w.db.role_permissions;
    } in
    if role_taken new_id name tenant_id w.db
    then (err integrity_error, w)
    else get_by_id new_id (record w { db = db' })

-- The permission rows of a tenant's root role: those of the mask that are not for superusers only.
unfoldable pub root_role_permissions : ℕ → Db → List Permission
root_role_permissions effective_mask db =
    filter (λ p. bit_in effective_mask p.bit_position)
      (filter (λ p. not (contains p.name superuser_only_permissions)) db.permissions)

unfoldable pub create_root_tenant_role : ℕ → ℕ → ℕ → Action (Option LoadedRole)
unfolding role_taken links_to get_by_id root_role_permissions
create_root_tenant_role new_id tenant_id allowed_permission_mask w =
    let effective_mask = bit_and allowed_permission_mask tenant_role_mask in
    let permission_rows = root_role_permissions effective_mask w.db in
    let row : Role = record {
      id = new_id;
      name = "tenant-admin";
      tenant_id = some tenant_id;
      permission_mask = effective_mask;
    } in
    let db' = record w.db {
      roles = w.db.roles ++ row ∷ [];
      role_permissions = links_to new_id permission_rows ++ w.db.role_permissions;
      role_grantable_permissions =
          links_to new_id permission_rows ++ w.db.role_grantable_permissions;
    } in
    if role_taken new_id "tenant-admin" (some tenant_id) w.db
    then (err integrity_error, w)
    else get_by_id new_id (record w { db = db' })

-- The authz events of `_bump_perm_version…`: one for each row that the UPDATE returns.
unfoldable pub bump_events : (User → Bool) → List User → List Event
bump_events hit users = map (λ u. perm_version u.id (u.perm_version + 1)) (filter hit users)

unfoldable pub bump_rows : (User → Bool) → Db → Db
bump_rows hit db = record db {
  users = update_rows hit (λ u. record u { perm_version = u.perm_version + 1 }) db.users;
}

-- `_bump_perm_version(user_ids)`, the commit that follows it, and `publish_events`
unfoldable pub bump_commit_publish : (User → Bool) → World → World
unfolding bump_events bump_rows
bump_commit_publish hit w = record {
  db = bump_rows hit w.db;
  redis = publish_events (bump_events hit w.db.users) w.redis;
}

-- The users that hold a role: the subquery of `_bump_perm_version_for_role_holders`.
unfoldable pub holds_role : ℕ → Db → User → Bool
holds_role role_id db u = contains (u.id, role_id) db.user_roles

unfoldable pub set_role_mask : ℕ → ℕ → Db → Db
set_role_mask role_id mask db = record db {
  roles = update_rows (λ r. r.id == role_id) (λ r. record r { permission_mask = mask }) db.roles;
}

abbrev pub without_role : ℕ → List Link → List Link
without_role role_id links = filter (λ l. not (l.0 == role_id)) links

unfoldable pub sync_root_tenant_role_permissions : ℕ → ℕ → Action (Option LoadedRole)
unfolding links_to get_by_id root_role_permissions set_role_mask bump_commit_publish holds_role
sync_root_tenant_role_permissions tenant_id allowed_permission_mask w =
    let effective_mask = bit_and allowed_permission_mask tenant_role_mask in
    let permission_rows = root_role_permissions effective_mask w.db in
    elim (find (λ r. r.tenant_id == some tenant_id && r.name == "tenant-admin") w.db.roles) [
      | none ↦ (ok none, w)
      | some role ↦
          let db' = record (set_role_mask role.id effective_mask w.db) {
            role_permissions =
                links_to role.id permission_rows ++ without_role role.id w.db.role_permissions;
            role_grantable_permissions =
                links_to role.id permission_rows
                ++ without_role role.id w.db.role_grantable_permissions;
          } in
          get_by_id role.id (bump_commit_publish (holds_role role.id db') (record w { db = db' }))
    ]

-- `update` with the one field of `RoleUpdate`, its name.
unfoldable pub update : LoadedRole → String → Action (Option LoadedRole)
unfolding get_by_id
update role name w =
    let taken =
      any
        (λ r. not (r.id == role.role.id) && (r.name == name && r.tenant_id == role.role.tenant_id))
        w.db.roles in
    let db' = record w.db {
      roles = update_rows (λ r. r.id == role.role.id) (λ r. record r { name = name }) w.db.roles;
    } in
    if taken then (err integrity_error, w) else get_by_id role.role.id (record w { db = db' })

-- The rows of the link tables that name the role go with it, as SQLAlchemy does for `secondary`
-- relationships.
unfoldable pub delete : LoadedRole → Action Unit
delete role w = (
  ok tt,
  record w {
    db = record w.db {
      roles = filter (λ r. not (r.id == role.role.id)) w.db.roles;
      user_roles = filter (λ l. not (l.1 == role.role.id)) w.db.user_roles;
      role_permissions = without_role role.role.id w.db.role_permissions;
      role_grantable_roles =
          filter (λ l. not (l.1 == role.role.id))
            (without_role role.role.id w.db.role_grantable_roles);
      role_grantable_permissions = without_role role.role.id w.db.role_grantable_permissions;
    };
  },
)

unfoldable pub list_all : ℕ → ℕ → Action (List LoadedRole)
list_all skip limit = gets λ db. map (load_role db) (take limit (drop skip db.roles))

-- `Role.tenant_id == tenant_id` is `IS NULL` where the tenant is None.
unfoldable pub list_by_tenant : Option ℕ → ℕ → ℕ → Action (List LoadedRole)
list_by_tenant tenant_id skip limit = gets λ db. map (load_role db) (
    take limit (drop skip (filter (λ r. r.tenant_id == tenant_id || r.tenant_id == none) db.roles)))

unfoldable pub get_permission_by_id : ℕ → Action (Option Permission)
get_permission_by_id permission_id = gets λ db. find (λ p. p.id == permission_id) db.permissions

-- `mask | (1 << bit)` where the permission has a bit
abbrev pub mask_with : ℕ → Option ℕ → ℕ
mask_with mask none = mask
mask_with mask (some bit) = bit_or mask (2 ^ bit)

-- `mask & ~(1 << bit)` where the permission has a bit
abbrev pub mask_without : ℕ → Option ℕ → ℕ
mask_without mask none = mask
mask_without mask (some bit) = and_not mask (2 ^ bit)

-- The new mask is computed from the mask of the loaded role.
unfoldable pub add_permission : LoadedRole → Permission → Action LoadedRole
unfolding set_role_mask bump_commit_publish holds_role
add_permission r permission w =
    let mask = mask_with r.role.permission_mask permission.bit_position in
    let link : Link = (r.role.id, permission.id) in
    let db' = record (set_role_mask r.role.id mask w.db) {
      role_permissions = link ∷ w.db.role_permissions;
    } in
    let loaded : LoadedRole = record {
      role = record (r.role) { permission_mask = mask };
      permissions = r.permissions ++ permission ∷ [];
    } in
    if contains link w.db.role_permissions
    then (err integrity_error, w)
    else (ok loaded, bump_commit_publish (holds_role r.role.id w.db) (record w { db = db' }))

-- `role.permissions.remove` raises where the permission is not among them.
unfoldable pub remove_permission : LoadedRole → Permission → Action LoadedRole
unfolding set_role_mask bump_commit_publish holds_role
remove_permission r permission w =
    let mask = mask_without r.role.permission_mask permission.bit_position in
    let link : Link = (r.role.id, permission.id) in
    let db' = record (set_role_mask r.role.id mask w.db) {
      role_permissions = filter (λ l. not (l == link)) w.db.role_permissions;
    } in
    let loaded : LoadedRole = record {
      role = record (r.role) { permission_mask = mask };
      permissions = filter (λ p. not (p.id == permission.id)) r.permissions;
    } in
    if any (λ p. p.id == permission.id) r.permissions
    then (ok loaded, bump_commit_publish (holds_role r.role.id w.db) (record w { db = db' }))
    else (err value_error, w)
