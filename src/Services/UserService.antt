-- ===== src/Services/UserService.antt =====
-- app/services/users/user_management_service.py: users within the scope of the actor. Granting and
-- revoking is in `Granting`.
pub mod Granting
pub mod Delegated
pub mod Direct
use fastapi_template.Prelude.{
  ℕ, zero, suc, ◌+◌, ◌-◌, ◌*◌, ◌/◌, ◌%◌, ◌^◌, ◌≤◌, ◌<◌, min, max, bit_and, bit_or, String, ◌≡◌, ◌≢◌,
  refl, sym, ap, ◌∙◌, subst, fun_ext, ◌↔◌, ◌⊎◌, inl, inr, Bool, true, false, ◌&&◌, ◌||◌, not,
  Option, none, some, List, [], ◌∷◌, ◌++◌, map, arith, ltb, leb, nat_beq, if◌then◌else◌,
  nat_beq_iff, Eq, ◌==◌, nat_eq, string_eq, option_eq, beq_refl, Bool-cases, Option-cases,
  map_option, is_some,
}
use fastapi_template.Prelude.Lists.{any, all, filter, find, contains, take, drop, length, lookup}
use fastapi_template.Error.{
  Error, Result, ok, err, by_id, by_name, unknown, role_not_found, role_exists,
  permission_not_found, grant_not_allowed, permission_already_granted, permission_not_granted,
  role_already_assigned, role_not_assigned, superuser_required, username_exist, user_mail_exist,
  user_not_found, tenant_not_found, tenant_exists, integrity_error, attribute_error, http_exception,
  user_unauthenticated, user_not_verified, invalid_token, user_deactivated, tenant_inactive,
  stale_token, rate_limit, runtime_error,
}
use fastapi_template.Models.{Permission, Role, User, Tenant, RefreshToken, LoadedRole, LoadedUser}
use fastapi_template.World.{
  Link, link_eq, Db, World, Action, pure, raise, gets, lift, or_raise, ◌>>=◌, ◌>>◌, raise_if,
  modify_db, update_rows, load_role, load_user, find_tenant,
}
use fastapi_template.World.Mirror.{
  Event, perm_version, user_status, tenant_status, Redis, publish_events,
}
use fastapi_template.Rbac.Delegation.{role_ids, effective_permissions, sorted}
use fastapi_template.Repositories.PermissionRepo
use fastapi_template.Repositories.RoleRepo
use fastapi_template.Repositories.RoleRepo.Grants as RoleGrants
use fastapi_template.Repositories.UserRepo
use fastapi_template.Repositories.UserRepo.{new_user}
use fastapi_template.Services.RoleService.{Scope}

-- `_ensure_same_tenant`
unfoldable pub ensure_same_tenant : User → Scope → Action Unit
ensure_same_tenant target actor =
    raise_if (not actor.is_superuser && not (target.tenant_id == actor.tenant_id))
      (user_not_found (by_id target.id))

pub record UserCreate : Type 0 where
  pub username : String
  pub email : String
  pub password : String

-- `hash` is `get_password_hash`, bcrypt with a new salt; `new_id` is the new UUID.
unfoldable pub create_user :
    (String → String) → ℕ → LoadedUser → UserCreate → Action (Option LoadedUser)
create_user hash new_id actor form = do
  username_taken ← UserRepo.exists_by_username form.username
  raise_if username_taken (username_exist (by_name form.username))
  email_taken ← UserRepo.exists_by_email form.email
  raise_if email_taken (user_mail_exist (by_name form.email))
  created ←
      UserRepo.create new_id
        (record (new_user form.username form.email (some (hash form.password))) {
          is_verified = true;
          tenant_id = actor.user.tenant_id;
          created_by_id = some actor.user.id;
        })
  UserRepo.get_by_id_with_grants created.id

unfoldable pub list_users :
    (List User → List User) → Scope → ℕ → ℕ → Option ℕ → Action (List LoadedUser)
list_users order_by_username actor skip limit none =
    if actor.is_superuser
    then UserRepo.list_all order_by_username skip limit
    else UserRepo.list_by_tenant order_by_username actor.tenant_id skip limit
list_users order_by_username actor skip limit (some filter_tenant_id) =
    if actor.is_superuser
    then UserRepo.list_by_tenant order_by_username (some filter_tenant_id) skip limit
    else UserRepo.list_by_tenant order_by_username actor.tenant_id skip limit

unfoldable pub count_users : Scope → Option ℕ → Action ℕ
count_users actor none =
    if actor.is_superuser then UserRepo.count_all else UserRepo.count_by_tenant actor.tenant_id
count_users actor (some filter_tenant_id) =
    if actor.is_superuser
    then UserRepo.count_by_tenant (some filter_tenant_id)
    else UserRepo.count_by_tenant actor.tenant_id

unfoldable pub get_user : ℕ → Action LoadedUser
get_user user_id = do
  found ← UserRepo.get_by_id_with_grants user_id
  or_raise found (user_not_found (by_id user_id))

-- The dictionary that `get_user_detail` returns.
pub record UserDetail : Type 0 where
  pub id : ℕ
  pub username : String
  pub email : String
  pub is_verified : Bool
  pub is_superuser : Bool
  pub is_active : Bool
  pub created_by_id : Option ℕ
  pub roles : List LoadedRole
  pub permissions : List Permission
  pub effective : List String

unfoldable pub get_user_detail : Scope → ℕ → Action UserDetail
unfolding ensure_same_tenant get_user
get_user_detail actor user_id = do
  u ← get_user user_id
  ensure_same_tenant u.user actor
  pure (record {
    id = u.user.id;
    username = u.user.username;
    email = u.user.email;
    is_verified = u.user.is_verified;
    is_superuser = u.user.is_superuser;
    is_active = u.user.is_active;
    created_by_id = u.user.created_by_id;
    roles = u.roles;
    permissions = u.permissions;
    effective = sorted (effective_permissions u);
  })

-- The dictionary that `get_grants` returns.
pub record Grants : Type 0 where
  pub is_superuser : Bool
  pub effective : List String
  pub grantable_roles : List LoadedRole
  pub grantable_permissions : List Permission

-- The page size that stands for "all".
abbrev pub all_rows : ℕ
all_rows = 10_000

-- `grantable_roles` and `grantable_permissions` of a superuser.
unfoldable pub grantable_by_superuser : Action (List LoadedRole × List Permission)
grantable_by_superuser = do
  roles ← RoleRepo.list_all 0 all_rows
  permissions ← PermissionRepo.list_all 0 all_rows
  pure (roles, permissions)

-- Those of any other actor.
unfoldable pub grantable_by_roles : LoadedUser → Action (List LoadedRole × List Permission)
grantable_by_roles actor = do
  granted_role_ids ← RoleGrants.get_grantable_role_ids (role_ids actor)
  permission_ids ← RoleGrants.get_grantable_permission_ids (role_ids actor)
  roles ← RoleRepo.get_by_ids granted_role_ids
  permissions ← PermissionRepo.get_by_ids permission_ids
  pure (roles, permissions)

unfoldable pub get_grants : LoadedUser → Action Grants
unfolding grantable_by_superuser grantable_by_roles
get_grants actor = do
  (roles, permissions) ←
      if actor.user.is_superuser then grantable_by_superuser else grantable_by_roles actor
  pure (record {
    is_superuser = actor.user.is_superuser;
    effective = sorted (effective_permissions actor);
    grantable_roles = roles;
    grantable_permissions = permissions;
  })

unfoldable pub set_user_active : Scope → ℕ → Bool → Action Unit
unfolding ensure_same_tenant
set_user_active actor target_user_id is_active = do
  found ← UserRepo.get_by_id target_user_id
  target ← or_raise found (user_not_found (by_id target_user_id))
  ensure_same_tenant target actor
  UserRepo.set_active target is_active
  pure tt
