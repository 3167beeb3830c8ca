-- ===== src/Examples/Direct.antt =====
-- A direct grant of a permission, at a concrete input: Ann lets Bob read users.
use fastapi_template.Prelude.{
  ◌≡◌, refl, true, false, ◌||◌, ◌==◌, nat_eq, string_eq, option_eq, map_option, is_some,
}
use fastapi_template.Prelude.Lists.{filter, find, contains}
use fastapi_template.Error.{ok, err, grant_not_allowed}
use fastapi_template.Models.{Permission}
use fastapi_template.World.{link_eq, load_user}
use fastapi_template.Rbac.Delegation.{can_grant_permission}
use fastapi_template.Repositories.RoleRepo
use fastapi_template.Repositories.UserRepo
use fastapi_template.Repositories.UserRepo.{find_user}
use fastapi_template.Services.UserService.Granting.{grant_permission}
use fastapi_template.Services.UserService.Delegated.{reaches, bumped}
use fastapi_template.Services.UserService.Direct.{may_grant_permission, grant_permission-delegated}
use fastapi_template.Examples.Grants.{world, loaded_ann}

bob_reads_users : (grant_permission loaded_ann 8 32 world).0 ≡ ok tt
unfolding grant_permission can_grant_permission contains filter RoleRepo.get_permission_by_id find
    UserRepo.get_by_id_with_grants UserRepo.has_permission UserRepo.grant_permission load_user
bob_reads_users = refl

grant_permission-delegated_example :
    let db' = (grant_permission loaded_ann 8 32 world).1.db in
    ((loaded_ann.user.is_superuser || may_grant_permission loaded_ann 32 world.db) ≡ true)
    × (is_some (find (λ (p : Permission). p.id == 32) world.db.permissions) ≡ true)
    × (reaches loaded_ann (find_user 8 world.db) ≡ true)
    × (contains (8, 32) world.db.user_permissions ≡ false)
    × (contains (8, 32) db'.user_permissions ≡ true)
    × (find_user 8 db' ≡ map_option bumped (find_user 8 world.db))
grant_permission-delegated_example =
    grant_permission-delegated loaded_ann 8 32 world tt bob_reads_users

-- She may not grant a permission that her role may not.
roles_not_granted : (grant_permission loaded_ann 8 31 world).0 ≡ err grant_not_allowed
unfolding grant_permission can_grant_permission contains filter
roles_not_granted = refl
