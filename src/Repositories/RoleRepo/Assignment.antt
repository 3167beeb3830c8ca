-- ===== src/Repositories/RoleRepo/Assignment.antt =====
-- app/repositories/rbac/role.py: which users hold which roles.
use fastapi_template.Prelude.{ℕ, Bool, not, ◌∷◌, if◌then◌else◌, ◌==◌, nat_eq, string_eq, option_eq}
use fastapi_template.Prelude.Lists.{filter, contains}
use fastapi_template.Error.{ok, err, integrity_error}
use fastapi_template.Models.{User}
use fastapi_template.World.{Link, link_eq, Action, gets}
use fastapi_template.Repositories.RoleRepo.{bump_commit_publish}

abbrev pub user_is : ℕ → User → Bool
user_is user_id u = u.id == user_id

unfoldable pub assign_to_user : ℕ → ℕ → Action Unit
unfolding bump_commit_publish
assign_to_user role_id user_id w =
    let link : Link = (user_id, role_id) in
    let db' = record w.db { user_roles = link ∷ w.db.user_roles } in
    if contains link w.db.user_roles
    then (err integrity_error, w)
    else (ok tt, bump_commit_publish (user_is user_id) (record w { db = db' }))

unfoldable pub remove_from_user : ℕ → ℕ → Action Unit
unfolding bump_commit_publish
remove_from_user role_id user_id w =
    let link : Link = (user_id, role_id) in
    let db' = record w.db { user_roles = filter (λ l. not (l == link)) w.db.user_roles } in
    (ok tt, bump_commit_publish (user_is user_id) (record w { db = db' }))

unfoldable pub user_has_role : ℕ → ℕ → Action Bool
user_has_role user_id role_id = gets λ db. contains (user_id, role_id) db.user_roles
