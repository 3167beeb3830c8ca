-- ===== src/Services/UserService/Direct.antt =====
-- app/services/users/user_management_service.py: `grant_permission` that returns.
use fastapi_template.Prelude.{
  ℕ, ◌+◌, ◌≡◌, refl, sym, ap, ◌∙◌, inl, inr, Bool, true, false, ◌&&◌, ◌||◌, Option, none, some,
  List, [], ◌∷◌, arith, ◌==◌, nat_eq, string_eq, option_eq, Bool-cases, Option-cases, map_option,
  is_some, subst₂,
}
use fastapi_template.Prelude.Lists.{any, contains, find}
use fastapi_template.Error.{Result, ok, permission_already_granted}
use fastapi_template.Models.{Permission, User, LoadedRole, LoadedUser}
use fastapi_template.World.{link_eq, Db, World, load_user, Action, ◌>>=◌, ◌>>◌, raise_if}
use fastapi_template.World.Rows.{find-update_rows}
use fastapi_template.World.Calls.{bind-eq-ok, bind-state}
use fastapi_template.Prelude.Lists.{find-passes}
use fastapi_template.Rbac.Delegation.{can_grant_permission, role_ids}
use fastapi_template.Repositories.RoleRepo
use fastapi_template.Repositories.RoleRepo.Grants.{get_grantable_permission_ids}
use fastapi_template.Repositories.UserRepo
use fastapi_template.Repositories.UserRepo.{find_user, update_user}
use fastapi_template.Services.UserService.{ensure_same_tenant}
use fastapi_template.Services.UserService.Granting.{check_permission_grant, grant_permission}
use fastapi_template.Services.UserService.Delegated.{
  contains-linked_from, no_link, ids_of, reaches, bumped, contains-link_here,
}

-- One of the actor's roles may grant the permission.
abbrev pub may_grant_permission : LoadedUser → ℕ → Db → Bool
may_grant_permission actor permission_id db =
    any (λ l. contains l.0 (role_ids actor) && l.1 == permission_id) db.role_grantable_permissions

can_grant_permission-at :
    (roles : List LoadedRole) (actor : LoadedUser) (permission_id : ℕ) (w : World)
    → actor.roles ≡ roles
    → actor.user.is_superuser ≡ false
    → can_grant_permission actor permission_id w ≡ (
      ok (
          any
            (λ l. contains l.0 (ids_of roles) && l.1 == permission_id)
            w.db.role_grantable_permissions),
      w,
    )
unfolding can_grant_permission get_grantable_permission_ids ids_of
can_grant_permission-at [] actor permission_id w r s =
    ground (arith, r, s, no_link permission_id w.db.role_grantable_permissions)
can_grant_permission-at (x ∷ xs) actor permission_id w r s = ground (
  arith,
  r,
  s,
  contains-linked_from (ids_of (x ∷ xs)) permission_id w.db.role_grantable_permissions,
)

can_grant_permission-eq :
    (actor : LoadedUser) (permission_id : ℕ) (w : World)
    → can_grant_permission actor permission_id w
      ≡ (ok (actor.user.is_superuser || may_grant_permission actor permission_id w.db), w)
unfolding can_grant_permission ids_of
can_grant_permission-eq actor permission_id w = elim (Bool-cases actor.user.is_superuser) [
  | inl s ↦ ground (arith, s)
  | inr s ↦ can_grant_permission-at actor.roles actor permission_id w refl s ∙ ground (arith, s)
]

find_permission : ℕ → Db → Option Permission
find_permission permission_id db = find (λ p. p.id == permission_id) db.permissions

user-load_user :
    (db : Db) (found : Option User)
    → map_option (λ (l : LoadedUser). l.user) (map_option (load_user db) found) ≡ found
unfolding load_user
user-load_user db none = refl
user-load_user db (some u) = refl

loaded_user-eq :
    (target_id : ℕ) (db : Db) (l : LoadedUser)
    → map_option (load_user db) (find_user target_id db) ≡ some l
    → find_user target_id db ≡ some l.user
loaded_user-eq target_id db l h =
    sym (user-load_user db (find_user target_id db))
    ∙ ap (map_option (λ (l : LoadedUser). l.user)) h

check_permission_grant-ok :
    (actor : LoadedUser) (target_id permission_id : ℕ) (w : World) (r : LoadedUser × Permission)
    → (check_permission_grant actor target_id permission_id w).0 ≡ ok r
    → ((actor.user.is_superuser || may_grant_permission actor permission_id w.db) ≡ true)
      × (find_permission permission_id w.db ≡ some r.1)
      × (find_user target_id w.db ≡ some r.0.user)
      × (reaches actor (some r.0.user) ≡ true)
unfolding check_permission_grant ensure_same_tenant RoleRepo.get_permission_by_id
    UserRepo.get_by_id_with_grants find_permission
check_permission_grant-ok actor target_id permission_id w r h =
    elim (Option-cases (map_option (load_user w.db) (find_user target_id w.db))) [
      | inl gone ↦ ground (arith, gone, can_grant_permission-eq actor permission_id w)
      | inr (l, here) ↦ ground (
        arith,
        here,
        loaded_user-eq target_id w.db l here,
        can_grant_permission-eq actor permission_id w,
      )
    ]

check_permission_grant-state :
    (actor : LoadedUser) (target_id permission_id : ℕ) (w : World)
    → (check_permission_grant actor target_id permission_id w).1 ≡ w
unfolding check_permission_grant ensure_same_tenant RoleRepo.get_permission_by_id
    UserRepo.get_by_id_with_grants
check_permission_grant-state actor target_id permission_id w =
    ground (arith, can_grant_permission-eq actor permission_id w)

-- What `grant_permission` does after its checks.
if_new : ℕ → ℕ → LoadedUser × Permission → Action Unit
if_new target_id permission_id (target, permission) = do
  held ← UserRepo.has_permission target_id permission_id
  raise_if held permission_already_granted
  UserRepo.grant_permission target.user permission

if_new-ok :
    (l : LoadedUser) (p : Permission) (w : World) (t : Unit)
    → (if_new l.user.id p.id (l, p) w).0 ≡ ok t
    → (contains (l.user.id, p.id) w.db.user_permissions ≡ false)
      × ((if_new l.user.id p.id (l, p) w).1.db
          ≡ record (update_user l.user.id
              (λ x. record x { perm_version = l.user.perm_version + 1 })
              w.db) { user_permissions = (l.user.id, p.id) ∷ w.db.user_permissions })
unfolding if_new UserRepo.has_permission UserRepo.grant_permission
if_new-ok l p w t h = elim (Bool-cases (contains (l.user.id, p.id) w.db.user_permissions)) [
  | inl held ↦ ground (arith, held)
  | inr new ↦ (new, ground (arith, new))
]

bumped_row :
    (u : User) (db : Db)
    → find_user u.id db ≡ some u
    → find_user u.id (update_user u.id (λ x. record x { perm_version = u.perm_version + 1 }) db)
      ≡ map_option bumped (find_user u.id db)
bumped_row u db here =
    find-update_rows (λ (x : User). x.id) (λ x. record x { perm_version = u.perm_version + 1 })
      (λ x. refl) u.id u.id db.users
    ∙ ground (arith, here)

-- What the call leaves once its checks passed.
Granted : ℕ → ℕ → World → World → Type 0
Granted target_id permission_id w w' =
    (contains (target_id, permission_id) w.db.user_permissions ≡ false)
    × (contains (target_id, permission_id) w'.db.user_permissions ≡ true)
    × (find_user target_id w'.db ≡ map_option bumped (find_user target_id w.db))

if_new-Granted :
    (l : LoadedUser) (p : Permission) (w : World) (t : Unit)
    → find_user l.user.id w.db ≡ some l.user
    → (if_new l.user.id p.id (l, p) w).0 ≡ ok t
    → Granted l.user.id p.id w (if_new l.user.id p.id (l, p) w).1
unfolding Granted
if_new-Granted l p w t here h =
    let (new, db_eq) = if_new-ok l p w t h in
    (
      new,
      ap (λ (db : Db). contains (l.user.id, p.id) db.user_permissions) db_eq
          ∙ contains-link_here l.user.id p.id w.db.user_permissions,
      ap (find_user l.user.id) db_eq ∙ bumped_row l.user w.db here,
    )

if_new-Granted-at :
    (target_id permission_id : ℕ) (l : LoadedUser) (p : Permission) (w : World) (t : Unit)
    → l.user.id ≡ target_id
    → p.id ≡ permission_id
    → find_user target_id w.db ≡ some l.user
    → (if_new target_id permission_id (l, p) w).0 ≡ ok t
    → Granted target_id permission_id w (if_new target_id permission_id (l, p) w).1
if_new-Granted-at target_id permission_id l p w t i j =
    subst₂
      (λ a b.
        find_user a w.db ≡ some l.user
        → (if_new a b (l, p) w).0 ≡ ok t
        → Granted a b w (if_new a b (l, p) w).1)
      i j (if_new-Granted l p w t)

-- Where `grant_permission` returns, the actor is a superuser or one of the actor's roles may grant the
-- permission, the permission exists, and the target is a user of the actor's tenant (any user, for a
-- superuser); the target had no direct grant of it before and has one after, with a `perm_version` one
-- higher.
pub grant_permission-delegated :
    (actor : LoadedUser) (target_id permission_id : ℕ) (w : World) (t : Unit)
    → (grant_permission actor target_id permission_id w).0 ≡ ok t
    → let db' = (grant_permission actor target_id permission_id w).1.db in
      ((actor.user.is_superuser || may_grant_permission actor permission_id w.db) ≡ true)
      × (is_some (find (λ p. p.id == permission_id) w.db.permissions) ≡ true)
      × (reaches actor (find_user target_id w.db) ≡ true)
      × (contains (target_id, permission_id) w.db.user_permissions ≡ false)
      × (contains (target_id, permission_id) db'.user_permissions ≡ true)
      × (find_user target_id db' ≡ map_option bumped (find_user target_id w.db))
unfolding grant_permission if_new find_permission Granted
grant_permission-delegated actor target_id permission_id w t h =
    let check = check_permission_grant actor target_id permission_id in
    let (r, passed, rest) = bind-eq-ok check (if_new target_id permission_id) w t h in
    let (may, exists, here, same) =
      check_permission_grant-ok actor target_id permission_id w r passed in
    let i : r.0.user.id ≡ target_id =
      let passes = find-passes (λ (u : User). u.id == target_id) w.db.users r.0.user here in
      ground arith in
    let j : r.1.id ≡ permission_id =
      let passes =
        find-passes (λ (p : Permission). p.id == permission_id) w.db.permissions r.1 exists in
      ground arith in
    let state =
      bind-state check (if_new target_id permission_id) w r passed
      ∙ ap (if_new target_id permission_id r)
          (check_permission_grant-state actor target_id permission_id w) in
    let returned =
      ap (λ w'. (if_new target_id permission_id r w').0)
        (sym (check_permission_grant-state actor target_id permission_id w))
      ∙ rest in
    let (new, held, higher) =
      if_new-Granted-at target_id permission_id r.0 r.1 w t i j here returned in
    let db'_eq = ap (λ (x : Result Unit × World). x.1.db) state in
    (
      may,
      ap is_some exists,
      ap (reaches actor) here ∙ same,
      new,
      ap (λ (db : Db). contains (target_id, permission_id) db.user_permissions) db'_eq ∙ held,
      ap (find_user target_id) db'_eq ∙ higher,
    )
