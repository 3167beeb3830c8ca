-- ===== src/Services/UserService/Delegated.antt =====
-- app/services/users/user_management_service.py: `assign_role` that returns, and one that raises.
use fastapi_template.Prelude.{
  ℕ, ◌+◌, ◌≡◌, refl, sym, ap, ◌∙◌, inl, inr, Bool, true, false, ◌&&◌, ◌||◌, Option, none, some,
  List, [], ◌∷◌, map, arith, if◌then◌else◌, ◌==◌, nat_eq, string_eq, option_eq, Bool-cases,
  Option-cases, map_option, is_some,
}
use fastapi_template.Prelude.Lists.{any, filter, contains}
use fastapi_template.Error.{Error, Result, ok, err, role_already_assigned}
use fastapi_template.Models.{User, LoadedRole, LoadedUser}
use fastapi_template.World.{Link, link_eq, Db, World, Action, pure, ◌>>=◌, ◌>>◌, raise_if}
use fastapi_template.World.Rows.{find-update_rows}
use fastapi_template.World.Calls.{bind-eq-ok, bind-state}
use fastapi_template.Prelude.Lists.{find-passes}
use fastapi_template.Rbac.Delegation.{can_grant_role, role_ids, is_empty}
use fastapi_template.Repositories.RoleRepo
use fastapi_template.Repositories.RoleRepo.{find_role, bump_rows, bump_commit_publish}
use fastapi_template.Repositories.RoleRepo.Grants.{linked_from, get_grantable_role_ids}
use fastapi_template.Repositories.RoleRepo.Assignment
use fastapi_template.Repositories.UserRepo
use fastapi_template.Repositories.UserRepo.{find_user}
use fastapi_template.Services.UserService.{ensure_same_tenant}
use fastapi_template.Services.UserService.Granting.{check_role_grant, assign_role}

-- One of the actor's roles may grant the role.
abbrev pub may_grant_role : LoadedUser → ℕ → Db → Bool
may_grant_role actor role_id db =
    any (λ l. contains l.0 (role_ids actor) && l.1 == role_id) db.role_grantable_roles

pub contains-linked_from :
    (ids : List ℕ) (j : ℕ) (links : List Link)
    → contains j (linked_from ids links) ≡ any (λ l. contains l.0 ids && l.1 == j) links
unfolding linked_from contains any filter
contains-linked_from ids j [] = refl
contains-linked_from ids j (l ∷ links) = ground (arith, contains-linked_from ids j links)

pub no_link : (j : ℕ) (links : List Link) → any (λ l. contains l.0 [] && l.1 == j) links ≡ false
unfolding contains any
no_link j [] = refl
no_link j (l ∷ links) = no_link j links

unfoldable pub ids_of : List LoadedRole → List ℕ
ids_of roles = map (λ (r : LoadedRole). r.role.id) roles

granted_by :
    (roles : List LoadedRole) (j : ℕ) (links : List Link) (w : World)
    → (if is_empty roles
          then pure false
          else (λ w'. (ok (contains j (linked_from (ids_of roles) links)), w')))
        w
      ≡ (ok (any (λ l. contains l.0 (ids_of roles) && l.1 == j) links), w)
unfolding ids_of
granted_by [] j links w = ap (λ b. (ok b, w)) (sym (no_link j links))
granted_by (r ∷ roles) j links w =
    ap (λ b. (ok b, w)) (contains-linked_from (ids_of (r ∷ roles)) j links)

can_grant_role-at :
    (roles : List LoadedRole) (actor : LoadedUser) (role_id : ℕ) (w : World)
    → actor.roles ≡ roles
    → actor.user.is_superuser ≡ false
    → can_grant_role actor role_id w
      ≡ (ok (any (λ l. contains l.0 (ids_of roles) && l.1 == role_id) w.db.role_grantable_roles), w)
unfolding can_grant_role get_grantable_role_ids ids_of
can_grant_role-at [] actor role_id w r s =
    ground (arith, r, s, no_link role_id w.db.role_grantable_roles)
can_grant_role-at (x ∷ xs) actor role_id w r s =
    ground (arith, r, s, contains-linked_from (ids_of (x ∷ xs)) role_id w.db.role_grantable_roles)

can_grant_role-eq :
    (actor : LoadedUser) (role_id : ℕ) (w : World)
    → can_grant_role actor role_id w
      ≡ (ok (actor.user.is_superuser || may_grant_role actor role_id w.db), w)
unfolding can_grant_role ids_of
can_grant_role-eq actor role_id w = elim (Bool-cases actor.user.is_superuser) [
  | inl s ↦ ground (arith, s)
  | inr s ↦ can_grant_role-at actor.roles actor role_id w refl s ∙ ground (arith, s)
]

-- The target is a user of the actor's tenant, or the actor is a superuser.
abbrev pub reaches : LoadedUser → Option User → Bool
reaches actor none = false
reaches actor (some target) = actor.user.is_superuser || target.tenant_id == actor.user.tenant_id

check_role_grant-ok :
    (actor : LoadedUser) (target_id role_id : ℕ) (w : World) (t : Unit)
    → (check_role_grant actor target_id role_id w).0 ≡ ok t
    → ((actor.user.is_superuser || may_grant_role actor role_id w.db) ≡ true)
      × (is_some (find_role role_id w.db) ≡ true)
      × (reaches actor (find_user target_id w.db) ≡ true)
unfolding check_role_grant ensure_same_tenant RoleRepo.get_by_id UserRepo.get_by_id
check_role_grant-ok actor target_id role_id w t h =
    ground (arith, can_grant_role-eq actor role_id w)

check_role_grant-state :
    (actor : LoadedUser) (target_id role_id : ℕ) (w : World)
    → (check_role_grant actor target_id role_id w).1 ≡ w
unfolding check_role_grant ensure_same_tenant RoleRepo.get_by_id UserRepo.get_by_id
check_role_grant-state actor target_id role_id w = ground (arith, can_grant_role-eq actor role_id w)

-- The row of a user with its `perm_version` one higher.
abbrev pub bumped : User → User
bumped u = record u { perm_version = u.perm_version + 1 }

find-bump_rows :
    (i j : ℕ) (db : Db)
    → find_user i (bump_rows (Assignment.user_is j) db)
      ≡ map_option (λ u. if u.id == j then bumped u else u) (find_user i db)
unfolding bump_rows
find-bump_rows i j db = find-update_rows (λ (u : User). u.id) bumped (λ u. refl) i j db.users

-- What `assign_role` does after its checks.
if_new : ℕ → ℕ → Action Unit
if_new target_id role_id = do
  held ← Assignment.user_has_role target_id role_id
  raise_if held role_already_assigned
  Assignment.assign_to_user role_id target_id

if_new-ok :
    (target_id role_id : ℕ) (w : World) (t : Unit)
    → (if_new target_id role_id w).0 ≡ ok t
    → (contains (target_id, role_id) w.db.user_roles ≡ false)
      × ((if_new target_id role_id w).1.db
          ≡ bump_rows
              (Assignment.user_is target_id)
              (record w.db { user_roles = (target_id, role_id) ∷ w.db.user_roles }))
unfolding if_new Assignment.user_has_role Assignment.assign_to_user bump_commit_publish
if_new-ok target_id role_id w t h =
    elim (Bool-cases (contains (target_id, role_id) w.db.user_roles)) [
      | inl held ↦ ground (arith, held)
      | inr new ↦ (new, ground (arith, new))
    ]

pub contains-link_here : (a b : ℕ) (links : List Link) → contains (a, b) ((a, b) ∷ links) ≡ true
unfolding contains any
contains-link_here a b links = ground arith

assign_role-state :
    (actor : LoadedUser) (target_id role_id : ℕ) (w : World) (t : Unit)
    → (assign_role actor target_id role_id w).0 ≡ ok t
    → assign_role actor target_id role_id w ≡ if_new target_id role_id w
unfolding assign_role if_new
assign_role-state actor target_id role_id w t h =
    let (a, passed, rest) =
      bind-eq-ok (check_role_grant actor target_id role_id) (λ _. if_new target_id role_id) w t h in
    bind-state (check_role_grant actor target_id role_id) (λ _. if_new target_id role_id) w a passed
    ∙ ap (if_new target_id role_id) (check_role_grant-state actor target_id role_id w)

bumped_here :
    (i : ℕ) (db : Db)
    → map_option (λ (u : User). if u.id == i then bumped u else u) (find_user i db)
      ≡ map_option bumped (find_user i db)
bumped_here i db = elim (Option-cases (find_user i db)) [
  | inl gone ↦ ground (arith, gone)
  | inr (u, here) ↦ ground (arith, here, find-passes (λ (u : User). u.id == i) db.users u here)
]

-- Where `assign_role` returns, the actor is a superuser or one of the actor's roles may grant the
-- role, the role exists, and the target is a user of the actor's tenant (any user, for a superuser);
-- the target did not hold the role before and holds it after, with a `perm_version` one higher.
pub assign_role-delegated :
    (actor : LoadedUser) (target_id role_id : ℕ) (w : World) (t : Unit)
    → (assign_role actor target_id role_id w).0 ≡ ok t
    → let db' = (assign_role actor target_id role_id w).1.db in
      ((actor.user.is_superuser || may_grant_role actor role_id w.db) ≡ true)
      × (is_some (find_role role_id w.db) ≡ true)
      × (reaches actor (find_user target_id w.db) ≡ true)
      × (contains (target_id, role_id) w.db.user_roles ≡ false)
      × (contains (target_id, role_id) db'.user_roles ≡ true)
      × (find_user target_id db' ≡ map_option bumped (find_user target_id w.db))
unfolding assign_role if_new bump_rows
assign_role-delegated actor target_id role_id w t h =
    let (a, passed, rest) =
      bind-eq-ok (check_role_grant actor target_id role_id) (λ _. if_new target_id role_id) w t h in
    let (may, exists, same) = check_role_grant-ok actor target_id role_id w a passed in
    let state = assign_role-state actor target_id role_id w t h in
    let (new, db_eq) =
      if_new-ok target_id role_id w t (ap (λ (x : Result Unit × World). x.0) (sym state) ∙ h) in
    let db'_eq = ap (λ (x : Result Unit × World). x.1.db) state ∙ db_eq in
    (
      may,
      exists,
      same,
      new,
      ap (λ (db : Db). contains (target_id, role_id) db.user_roles) db'_eq
          ∙ contains-link_here target_id role_id w.db.user_roles,
      ap (find_user target_id) db'_eq
          ∙ find-bump_rows target_id target_id
              (record w.db { user_roles = (target_id, role_id) ∷ w.db.user_roles })
          ∙ bumped_here target_id w.db,
    )

-- Where `assign_role` raises, nothing has changed.
pub assign_role-raises :
    (actor : LoadedUser) (target_id role_id : ℕ) (w : World) (e : Error)
    → (assign_role actor target_id role_id w).0 ≡ err e
    → (assign_role actor target_id role_id w).1 ≡ w
unfolding assign_role Assignment.user_has_role Assignment.assign_to_user
assign_role-raises actor target_id role_id w e h =
    ground (arith, check_role_grant-state actor target_id role_id w)
