-- ===== src/Services/RoleService/Scoping.antt =====
-- app/services/rbac/role_service.py: operations on a role of another tenant.
use fastapi_template.Prelude.{
  ℕ, String, ◌≡◌, ap, inl, inr, Bool, true, Option, none, some, arith, nat_beq_iff, ◌==◌, nat_eq,
  string_eq, option_eq, Option-cases,
}
use fastapi_template.Error.{Error, Result, err, by_id, role_not_found}
use fastapi_template.Models.{Role, LoadedUser}
use fastapi_template.World.{link_eq, World, Action, lift, ◌>>=◌, load_role}
use fastapi_template.Prelude.Lists.{find-passes}
use fastapi_template.Repositories.RoleRepo
use fastapi_template.Repositories.RoleRepo.{find_role}
use fastapi_template.Services.RoleService.Delegating.{
  get_role_grants, add_grantable_role, remove_grantable_role, add_grantable_permission,
  remove_grantable_permission,
}
use fastapi_template.Services.RoleService.{
  scope_of, is_foreign, ensure_role_in_scope, get_role, update_role, delete_role,
  add_permission_to_role, remove_permission_from_role,
}

-- No role, or one of a tenant that is not the actor's.
abbrev pub hidden : LoadedUser → Option Role → Bool
hidden actor none = true
hidden actor (some r) = is_foreign r (scope_of actor)

get_role-hidden :
    (role_id : ℕ) (actor : LoadedUser) (w : World)
    → hidden actor (find_role role_id w.db) ≡ true
    → get_role role_id (scope_of actor) w ≡ (err (role_not_found (by_id role_id)), w)
unfolding get_role ensure_role_in_scope RoleRepo.get_by_id load_role
get_role-hidden role_id actor w h = elim (Option-cases (find_role role_id w.db)) [
  | inl gone ↦ ground (arith, gone)
  | inr (r, here) ↦
      let id_eq =
        (nat_beq_iff r.id role_id).0
          (find-passes (λ (r : Role). r.id == role_id) w.db.roles r here) in
      ground (arith, here, id_eq)
]

bind-raises :
    {A B : Type 0} (m : Action A) (f : A → Action B) (w : World) (e : Error)
    → m w ≡ (err e, w)
    → (m >>= f) w ≡ (err e, w)
bind-raises {A} {B} m f w e h = ap (λ (x : Result A × World). (lift x.0 >>= f) x.1) h

-- Where an actor that is no superuser names a role of another tenant, or no role at all, as the role to
-- read, rename, delete, or change in its permissions or in what its holders may grant, the ten
-- operations raise the same `RoleNotFound` and change nothing.
pub hidden-out_of_reach :
    (role_id permission_id other_id : ℕ) (name : String) (actor : LoadedUser) (w : World)
    → hidden actor (find_role role_id w.db) ≡ true
    → let missing = role_not_found (by_id role_id) in
      (get_role role_id (scope_of actor) w ≡ (err missing, w))
      × (update_role role_id name actor w ≡ (err missing, w))
      × (delete_role role_id actor w ≡ (err missing, w))
      × (add_permission_to_role role_id permission_id actor w ≡ (err missing, w))
      × (remove_permission_from_role role_id permission_id actor w ≡ (err missing, w))
      × (get_role_grants role_id (scope_of actor) w ≡ (err missing, w))
      × (add_grantable_role role_id other_id actor w ≡ (err missing, w))
      × (remove_grantable_role role_id other_id actor w ≡ (err missing, w))
      × (add_grantable_permission role_id permission_id actor w ≡ (err missing, w))
      × (remove_grantable_permission role_id permission_id actor w ≡ (err missing, w))
unfolding update_role delete_role add_permission_to_role remove_permission_from_role get_role_grants
    add_grantable_role remove_grantable_role add_grantable_permission remove_grantable_permission
hidden-out_of_reach role_id permission_id other_id name actor w h =
    let gone = get_role-hidden role_id actor w h in
    let m = get_role role_id (scope_of actor) in
    let e = role_not_found (by_id role_id) in
    (
      gone,
      bind-raises m (λ r. RoleRepo.update r name) w e gone,
      bind-raises m RoleRepo.delete w e gone,
      ground (arith, gone),
      ground (arith, gone),
      ground (arith, gone),
      ground (arith, gone),
      ground (arith, gone),
      ground (arith, gone),
      ground (arith, gone),
    )
