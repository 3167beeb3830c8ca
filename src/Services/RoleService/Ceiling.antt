-- ===== src/Services/RoleService/Ceiling.antt =====
-- app/services/rbac/role_service.py: the mask of a new role beside what its creator may grant.
pub mod Added
use fastapi_template.Prelude.{
  ℕ, String, ◌≡◌, refl, sym, ap, ◌∙◌, inl, inr, true, false, ◌&&◌, ◌||◌, not, Option, none, some,
  List, [], ◌∷◌, arith, if◌then◌else◌, ◌==◌, nat_eq, string_eq, option_eq, Bool-cases, is_some,
}
use fastapi_template.Prelude.Lists.{any, find}
use fastapi_template.Error.{Result, ok, by_name, role_exists, grant_not_allowed, attribute_error}
use fastapi_template.Models.{Permission, Role, LoadedRole, LoadedUser}
use fastapi_template.World.{
  link_eq, Db, World, Action, pure, lift, or_raise, ◌>>=◌, ◌>>◌, raise_if, load_role,
}
use fastapi_template.Prelude.Bits.{and_not, test_bit}
use fastapi_template.World.Calls.{bind-eq-ok, raise_if-eq-ok, or_raise-eq-ok}
use fastapi_template.Rbac.Registry.{mask_for, expand_implied}
use fastapi_template.Rbac.Delegation.{role_ids}
use fastapi_template.Repositories.PermissionRepo
use fastapi_template.Repositories.RoleRepo
use fastapi_template.Repositories.RoleRepo.{find_role}
use fastapi_template.Repositories.RoleRepo.Grants as Grants
use fastapi_template.Repositories.RoleRepo.NewRow.{find-snoc, no_id}
use fastapi_template.Services.RoleService.Grantable.{
  may_grant_bit, tenant_allows, allowed_mask, allowed_mask-bits, within-allowed_mask,
  grantable_mask_for-eq,
}
use fastapi_template.Services.RoleService.{
  under_ceiling, grantable_mask_for, RoleCreate, ensure_grantable, link_actor_roles, create_role,
}

ensure_grantable-eq :
    (actor : LoadedUser) (mask : ℕ) (w : World)
    → actor.user.is_superuser ≡ false
    → ensure_grantable actor mask w
      ≡ raise_if (not (and_not mask (allowed_mask actor w.db) == 0)) grant_not_allowed w
unfolding ensure_grantable
ensure_grantable-eq actor mask w s =
    ap
      (λ b.
        (if b
            then pure tt
            else grantable_mask_for actor >>= λ allowed.
                raise_if (not (and_not mask allowed == 0)) grant_not_allowed)
          w)
      s
    ∙ ap
        (λ (x : Result ℕ × World).
          (lift x.0 >>= λ allowed. raise_if (not (and_not mask allowed == 0)) grant_not_allowed)
            x.1)
        (grantable_mask_for-eq actor w)

-- The parts of `create_role` after its first checks.
link_new : LoadedUser → LoadedRole → Action LoadedRole
link_new actor new_role = do
  (if actor.user.is_superuser then pure tt else link_actor_roles actor.roles new_role.role.id)
  pure new_role

store_new : ℕ → String → LoadedUser → Option ℕ → List String → ℕ → Action LoadedRole
store_new new_id name actor tenant_id names mask = do
  permissions ← PermissionRepo.get_by_names names
  created ← RoleRepo.create new_id name tenant_id permissions mask
  new_role ← or_raise created attribute_error
  link_new actor new_role

checked_new : ℕ → String → LoadedUser → Option ℕ → List String → ℕ → Action LoadedRole
checked_new new_id name actor tenant_id names mask =
    ensure_grantable actor mask >> store_new new_id name actor tenant_id names mask

link_new-ok :
    (actor : LoadedUser) (r new : LoadedRole) (w : World)
    → (link_new actor r w).0 ≡ ok new
    → new ≡ r
unfolding link_new
link_new-ok actor r new w h =
    let (t, linked, same) =
      bind-eq-ok
        (if actor.user.is_superuser then pure tt else link_actor_roles actor.roles r.role.id)
        (λ _. pure r) w new h in
    ground (arith, same)

create-row :
    (new_id : ℕ) (name : String) (tenant_id : Option ℕ) (ps : List Permission) (mask : ℕ)
    (w : World) (r : LoadedRole)
    → (RoleRepo.create new_id name tenant_id ps mask w).0 ≡ ok (some r)
    → (r.role.tenant_id ≡ tenant_id) × (r.role.permission_mask ≡ mask)
unfolding RoleRepo.create RoleRepo.get_by_id load_role RoleRepo.role_taken
create-row new_id name tenant_id ps mask w r h =
    elim (Bool-cases (
      any (λ (x : Role). x.id == new_id || (x.name == name && x.tenant_id == tenant_id))
        w.db.roles)) [
          | inl taken ↦ ground (arith, taken)
          | inr free ↦
              let row : Role = record {
                id = new_id;
                name = name;
                tenant_id = tenant_id;
                permission_mask = mask;
              } in
              ground (
                arith,
                free,
                find-snoc new_id row w.db.roles refl (no_id new_id name tenant_id w.db.roles free),
              )
        ]

store_new-ok :
    (new_id : ℕ) (name : String) (actor : LoadedUser) (tenant_id : Option ℕ) (names : List String)
    (mask : ℕ) (w : World) (new : LoadedRole)
    → (store_new new_id name actor tenant_id names mask w).0 ≡ ok new
    → (new.role.tenant_id ≡ tenant_id) × (new.role.permission_mask ≡ mask)
unfolding store_new
store_new-ok new_id name actor tenant_id names mask w new h =
    let after_permissions = λ (ps : List Permission).
      RoleRepo.create new_id name tenant_id ps mask >>= λ created.
      or_raise created attribute_error >>= link_new actor in
    let (ps, got, h2) = bind-eq-ok (PermissionRepo.get_by_names names) after_permissions w new h in
    let w2 = (PermissionRepo.get_by_names names w).1 in
    let (created, made, h3) =
      bind-eq-ok (RoleRepo.create new_id name tenant_id ps mask)
        (λ created. or_raise created attribute_error >>= link_new actor) w2 new h2 in
    let w3 = (RoleRepo.create new_id name tenant_id ps mask w2).1 in
    let (r, is_made, h4) =
      bind-eq-ok (or_raise created attribute_error) (link_new actor) w3 new h3 in
    let created_eq = or_raise-eq-ok created attribute_error w3 r is_made in
    let (tenant_eq, mask_eq) =
      create-row new_id name tenant_id ps mask w2 r (made ∙ ap ok created_eq) in
    let new_eq = link_new-ok actor r new ((or_raise created attribute_error w3).1) h4 in
    (
      ap (λ (x : LoadedRole). x.role.tenant_id) new_eq ∙ tenant_eq,
      ap (λ (x : LoadedRole). x.role.permission_mask) new_eq ∙ mask_eq,
    )

-- Where a user that is no superuser creates a role, the role belongs to the user's tenant, its mask is
-- that of the names asked for and all they imply, and a bit of it is the bit of a permission that one
-- of the user's roles may grant, by a row of `role_grantable_permissions`, and is a bit of the ceiling
-- of the user's tenant where the user has a tenant.
pub create_role-within :
    (new_id i : ℕ) (role : RoleCreate) (actor : LoadedUser) (w : World) (new : LoadedRole)
    → actor.user.is_superuser ≡ false
    → (create_role new_id role actor w).0 ≡ ok new
    → (new.role.tenant_id ≡ actor.user.tenant_id)
      × (mask_for (expand_implied role.permission_names) ≡ ok new.role.permission_mask)
      × ((not (test_bit new.role.permission_mask i)
            || (may_grant_bit actor i w.db && tenant_allows actor.tenant i))
          ≡ true)
unfolding create_role RoleRepo.get_by_name
create_role-within new_id i role actor w new s h =
    let names = expand_implied role.permission_names in
    let tenant_id = if actor.user.is_superuser then none else actor.user.tenant_id in
    let existing =
      find (λ (r : Role). r.name == role.name && r.tenant_id == tenant_id) w.db.roles in
    let rest = λ (m : ℕ). checked_new new_id role.name actor tenant_id names m in
    let (t, fresh, h2) =
      bind-eq-ok (raise_if (is_some existing) (role_exists (by_name role.name)))
        (λ _. lift (mask_for names) >>= rest) w new (unfold checked_new store_new link_new in h) in
    let (m, mask_eq, h3) = bind-eq-ok (lift (mask_for names)) rest w new h2 in
    let (t', allowed, h4) =
      bind-eq-ok (ensure_grantable actor m)
        (λ _. store_new new_id role.name actor tenant_id names m) w new
        (unfold checked_new in h3) in
    let (tenant_eq, new_mask_eq) =
      store_new-ok new_id role.name actor tenant_id names m (ensure_grantable actor m w).1 new h4 in
    let within =
      ap (λ (x : Result Unit × World). x.0) (sym (ensure_grantable-eq actor m w s)) ∙ allowed in
    let zero_eq : and_not m (allowed_mask actor w.db) ≡ 0 = ground (
      arith,
      raise_if-eq-ok (not (and_not m (allowed_mask actor w.db) == 0)) grant_not_allowed w t' within,
    ) in
    (
      tenant_eq ∙ ap (λ b. if b then none else actor.user.tenant_id) s,
      mask_eq ∙ ap ok (sym new_mask_eq),
      within-allowed_mask actor w.db new.role.permission_mask i
          (ap (λ n. and_not n (allowed_mask actor w.db)) new_mask_eq ∙ zero_eq),
    )
