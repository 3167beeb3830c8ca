-- ===== src/Services/RoleService/Ceiling/Added.antt =====
-- app/services/rbac/role_service.py: what a permission that is added to a role brings along, beside
-- what the actor may grant.
use fastapi_template.Prelude.{
  ℕ, String, ◌≡◌, refl, sym, ap, ◌∙◌, true, false, not, ◌&&◌, ◌||◌, Option, none, some, List, ◌∷◌,
  ◌++◌, Bool, if◌then◌else◌, ◌==◌, nat_eq, string_eq, option_eq, arith, subst,
}
use fastapi_template.Prelude.Lists.{find, any, all, contains, all-find}
use fastapi_template.Error.{
  Error, Result, ok, by_id, permission_not_found, permission_already_granted, grant_not_allowed,
}
use fastapi_template.Models.{Permission, LoadedRole, LoadedUser}
use fastapi_template.World.{World, Action, link_eq, pure, lift, or_raise, raise_if, ◌>>=◌, ◌>>◌}
use fastapi_template.World.Calls.{bind-eq-ok, bind-state, raise_if-eq-ok, or_raise-eq-ok}
use fastapi_template.Prelude.Bits.{and_not, test_bit}
use fastapi_template.Rbac.Registry.{mask_for}
use fastapi_template.Rbac.Delegation.Effective.{is_synced}
use fastapi_template.Repositories.PermissionRepo
use fastapi_template.Repositories.RoleRepo
use fastapi_template.Repositories.RoleRepo.{bump_commit_publish}
use fastapi_template.Services.RoleService.{
  scope_of, get_role, ensure_names_grantable, grantable_mask_for, missing_implied,
  has_permission_row, add_permissions, add_permission_to_role, ensure_role_in_scope, is_foreign,
}
use fastapi_template.Services.RoleService.Grantable.{
  may_grant_bit, tenant_allows, allowed_mask, grantable_mask_for-eq,
}
use fastapi_template.Services.RoleService.Additions.{add_permissions-ok, added_rows, added_bit}

-- The parts of `add_permission_to_role`, from the last to the first.
add_all : LoadedRole → Permission → List String → Action LoadedRole
add_all role perm names = do
  implied_perms ← PermissionRepo.get_by_names names
  add_permissions role (perm ∷ implied_perms)

checked_add : LoadedUser → LoadedRole → Permission → Action LoadedRole
unfolding add_all
checked_add actor role perm = do
  ensure_names_grantable actor (perm.name ∷ missing_implied role perm)
  add_all role perm (missing_implied role perm)

add_new : LoadedUser → LoadedRole → Permission → Action LoadedRole
unfolding checked_add
add_new actor role perm = do
  raise_if (has_permission_row role perm) permission_already_granted
  checked_add actor role perm

add_found : ℕ → LoadedUser → LoadedRole → Action LoadedRole
unfolding add_new
add_found permission_id actor role = do
  found ← RoleRepo.get_permission_by_id permission_id
  perm ← or_raise found (permission_not_found (by_id permission_id))
  add_new actor role perm

get_role-ok :
    (role_id : ℕ) (actor : LoadedUser) (w : World) (role : LoadedRole)
    → (get_role role_id (scope_of actor) w).0 ≡ ok role
    → (is_foreign role.role (scope_of actor) ≡ false)
      × ((get_role role_id (scope_of actor) w).1 ≡ w)
unfolding get_role ensure_role_in_scope RoleRepo.get_by_id
get_role-ok role_id actor w role h = ground arith

or_raise-state : {A : Type 0} (o : Option A) (e : Error) (w : World) → (or_raise o e w).1 ≡ w
or_raise-state none e w = refl
or_raise-state (some a) e w = refl

within_mask : List String → ℕ → Action Unit
within_mask names allowed = do
  mask ← lift (mask_for names)
  raise_if (not (and_not mask allowed == 0)) grant_not_allowed

ensure_names-eq :
    (actor : LoadedUser) (names : List String) (w : World)
    → actor.user.is_superuser ≡ false
    → ensure_names_grantable actor names w ≡ within_mask names (allowed_mask actor w.db) w
unfolding ensure_names_grantable within_mask
ensure_names-eq actor names w s =
    ap (λ b. (if b then pure tt else grantable_mask_for actor >>= within_mask names) w) s
    ∙ ap (λ (x : Result ℕ × World). (lift x.0 >>= within_mask names) x.1)
        (grantable_mask_for-eq actor w)

within_mask-ok :
    (names : List String) (allowed : ℕ) (w : World) (t : Unit)
    → (within_mask names allowed w).0 ≡ ok t
    → (mask : ℕ) × (mask_for names ≡ ok mask) × (and_not mask allowed ≡ 0)
unfolding within_mask
within_mask-ok names allowed w t h =
    let test = λ (mask : ℕ). raise_if (not (and_not mask allowed == 0)) grant_not_allowed in
    let (mask, found, passed) = bind-eq-ok (lift (mask_for names)) test w t h in
    let zero_eq : and_not mask allowed ≡ 0 =
      ground
        (arith, raise_if-eq-ok (not (and_not mask allowed == 0)) grant_not_allowed w t passed) in
    (mask, found, zero_eq)

-- The role after the additions, at a bit and at a permission.
Extends : LoadedUser → LoadedRole → Permission → World → LoadedRole → World → ℕ → ℕ → Type 0
Extends actor role perm w after w' i j =
    (after.permissions ≡ role.permissions ++ added_rows role perm w.db)
    × (contains (role.role.id, j) w'.db.role_permissions ≡ (
        contains (role.role.id, j) w.db.role_permissions
        || any (λ (p : Permission). p.id == j) (added_rows role perm w.db)))
    × ((not (test_bit after.role.permission_mask i)
          || (test_bit role.role.permission_mask i
              || (may_grant_bit actor i w.db && tenant_allows actor.tenant i)))
        ≡ true)

raise_if-state : (c : Bool) (e : Error) (w : World) → (raise_if c e w).1 ≡ w
raise_if-state true e w = refl
raise_if-state false e w = refl

within_mask-state :
    (names : List String) (allowed : ℕ) (w : World) → (within_mask names allowed w).1 ≡ w
unfolding within_mask
within_mask-state names allowed w = ground arith

ensure_names-ok :
    (actor : LoadedUser) (names : List String) (w : World) (t : Unit)
    → actor.user.is_superuser ≡ false
    → (ensure_names_grantable actor names w).0 ≡ ok t
    → ((ensure_names_grantable actor names w).1 ≡ w)
      × ((mask : ℕ) × (mask_for names ≡ ok mask) × (and_not mask (allowed_mask actor w.db) ≡ 0))
ensure_names-ok actor names w t s h =
    let same = ensure_names-eq actor names w s in
    (
      ap (λ (x : Result Unit × World). x.1) same
          ∙ within_mask-state names (allowed_mask actor w.db) w,
      within_mask-ok names (allowed_mask actor w.db) w t
          (ap (λ (x : Result Unit × World). x.0) (sym same) ∙ h),
    )

checked_add-within :
    (actor : LoadedUser) (role : LoadedRole) (perm : Permission) (w : World) (after : LoadedRole)
    (i j : ℕ)
    → actor.user.is_superuser ≡ false
    → all is_synced w.db.permissions ≡ true
    → is_synced perm ≡ true
    → (checked_add actor role perm w).0 ≡ ok after
    → Extends actor role perm w after (checked_add actor role perm w).1 i j
unfolding checked_add Extends
checked_add-within actor role perm w after i j s synced here h =
    let names = perm.name ∷ missing_implied role perm in
    let rows = added_rows role perm w.db in
    let check = ensure_names_grantable actor names in
    let next = λ (t : Unit). add_all role perm (missing_implied role perm) in
    let (t, passed, added) = bind-eq-ok check next w after h in
    let (same, (mask, known, within)) = ensure_names-ok actor names w t s passed in
    let all_added : (add_permissions role rows w).0 ≡ ok after =
      unfold add_all PermissionRepo.get_by_names in
      subst (λ v. (add_all role perm (missing_implied role perm) v).0 ≡ ok after) same added in
    let state : (check >>= next) w ≡ add_permissions role rows w =
      unfold add_all PermissionRepo.get_by_names in
      bind-state check next w t passed ∙ ap (add_all role perm (missing_implied role perm)) same in
    let (perms, bit, link) = add_permissions-ok rows role after w i j all_added in
    let allowed = added_bit actor role perm w mask i synced here known within in
    (
      perms,
      ap (λ (x : Result LoadedRole × World). contains (role.role.id, j) x.1.db.role_permissions)
            state
          ∙ link,
      ground (arith, bit, allowed),
    )

-- The last checks and the additions, from the row of the permission.
add_new-within :
    (actor : LoadedUser) (role : LoadedRole) (perm : Permission) (w : World) (after : LoadedRole)
    (i j : ℕ)
    → actor.user.is_superuser ≡ false
    → all is_synced w.db.permissions ≡ true
    → is_synced perm ≡ true
    → (add_new actor role perm w).0 ≡ ok after
    → (has_permission_row role perm ≡ false)
      × Extends actor role perm w after (add_new actor role perm w).1 i j
unfolding add_new
add_new-within actor role perm w after i j s synced here h =
    let test = raise_if (has_permission_row role perm) permission_already_granted in
    let next = λ (t : Unit). checked_add actor role perm in
    let (t, lacking, h2) = bind-eq-ok test next w after h in
    let same = raise_if-state (has_permission_row role perm) permission_already_granted w in
    let h3 = subst (λ v. (checked_add actor role perm v).0 ≡ ok after) same h2 in
    let state = bind-state test next w t lacking ∙ ap (checked_add actor role perm) same in
    (
      raise_if-eq-ok (has_permission_row role perm) permission_already_granted w t lacking,
      subst (λ (x : Result LoadedRole × World). Extends actor role perm w after x.1 i j) (sym state)
          (checked_add-within actor role perm w after i j s synced here h3),
    )

pub add_permission_to_role-within :
    (role_id permission_id i j : ℕ) (actor : LoadedUser) (w : World) (after : LoadedRole)
    → actor.user.is_superuser ≡ false
    → all is_synced w.db.permissions ≡ true
    → (add_permission_to_role role_id permission_id actor w).0 ≡ ok after
    → let db' = (add_permission_to_role role_id permission_id actor w).1.db in
      (role : LoadedRole) × (perm : Permission) × ((get_role role_id (scope_of actor) w).0
        ≡ ok role)
      × (find (λ (p : Permission). p.id == permission_id) w.db.permissions ≡ some perm)
      × (is_foreign role.role (scope_of actor) ≡ false)
      × (has_permission_row role perm ≡ false)
      × (after.permissions ≡ role.permissions ++ added_rows role perm w.db)
      × (contains (role.role.id, j) db'.role_permissions ≡ (
          contains (role.role.id, j) w.db.role_permissions
          || any (λ (p : Permission). p.id == j) (added_rows role perm w.db)))
      × ((not (test_bit after.role.permission_mask i)
            || (test_bit role.role.permission_mask i
                || (may_grant_bit actor i w.db && tenant_allows actor.tenant i)))
          ≡ true)
unfolding add_permission_to_role Extends
add_permission_to_role-within role_id permission_id i j actor w after s synced h =
    let first = get_role role_id (scope_of actor) in
    let found = add_found permission_id actor in
    let (role, found_role, h2) =
      bind-eq-ok first found w after (unfold add_found add_new checked_add add_all in h) in
    let (in_scope, same) = get_role-ok role_id actor w role found_role in
    let h3 = subst (λ v. (found role v).0 ≡ ok after) same h2 in
    let row = find (λ (p : Permission). p.id == permission_id) w.db.permissions in
    let missing = permission_not_found (by_id permission_id) in
    let (perm, found_perm, h4) =
      bind-eq-ok (or_raise row missing) (add_new actor role) w after
        (unfold add_found RoleRepo.get_permission_by_id in h3) in
    let row_eq = or_raise-eq-ok row missing w perm found_perm in
    let kept = or_raise-state row missing w in
    let h5 : (add_new actor role perm w).0 ≡ ok after =
      subst (λ v. (add_new actor role perm v).0 ≡ ok after) kept h4 in
    let here : is_synced perm ≡ true =
      all-find (λ (p : Permission). p.id == permission_id) is_synced w.db.permissions perm synced
        row_eq in
    let (lacking, extends) = add_new-within actor role perm w after i j s synced here h5 in
    let state : (first >>= found) w ≡ add_new actor role perm w =
      bind-state first found w role found_role
      ∙ ap (found role) same
      ∙ unfold add_found RoleRepo.get_permission_by_id in
        (bind-state (or_raise row missing) (add_new actor role) w perm found_perm
          ∙ ap (add_new actor role perm) kept) in
    let (perms, link, bit) = extends in
    (
      role,
      perm,
      found_role,
      row_eq,
      in_scope,
      lacking,
      perms,
      unfold add_found add_new checked_add add_all in
          (ap
              (λ (x : Result LoadedRole × World).
                contains (role.role.id, j) x.1.db.role_permissions)
              state
            ∙ link),
      bit,
    )
