-- ===== src/Services/RoleService/Additions.antt =====
-- app/services/rbac/role_service.py: the permissions that `add_permission_to_role` adds, and their bits.
use fastapi_template.Prelude.{
  ℕ, String, ◌≡◌, refl, sym, ap, ◌∙◌, true, ◌&&◌, ◌||◌, some, List, [], ◌∷◌, ◌++◌, Bool-cases, inl,
  inr, ◌==◌, nat_eq, string_eq, option_eq, arith, subst, beq_refl,
}
use fastapi_template.Prelude.Lists.{any, all, filter, contains}
use fastapi_template.Error.{Result, ok}
use fastapi_template.Models.{Permission, LoadedRole, LoadedUser}
use fastapi_template.World.{Link, Db, World, link_eq}
use fastapi_template.World.Calls.{bind-eq-ok, bind-state}
use fastapi_template.Prelude.Bits.{and_not, test_bit}
use fastapi_template.Rbac.Registry.{mask_for}
use fastapi_template.Rbac.Registry.Catalog.{mask_for-contains}
use fastapi_template.Rbac.Delegation.Effective.{is_synced, test_bit-mask_with}
use fastapi_template.Repositories.RoleRepo
use fastapi_template.Repositories.RoleRepo.{bump_commit_publish}
use fastapi_template.Services.RoleService.{missing_implied, add_permissions}
use fastapi_template.Services.RoleService.Grantable.{
  may_grant_bit, tenant_allows, allowed_mask, within-allowed_mask,
}

contains-later :
    (a b : String) (names : List String) → contains a names ≡ true → contains a (b ∷ names) ≡ true
unfolding contains any
contains-later a b names h = ground arith

add_permission-ok :
    (r : LoadedRole) (p : Permission) (after : LoadedRole) (w : World) (i j : ℕ)
    → (RoleRepo.add_permission r p w).0 ≡ ok after
    → (after.role.id ≡ r.role.id)
      × (after.permissions ≡ r.permissions ++ p ∷ [])
      × (test_bit after.role.permission_mask i
          ≡ (test_bit r.role.permission_mask i || p.bit_position == some i))
      × (contains (r.role.id, j) (RoleRepo.add_permission r p w).1.db.role_permissions
          ≡ (contains (r.role.id, j) w.db.role_permissions || p.id == j))
unfolding RoleRepo.add_permission bump_commit_publish contains any
add_permission-ok r p after w i j h =
    elim (Bool-cases (contains (r.role.id, p.id) w.db.role_permissions)) [
      | inl twice ↦ ground (arith, twice, h)
      | inr new ↦ (
        ground (arith, new, h),
        ground (arith, new, h),
        ground (arith, new, h, test_bit-mask_with r.role.permission_mask p.bit_position i),
        ground (arith, new),
      )
    ]

append_nil : (ps : List Permission) → ps ++ [] ≡ ps
append_nil [] = refl
append_nil (p ∷ ps) = ap (λ qs. p ∷ qs) (append_nil ps)

append_snoc :
    (ps : List Permission) (p : Permission) (qs : List Permission)
    → (ps ++ p ∷ []) ++ qs ≡ ps ++ p ∷ qs
append_snoc [] p qs = refl
append_snoc (x ∷ ps) p qs = ap (λ rs. x ∷ rs) (append_snoc ps p qs)

contains_first : (a : String) (names : List String) → contains a (a ∷ names) ≡ true
unfolding contains any
contains_first a names = ground (arith, beq_refl a)

-- What `add_permissions` returns and links.
pub add_permissions-ok :
    (ps : List Permission) (r after : LoadedRole) (w : World) (i j : ℕ)
    → (add_permissions r ps w).0 ≡ ok after
    → (after.permissions ≡ r.permissions ++ ps)
      × (test_bit after.role.permission_mask i ≡ (
          test_bit r.role.permission_mask i
          || any (λ (p : Permission). p.bit_position == some i) ps))
      × (contains (r.role.id, j) (add_permissions r ps w).1.db.role_permissions ≡ (
          contains (r.role.id, j) w.db.role_permissions || any (λ (p : Permission). p.id == j) ps))
unfolding add_permissions any
add_permissions-ok [] r after w i j h = (
  (let same : after ≡ r = ground arith in ap (λ (x : LoadedRole). x.permissions) same)
      ∙ sym (append_nil r.permissions),
  ground arith,
  ground arith,
)
add_permissions-ok (p ∷ ps) r after w i j h =
    let next = λ (r' : LoadedRole). add_permissions r' ps in
    let (r', made, rest) = bind-eq-ok (RoleRepo.add_permission r p) next w after h in
    let w' = (RoleRepo.add_permission r p w).1 in
    let state =
      ap (λ (x : Result LoadedRole × World). x.1.db.role_permissions)
        (bind-state (RoleRepo.add_permission r p) next w r' made) in
    let (id_eq, perms_eq, bit_eq, link_here) = add_permission-ok r p r' w i j made in
    let (perms, bit, link) = add_permissions-ok ps r' after w' i j rest in
    let link_at_id =
      subst
        (λ k.
          contains (k, j) (add_permissions r' ps w').1.db.role_permissions
          ≡ (contains (k, j) w'.db.role_permissions || any (λ (q : Permission). q.id == j) ps))
        id_eq link in
    (
      perms ∙ ap (λ qs. qs ++ ps) perms_eq ∙ append_snoc r.permissions p ps,
      ground (arith, bit, bit_eq),
      ap (λ (ls : List Link). contains (r.role.id, j) ls) state
          ∙ link_at_id
          ∙ ground (arith, link_here),
    )

-- The bit of a row that agrees with the catalog is in the mask of any names with its own.
asked_bit :
    (p : Permission) (names : List String) (m i : ℕ)
    → mask_for names ≡ ok m
    → is_synced p ≡ true
    → (p.bit_position == some i) ≡ true
    → contains p.name names ≡ true
    → test_bit m i ≡ true
asked_bit p names m i known synced bit asked =
    mask_for-contains names m p.name i known (ground (arith, synced, bit)) ∙ asked

asked_bits :
    (ps : List Permission) (name : String) (names : List String) (m i : ℕ)
    → mask_for (name ∷ names) ≡ ok m
    → all is_synced ps ≡ true
    → any (λ (p : Permission). p.bit_position == some i) (filter (λ p. contains p.name names) ps)
      ≡ true
    → test_bit m i ≡ true
unfolding any all filter
asked_bits [] name names m i known synced h = ground arith
asked_bits (p ∷ ps) name names m i known synced h = elim (Bool-cases (contains p.name names)) [
  | inl asked ↦ ground (
    arith,
    asked,
    asked_bits ps name names m i known,
    asked_bit p (name ∷ names) m i known,
    contains-later p.name name names asked,
  )
  | inr other ↦ ground (arith, other, asked_bits ps name names m i known)
]

-- What the code adds for the permission: its row and the rows of what it implies and the role lacks.
abbrev pub added_rows : LoadedRole → Permission → Db → List Permission
added_rows role perm db =
    perm ∷ filter (λ p. contains p.name (missing_implied role perm)) db.permissions

pub added_bit :
    (actor : LoadedUser) (role : LoadedRole) (perm : Permission) (w : World) (mask i : ℕ)
    → all is_synced w.db.permissions ≡ true
    → is_synced perm ≡ true
    → mask_for (perm.name ∷ missing_implied role perm) ≡ ok mask
    → and_not mask (allowed_mask actor w.db) ≡ 0
    → any (λ (p : Permission). p.bit_position == some i) (added_rows role perm w.db) ≡ true
    → (may_grant_bit actor i w.db && tenant_allows actor.tenant i) ≡ true
unfolding any
added_bit actor role perm w mask i synced here known within h =
    let set : test_bit mask i ≡ true = ground (
      arith,
      h,
      asked_bit perm (perm.name ∷ missing_implied role perm) mask i known here,
      contains_first perm.name (missing_implied role perm),
      asked_bits w.db.permissions perm.name (missing_implied role perm) mask i known synced,
    ) in
    ground (arith, set, within-allowed_mask actor w.db mask i within)
