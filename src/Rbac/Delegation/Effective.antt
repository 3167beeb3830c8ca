-- ===== src/Rbac/Delegation/Effective.antt =====
-- The mask of a user against the names of its permissions.
use fastapi_template.Prelude.{
  ℕ, suc, ◌^◌, ◌<◌, bit_or, String, ◌≡◌, refl, ap, ◌∙◌, inl, inr, Bool, true, ◌||◌, Option, none,
  some, List, [], ◌∷◌, map, arith, ◌==◌, nat_eq, string_eq, option_eq, Option-cases,
}
use native.Mathlib.Nat.{pow-suc, one-le-pow, pow-le-pow_right}
use fastapi_template.Prelude.Lists.{any, all, contains, contains-append}
use fastapi_template.Prelude.Bits.{test_bit, test_bit-or, test_bit-pow, test_bit-zero, or-lt-pow}
use fastapi_template.Models.{Permission, LoadedRole, LoadedUser}
use fastapi_template.Rbac.Registry.{registry_get}
use fastapi_template.Rbac.Registry.Catalog.{registry_get-lt, names_bit-eq}
use fastapi_template.Repositories.RoleRepo.{mask_with}
use fastapi_template.Rbac.Delegation.{
  role_permission_names, effective_permissions, or_role_masks, or_direct_grants,
  effective_permission_mask,
}

-- The mask of a loaded role is the OR of the bits of its permissions.
abbrev pub IsExact : LoadedRole → Type 0
IsExact r =
    (i : ℕ)
    → test_bit r.role.permission_mask i
      ≡ any (λ (p : Permission). p.bit_position == some i) r.permissions

abbrev pub AllExact : List LoadedRole → Type 0
AllExact [] = Unit
AllExact (r ∷ roles) = IsExact r × AllExact roles

-- The row of a permission has the bit of its name in the registry.
abbrev pub is_synced : Permission → Bool
is_synced p = p.bit_position == registry_get p.name

abbrev pub roles_synced : List LoadedRole → Bool
roles_synced roles = all (λ (r : LoadedRole). all is_synced r.permissions) roles

pub test_bit-mask_with :
    (mask : ℕ) (bit : Option ℕ) (i : ℕ)
    → test_bit (mask_with mask bit) i ≡ (test_bit mask i || bit == some i)
test_bit-mask_with mask none i = ground arith
test_bit-mask_with mask (some bit) i =
    ground (arith, test_bit-or i mask (2 ^ bit), test_bit-pow i bit)

direct-bits :
    (ps : List Permission) (mask i : ℕ)
    → test_bit (or_direct_grants mask ps) i
      ≡ (test_bit mask i || any (λ (p : Permission). registry_get p.name == some i) ps)
unfolding or_direct_grants any
direct-bits [] mask i = ground arith
direct-bits (p ∷ ps) mask i = ground (
  arith,
  direct-bits ps (mask_with mask (registry_get p.name)) i,
  test_bit-mask_with mask (registry_get p.name) i,
)

role_bits :
    (roles : List LoadedRole) (mask i : ℕ)
    → AllExact roles
    → test_bit (or_role_masks mask roles) i ≡ (
        test_bit mask i
        || any
            (λ (r : LoadedRole). any (λ (p : Permission). p.bit_position == some i) r.permissions)
            roles)
unfolding or_role_masks any
role_bits [] mask i h = ground arith
role_bits (r ∷ roles) mask i h = ground (
  arith,
  role_bits roles (bit_or mask r.role.permission_mask) i h.1,
  test_bit-or i mask r.role.permission_mask,
  h.0 i,
)

-- A synced row has the bit of a catalog name exactly when it has the name.
pub bit-eq-name :
    (p : Permission) (name : String) (bit : ℕ)
    → registry_get name ≡ some bit
    → is_synced p ≡ true
    → (p.bit_position == some bit) ≡ (p.name == name)
bit-eq-name p name bit found synced =
    ap (λ o. o == some bit) ((option_eq.beq_iff p.bit_position (registry_get p.name)).0 synced)
    ∙ names_bit-eq name p.name bit found

any_bit-eq-contains :
    (ps : List Permission) (name : String) (bit : ℕ)
    → registry_get name ≡ some bit
    → all is_synced ps ≡ true
    → any (λ (p : Permission). p.bit_position == some bit) ps ≡ contains name (map (λ p. p.name) ps)
unfolding contains any all
any_bit-eq-contains [] name bit found synced = refl
any_bit-eq-contains (p ∷ ps) name bit found synced =
    ground (arith, bit-eq-name p name bit found, any_bit-eq-contains ps name bit found)

roles-contains :
    (roles : List LoadedRole) (name : String) (bit : ℕ)
    → registry_get name ≡ some bit
    → roles_synced roles ≡ true
    → any
        (λ (r : LoadedRole). any (λ (p : Permission). p.bit_position == some bit) r.permissions)
        roles
      ≡ contains name (role_permission_names roles)
unfolding role_permission_names any all
roles-contains [] name bit found synced = unfold contains in refl
roles-contains (r ∷ roles) name bit found synced = ground (
  arith,
  any_bit-eq-contains r.permissions name bit found,
  roles-contains roles name bit found,
  contains-append name (map (λ (p : Permission). p.name) r.permissions)
      (role_permission_names roles),
)

direct-contains :
    (ps : List Permission) (name : String) (bit : ℕ)
    → registry_get name ≡ some bit
    → any (λ (p : Permission). registry_get p.name == some bit) ps
      ≡ contains name (map (λ p. p.name) ps)
unfolding contains any
direct-contains [] name bit found = refl
direct-contains (p ∷ ps) name bit found =
    ground (arith, names_bit-eq name p.name bit found, direct-contains ps name bit found)

-- For a user whose roles have exact masks over rows that agree with the registry, the bit of a
-- catalog name is set in the effective mask exactly when the name is among the effective
-- permissions.
pub effective_permission_mask-contains :
    (u : LoadedUser) (name : String) (bit : ℕ)
    → registry_get name ≡ some bit
    → AllExact u.roles
    → roles_synced u.roles ≡ true
    → test_bit (effective_permission_mask u) bit ≡ contains name (effective_permissions u)
unfolding effective_permission_mask effective_permissions
effective_permission_mask-contains u name bit found exact synced =
    direct-bits u.permissions (or_role_masks 0 u.roles) bit
    ∙ ground (
      arith,
      role_bits u.roles 0 bit exact,
      test_bit-zero bit,
      roles-contains u.roles name bit found synced,
      direct-contains u.permissions name bit found,
      contains-append name (role_permission_names u.roles)
          (map (λ (p : Permission). p.name) u.permissions),
    )

-- Every mask of the roles fits 256 bits.
abbrev pub AllFit : List LoadedRole → Type 0
AllFit [] = Unit
AllFit (r ∷ roles) = (r.role.permission_mask < 2 ^ 256) × AllFit roles

roles_fit :
    (roles : List LoadedRole) (mask : ℕ)
    → mask < 2 ^ 256
    → AllFit roles
    → or_role_masks mask roles < 2 ^ 256
unfolding or_role_masks
roles_fit [] mask p h = p
roles_fit (r ∷ roles) mask p h =
    roles_fit roles (bit_or mask r.role.permission_mask)
      (or-lt-pow 256 mask r.role.permission_mask p h.0) h.1

pow-lt : (bit : ℕ) → bit < 256 → 2 ^ bit < 2 ^ 256
pow-lt bit p = omega (
  arith,
  pow-suc 2 bit,
  one-le-pow bit 2 (omega arith),
  pow-le-pow_right {n = 2} (omega arith) {i = suc bit} {j = 256} p,
)

registry_bit_fits :
    (mask : ℕ) (name : String) → mask < 2 ^ 256 → mask_with mask (registry_get name) < 2 ^ 256
registry_bit_fits mask name p = elim (Option-cases (registry_get name)) [
  | inl missing ↦ rw missing p
  | inr (bit, found) ↦
      rw found (or-lt-pow 256 mask (2 ^ bit) p (pow-lt bit (registry_get-lt name bit found)))
]

direct_fit : (ps : List Permission) (mask : ℕ) → mask < 2 ^ 256 → or_direct_grants mask ps < 2 ^ 256
unfolding or_direct_grants
direct_fit [] mask p = p
direct_fit (q ∷ ps) mask p =
    direct_fit ps (mask_with mask (registry_get q.name)) (registry_bit_fits mask q.name p)

-- The mask of a token fits its 256 bits if the masks of the roles do.
pub effective_permission_mask-fits :
    (u : LoadedUser) → AllFit u.roles → effective_permission_mask u < 2 ^ 256
unfolding effective_permission_mask
effective_permission_mask-fits u h =
    direct_fit u.permissions (or_role_masks 0 u.roles) (roles_fit u.roles 0 (omega arith) h)
