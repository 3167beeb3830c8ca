-- ===== src/Services/RoleService/Grantable.antt =====
-- app/services/rbac/role_service.py: the bits of the mask that bounds what an actor hands on.
use fastapi_template.Prelude.{
  ℕ, ◌≡◌, refl, sym, ap, ◌∙◌, inl, inr, Bool, true, false, ◌&&◌, ◌||◌, not, Option, none, some,
  List, [], ◌∷◌, ◌++◌, map, arith, ◌==◌, nat_eq, string_eq, option_eq, Bool-cases,
}
use fastapi_template.Prelude.Lists.{any, filter, contains}
use fastapi_template.Error.{Result, ok}
use fastapi_template.Models.{Permission, Tenant, LoadedUser}
use fastapi_template.World.{Link, link_eq, Db, World, pure, lift, ◌>>=◌}
use fastapi_template.Prelude.Bits.{
  and_not, test_bit, test_bit-zero, test_bit-and, subset_of_and_not,
}
use fastapi_template.Rbac.Delegation.{role_ids}
use fastapi_template.Rbac.Delegation.Effective.{test_bit-mask_with}
use fastapi_template.Repositories.RoleRepo.{mask_with}
use fastapi_template.Repositories.RoleRepo.Grants as Grants
use fastapi_template.Services.RoleService.{under_ceiling, grantable_mask_for}

-- One of the actor's roles may grant a permission with the bit.
abbrev pub may_grant_bit : LoadedUser → ℕ → Db → Bool
may_grant_bit actor i db =
    any
      (λ l.
        contains l.0 (role_ids actor)
        && any (λ (p : Permission). p.id == l.1 && p.bit_position == some i) db.permissions)
      db.role_grantable_permissions

-- The ceiling of a tenant has the bit; without a tenant there is no ceiling.
abbrev pub tenant_allows : Option Tenant → ℕ → Bool
tenant_allows none i = true
tenant_allows (some tenant) i = test_bit tenant.allowed_permission_mask i

-- The bits that some roles may grant.
abbrev pub granted_mask : List ℕ → Db → ℕ
granted_mask [] db = 0
granted_mask (i ∷ ids) db = Grants.or_bits 0 (Grants.grantable_bits (i ∷ ids) db)

granted_mask-eq :
    (ids : List ℕ) (w : World)
    → Grants.get_grantable_permission_mask ids w ≡ (ok (granted_mask ids w.db), w)
unfolding Grants.get_grantable_permission_mask
granted_mask-eq [] w = refl
granted_mask-eq (i ∷ ids) w = refl

-- What the actor's roles may grant, under the ceiling of the actor's tenant.
abbrev pub allowed_mask : LoadedUser → Db → ℕ
allowed_mask actor db = under_ceiling (granted_mask (role_ids actor) db) actor.tenant

pub grantable_mask_for-eq :
    (actor : LoadedUser) (w : World)
    → grantable_mask_for actor w ≡ (ok (allowed_mask actor w.db), w)
unfolding grantable_mask_for
grantable_mask_for-eq actor w =
    ap (λ (x : Result ℕ × World). (lift x.0 >>= λ mask. pure (under_ceiling mask actor.tenant)) x.1)
      (granted_mask-eq (role_ids actor) w)

test_bit-or_bits :
    (bits : List (Option ℕ)) (mask i : ℕ)
    → test_bit (Grants.or_bits mask bits) i ≡ (test_bit mask i || any (λ b. b == some i) bits)
unfolding Grants.or_bits any
test_bit-or_bits [] mask i = ground arith
test_bit-or_bits (bit ∷ bits) mask i =
    ground (arith, test_bit-or_bits bits (mask_with mask bit) i, test_bit-mask_with mask bit i)

bits_of_link :
    (j i : ℕ) (ps : List Permission) (rest : List (Option ℕ))
    → any (λ b. b == some i) (map (λ p. p.bit_position) (filter (λ p. p.id == j) ps) ++ rest) ≡ (
        any (λ (p : Permission). p.id == j && p.bit_position == some i) ps
        || any (λ b. b == some i) rest)
unfolding any filter
bits_of_link j i [] rest = refl
bits_of_link j i (p ∷ ps) rest = elim (Bool-cases (p.id == j)) [
  | inl same ↦ ground (arith, same, bits_of_link j i ps rest)
  | inr other ↦ ground (arith, other, bits_of_link j i ps rest)
]

join_bits-bits :
    (ids : List ℕ) (i : ℕ) (links : List Link) (ps : List Permission)
    → any (λ b. b == some i) (Grants.join_bits (filter (λ l. contains l.0 ids) links) ps)
      ≡ any
          (λ l.
            contains l.0 ids
            && any (λ (p : Permission). p.id == l.1 && p.bit_position == some i) ps)
          links
unfolding any filter Grants.join_bits
join_bits-bits ids i [] ps = refl
join_bits-bits ids i (l ∷ links) ps = elim (Bool-cases (contains l.0 ids)) [
  | inl ours ↦ ground (
    arith,
    ours,
    bits_of_link l.1 i ps (Grants.join_bits (filter (λ l. contains l.0 ids) links) ps),
    join_bits-bits ids i links ps,
  )
  | inr other ↦ ground (arith, other, join_bits-bits ids i links ps)
]

no_role :
    (i : ℕ) (links : List Link) (ps : List Permission)
    → any
        (λ l.
          contains l.0 [] && any (λ (p : Permission). p.id == l.1 && p.bit_position == some i) ps)
        links
      ≡ false
unfolding any contains
no_role i [] ps = refl
no_role i (l ∷ links) ps = no_role i links ps

granted_mask-bits :
    (ids : List ℕ) (i : ℕ) (db : Db)
    → test_bit (granted_mask ids db) i
      ≡ any
          (λ l.
            contains l.0 ids
            && any (λ (p : Permission). p.id == l.1 && p.bit_position == some i) db.permissions)
          db.role_grantable_permissions
unfolding Grants.grantable_bits
granted_mask-bits [] i db =
    test_bit-zero i ∙ sym (no_role i db.role_grantable_permissions db.permissions)
granted_mask-bits (k ∷ ids) i db =
    test_bit-or_bits (Grants.grantable_bits (k ∷ ids) db) 0 i
    ∙ ap (λ b. b || any (λ b. b == some i) (Grants.grantable_bits (k ∷ ids) db)) (test_bit-zero i)
    ∙ join_bits-bits (k ∷ ids) i db.role_grantable_permissions db.permissions

under_ceiling-bits :
    (mask i : ℕ) (tenant : Option Tenant)
    → test_bit (under_ceiling mask tenant) i ≡ (test_bit mask i && tenant_allows tenant i)
under_ceiling-bits mask i none = ground arith
under_ceiling-bits mask i (some tenant) = test_bit-and i mask tenant.allowed_permission_mask

pub allowed_mask-bits :
    (actor : LoadedUser) (i : ℕ) (db : Db)
    → test_bit (allowed_mask actor db) i
      ≡ (may_grant_bit actor i db && tenant_allows actor.tenant i)
allowed_mask-bits actor i db =
    under_ceiling-bits (granted_mask (role_ids actor) db) i actor.tenant
    ∙ ap (λ b. b && tenant_allows actor.tenant i) (granted_mask-bits (role_ids actor) i db)

pub within-allowed_mask :
    (actor : LoadedUser) (db : Db) (mask i : ℕ)
    → and_not mask (allowed_mask actor db) ≡ 0
    → (not (test_bit mask i) || (may_grant_bit actor i db && tenant_allows actor.tenant i)) ≡ true
within-allowed_mask actor db mask i h = elim (Bool-cases (test_bit mask i)) [
  | inl set ↦
      let allowed = subset_of_and_not mask (allowed_mask actor db) i h set in
      rw (set, (sym (allowed_mask-bits actor i db) ∙ allowed)) refl
  | inr clear ↦ rw clear refl
]
