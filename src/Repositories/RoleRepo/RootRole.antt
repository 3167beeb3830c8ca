-- ===== src/Repositories/RoleRepo/RootRole.antt =====
-- app/repositories/rbac/role.py: the permissions of the root role of a new tenant.
use fastapi_template.Prelude.{
  ℕ, bit_and, ◌≡◌, refl, sym, ap, ◌∙◌, subst, inl, inr, Bool, true, false, ◌&&◌, ◌||◌, not, some,
  List, [], ◌∷◌, ◌++◌, arith, ◌==◌, nat_eq, string_eq, option_eq, Bool-cases,
}
use fastapi_template.Prelude.Lists.{any, all, filter, contains}
use fastapi_template.Error.{ok}
use fastapi_template.Models.{Permission, Role, LoadedRole}
use fastapi_template.World.{Link, link_eq, World, load_role}
use fastapi_template.Prelude.Bits.{bit_in}
use fastapi_template.Prelude.Lists.{any-filter}
use fastapi_template.World.Rows.{distinct}
use fastapi_template.Repositories.RoleRepo.Masks.{same_id}
use fastapi_template.Repositories.RoleRepo.NewRow.{find-snoc, no_id}
use fastapi_template.Rbac.Registry.{superuser_only_permissions, tenant_role_mask}
use fastapi_template.Repositories.RoleRepo.{
  links_to, role_taken, get_by_id, root_role_permissions, create_root_tenant_role,
}

-- A permission that a root role may have under a mask.
abbrev pub is_root_permission : ℕ → Permission → Bool
is_root_permission mask p =
    not (contains p.name superuser_only_permissions) && bit_in mask p.bit_position

-- A row of the list has the id of the permission and passes.
abbrev good_id : (Permission → Bool) → List Permission → Permission → Bool
good_id good ps p = any (λ (q : Permission). good q && q.id == p.id) ps

no_links :
    (j k : ℕ) (links : List Link)
    → any (λ l. l.0 == j) links ≡ false
    → contains (j, k) links ≡ false
unfolding contains any
no_links j k [] h = refl
no_links j k (l ∷ links) h = ground (arith, no_links j k links)

contains-links_to :
    (j k : ℕ) (qs : List Permission) (links : List Link)
    → any (λ l. l.0 == j) links ≡ false
    → contains (j, k) (links_to j qs ++ links) ≡ any (λ (q : Permission). q.id == k) qs
unfolding links_to contains any
contains-links_to j k [] links h = no_links j k links h
contains-links_to j k (q ∷ qs) links h = ground (arith, contains-links_to j k qs links h)

root_rows :
    (mask : ℕ) (ps : List Permission)
    → filter
        (λ p. bit_in mask p.bit_position)
        (filter (λ p. not (contains p.name superuser_only_permissions)) ps)
      ≡ filter (is_root_permission mask) ps
unfolding filter
root_rows mask [] = refl
root_rows mask (p ∷ ps) = ground (arith, root_rows mask ps)

none_good :
    (good : Permission → Bool) (p : Permission) (ps : List Permission)
    → any (same_id p) ps ≡ false
    → good_id good ps p ≡ false
unfolding any
none_good good p [] h = refl
none_good good p (q ∷ ps) h = ground (arith, none_good good p ps)

with_head :
    (good : Permission → Bool) (p : Permission) (xs ps : List Permission)
    → any (same_id p) xs ≡ false
    → all (λ x. not (good_id good ps x) || good x) xs ≡ true
    → all (λ x. not ((good p && p.id == x.id) || good_id good ps x) || good x) xs ≡ true
unfolding any all
with_head good p [] ps h e = refl
with_head good p (x ∷ xs) ps h e = ground (arith, with_head good p xs ps)

-- Where ids are unique, a row that has the id of a row that passes, passes.
good_ids :
    (good : Permission → Bool) (ps : List Permission)
    → distinct same_id ps ≡ true
    → all (λ x. not (good_id good ps x) || good x) ps ≡ true
unfolding any all distinct
good_ids good [] d = refl
good_ids good (p ∷ ps) d =
    ground (arith, good_ids good ps, none_good good p ps, with_head good p ps ps)

all-filter_good :
    (good c d : Permission → Bool) (ps : List Permission)
    → ((p : Permission) → c p ≡ d p)
    → all (λ p. not (d p) || good p) ps ≡ true
    → all good (filter c ps) ≡ true
unfolding all filter
all-filter_good good c d [] eq h = refl
all-filter_good good c d (p ∷ ps) eq h = ground (arith, eq p, all-filter_good good c d ps eq)

pub create_root_tenant_role-within :
    (new_id tenant_id allowed : ℕ) (w : World) (r : LoadedRole)
    → distinct same_id w.db.permissions ≡ true
    → any (λ l. l.0 == new_id) w.db.role_permissions ≡ false
    → (create_root_tenant_role new_id tenant_id allowed w).0 ≡ ok (some r)
    → (r.role.permission_mask ≡ bit_and allowed tenant_role_mask)
      × (all (is_root_permission (bit_and allowed tenant_role_mask)) r.permissions ≡ true)
unfolding create_root_tenant_role role_taken get_by_id load_role root_role_permissions
create_root_tenant_role-within new_id tenant_id allowed w r unique unused h =
    let mask = bit_and allowed tenant_role_mask in
    let good = is_root_permission mask in
    let rows =
      filter (λ (p : Permission). bit_in mask p.bit_position)
        (filter (λ (p : Permission). not (contains p.name superuser_only_permissions))
          w.db.permissions) in
    let row : Role = record {
      id = new_id;
      name = "tenant-admin";
      tenant_id = some tenant_id;
      permission_mask = mask;
    } in
    let linked = λ (p : Permission).
      contains {A = Link} (new_id, p.id) (links_to new_id rows ++ w.db.role_permissions) in
    let linked_eq = λ (p : Permission).
      contains-links_to new_id p.id rows w.db.role_permissions unused
      ∙ ap (λ qs. any (λ (q : Permission). q.id == p.id) qs) (root_rows mask w.db.permissions)
      ∙ any-filter (λ (q : Permission). q.id == p.id) good w.db.permissions in
    let within =
      all-filter_good good linked (good_id good w.db.permissions) w.db.permissions linked_eq
        (good_ids good w.db.permissions unique) in
    elim (Bool-cases (
      any
        (λ (x : Role).
          x.id == new_id || (x.name == "tenant-admin" && x.tenant_id == some tenant_id))
        w.db.roles)) [
          | inl taken ↦ ground (arith, taken)
          | inr free ↦
              let found =
                find-snoc new_id row w.db.roles refl
                  (no_id new_id "tenant-admin" (some tenant_id) w.db.roles free) in
              let loaded : LoadedRole = record {
                role = row;
                permissions = filter linked w.db.permissions;
              } in
              let r_eq : loaded ≡ r = ground (arith, free, found, h) in
              (
                sym (ap (λ (x : LoadedRole). x.role.permission_mask) r_eq),
                subst (λ (x : LoadedRole). all good x.permissions ≡ true) r_eq within,
              )
        ]
