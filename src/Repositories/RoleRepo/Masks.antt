-- ===== src/Repositories/RoleRepo/Masks.antt =====
-- app/repositories/rbac/role.py: the cached masks of roles beside the permissions linked to them.
use fastapi_template.Prelude.{
  ℕ, ◌^◌, ◌≡◌, refl, sym, ap, ◌∙◌, subst, inl, inr, Bool, true, false, ◌&&◌, ◌||◌, not, Option,
  none, some, List, [], ◌∷◌, arith, if◌then◌else◌, ◌==◌, nat_eq, string_eq, option_eq, beq_refl,
  Bool-cases, Option-cases, map_option, is_some,
}
use fastapi_template.Prelude.Lists.{any, all, filter, find, contains, find-passes}
use fastapi_template.Error.{ok, is_ok}
use fastapi_template.Models.{Permission, Role, User, LoadedRole}
use fastapi_template.World.{Link, link_eq, Db, World}
use fastapi_template.Prelude.Bits.{test_bit, test_bit-pow, test_bit-and_not}
use fastapi_template.Rbac.Delegation.Effective.{test_bit-mask_with}
use fastapi_template.World.Rows.{find-update_rows, distinct, any_at, found_only}
use fastapi_template.Repositories.RoleRepo.{
  find_role, mask_with, mask_without, set_role_mask, bump_rows, bump_commit_publish, holds_role,
  add_permission, remove_permission,
}

-- Permission `p` is linked to the role and has bit `i`.
abbrev pub gives_bit : ℕ → ℕ → Db → Permission → Bool
gives_bit role_id i db p = contains (role_id, p.id) db.role_permissions && p.bit_position == some i

-- The cached mask of every role has exactly the bits of the permissions linked to it.
abbrev pub MasksExact : Db → Type 0
MasksExact db =
    (role_id : ℕ) (r : Role) (i : ℕ)
    → find_role role_id db ≡ some r
    → test_bit r.permission_mask i ≡ any (gives_bit role_id i db) db.permissions

-- The primary key and the unique column of `permissions`.
abbrev pub same_id : Permission → Permission → Bool
same_id a b = a.id == b.id

abbrev pub same_bit : Permission → Permission → Bool
same_bit a b = is_some a.bit_position && a.bit_position == b.bit_position

pub record PermissionKeys (db : Db) : Type 0 where
  pub ids : distinct same_id db.permissions ≡ true
  pub bits : distinct same_bit db.permissions ≡ true

same_bit_symmetric : (a b : Permission) → same_bit a b ≡ same_bit b a
same_bit_symmetric a b = ground arith

test_bit-mask_without :
    (mask : ℕ) (bit : Option ℕ) (i : ℕ)
    → test_bit (mask_without mask bit) i ≡ (test_bit mask i && not (bit == some i))
test_bit-mask_without mask none i = ground arith
test_bit-mask_without mask (some bit) i =
    ground (arith, test_bit-and_not i mask (2 ^ bit), test_bit-pow i bit)

find-set_role_mask :
    (role_id mask j : ℕ) (db : Db)
    → find_role j (set_role_mask role_id mask db)
      ≡ map_option
          (λ r. if r.id == role_id then record r { permission_mask = mask } else r)
          (find_role j db)
unfolding set_role_mask
find-set_role_mask role_id mask j db =
    find-update_rows (λ (r : Role). r.id) (λ r. record r { permission_mask = mask }) (λ r. refl) j
      role_id db.roles

contains-link_cons :
    (a b c d : ℕ) (links : List Link)
    → contains (c, d) ((a, b) ∷ links) ≡ ((a == c && b == d) || contains (c, d) links)
unfolding contains any
contains-link_cons a b c d links = refl

-- One more link.
added_bits :
    (role_id pid j i : ℕ) (links : List Link) (ps : List Permission)
    → any
        (λ (p : Permission).
          contains (j, p.id) ((role_id, pid) ∷ links) && p.bit_position == some i)
        ps
      ≡ ((role_id == j && any (λ (p : Permission). pid == p.id && p.bit_position == some i) ps)
          || any (λ (p : Permission). contains (j, p.id) links && p.bit_position == some i) ps)
unfolding any
added_bits role_id pid j i links [] = ground arith
added_bits role_id pid j i links (p ∷ ps) =
    ground (arith, added_bits role_id pid j i links ps, contains-link_cons role_id pid j p.id links)

-- One link less.
contains-without_link :
    (a b c d : ℕ) (links : List Link)
    → contains (c, d) (filter (λ l. not (l == (a, b))) links)
      ≡ (not (a == c && b == d) && contains (c, d) links)
unfolding contains any filter
contains-without_link a b c d [] = ground arith
contains-without_link a b c d (l ∷ links) = ground (arith, contains-without_link a b c d links)

-- The rows of the permissions that may differ at bit `i`.
any-agree :
    (f g : Permission → Bool) (ps : List Permission)
    → ((p : Permission) → f p ≡ g p)
    → any f ps ≡ any g ps
unfolding any
any-agree f g [] h = refl
any-agree f g (p ∷ ps) h = ground (arith, h p, any-agree f g ps h)

-- The rows that `add_permission` and `remove_permission` commit, before the bump of versions.
abbrev relinked : LoadedRole → ℕ → List Link → Db → Db
relinked r mask links db = record (set_role_mask r.role.id mask db) { role_permissions = links }

add_permission-db :
    (r : LoadedRole) (p : Permission) (w : World) (loaded : LoadedRole)
    → (add_permission r p w).0 ≡ ok loaded
    → (add_permission r p w).1.db
      ≡ bump_rows (holds_role r.role.id w.db) (
          relinked r
            (mask_with r.role.permission_mask p.bit_position)
            ((r.role.id, p.id) ∷ w.db.role_permissions)
            w.db)
unfolding add_permission bump_commit_publish
add_permission-db r p w loaded h =
    elim (Bool-cases (contains (r.role.id, p.id) w.db.role_permissions)) [
      | inl twice ↦ ground (arith, twice, h)
      | inr new ↦ ground (arith, new)
    ]

MasksExact-bump_rows : (hit : User → Bool) (db : Db) → MasksExact db → MasksExact (bump_rows hit db)
unfolding bump_rows
MasksExact-bump_rows hit db exact = exact

-- The mask that a query by key finds after a change of the mask of one role.
mask-set_role_mask :
    (role_id mask j : ℕ) (db : Db) (role : Role)
    → find_role j (set_role_mask role_id mask db) ≡ some role
    → (old : Role) × (find_role j db ≡ some old)
      × (role.permission_mask ≡ (if role_id == j then mask else old.permission_mask))
mask-set_role_mask role_id mask j db role h = elim (Option-cases (find_role j db)) [
  | inl gone ↦ ground (arith, gone, find-set_role_mask role_id mask j db)
  | inr (old, here) ↦ (
    old,
    here,
    ground (
      arith,
      here,
      find-set_role_mask role_id mask j db,
      find-passes (λ (r : Role). r.id == j) db.roles old,
    ),
  )
]

relinked-MasksExact_add :
    (r : LoadedRole) (p : Permission) (db : Db)
    → MasksExact db
    → PermissionKeys db
    → find_role r.role.id db ≡ some r.role
    → find (λ q. q.id == p.id) db.permissions ≡ some p
    → MasksExact (
        relinked r
          (mask_with r.role.permission_mask p.bit_position)
          ((r.role.id, p.id) ∷ db.role_permissions)
          db)
unfolding set_role_mask
relinked-MasksExact_add r p db exact keys held known j role i found =
    let (old, old_found, mask_eq) =
      mask-set_role_mask r.role.id (mask_with r.role.permission_mask p.bit_position) j db role
        found in
    ap (λ m. test_bit m i) mask_eq
    ∙ ground (
      arith,
      test_bit-mask_with r.role.permission_mask p.bit_position i,
      added_bits r.role.id p.id j i db.role_permissions db.permissions,
      any_at (λ (q : Permission). q.id) (λ q. q.bit_position == some i) db.permissions p.id p
          keys.ids known,
      exact r.role.id r.role i held,
      exact j old i old_found,
    )

-- Where `add_permission` returns for a permission that the table holds and a role that the table
-- holds, every cached mask is exact after it if every one was before. Ids and bits of permissions are
-- unique.
pub add_permission-MasksExact :
    (r : LoadedRole) (p : Permission) (w : World) (loaded : LoadedRole)
    → MasksExact w.db
    → PermissionKeys w.db
    → find_role r.role.id w.db ≡ some r.role
    → find (λ q. q.id == p.id) w.db.permissions ≡ some p
    → (add_permission r p w).0 ≡ ok loaded
    → MasksExact (add_permission r p w).1.db
add_permission-MasksExact r p w loaded exact keys held known h =
    let mask = mask_with r.role.permission_mask p.bit_position in
    let links : List Link = (r.role.id, p.id) ∷ w.db.role_permissions in
    subst MasksExact (sym (add_permission-db r p w loaded h)) (
      MasksExact-bump_rows (holds_role r.role.id w.db) (relinked r mask links w.db)
        (relinked-MasksExact_add r p w.db exact keys held known))

-- Where a bit names one permission, the links left give the bits left.
removed_bits :
    (role_id j i : ℕ) (p : Permission) (links : List Link) (ps : List Permission)
    → all (λ y. not (same_bit p y) || y.id == p.id) ps ≡ true
    → any (λ y. p.id == y.id && not (y.bit_position == p.bit_position)) ps ≡ false
    → any
        (λ (y : Permission).
          contains (j, y.id) (filter (λ l. not (l == (role_id, p.id))) links)
          && y.bit_position == some i)
        ps
      ≡ (any (λ (y : Permission). contains (j, y.id) links && y.bit_position == some i) ps
          && not (role_id == j && p.bit_position == some i))
unfolding any all
removed_bits role_id j i p links [] h h' = refl
removed_bits role_id j i p links (y ∷ ps) h h' =
    ground
      (arith, removed_bits role_id j i p links ps, contains-without_link role_id p.id j y.id links)

relinked-MasksExact_remove :
    (r : LoadedRole) (p : Permission) (db : Db)
    → MasksExact db
    → PermissionKeys db
    → find_role r.role.id db ≡ some r.role
    → find (λ q. q.id == p.id) db.permissions ≡ some p
    → MasksExact (
        relinked r
          (mask_without r.role.permission_mask p.bit_position)
          (filter (λ l. not (l == (r.role.id, p.id))) db.role_permissions)
          db)
unfolding set_role_mask
relinked-MasksExact_remove r p db exact keys held known j role i found =
    let (old, old_found, mask_eq) =
      mask-set_role_mask r.role.id (mask_without r.role.permission_mask p.bit_position) j db role
        found in
    let only =
      found_only same_bit (λ y. y.id == p.id) db.permissions p same_bit_symmetric keys.bits known in
    let one =
      any_at (λ (q : Permission). q.id) (λ q. not (q.bit_position == p.bit_position)) db.permissions
        p.id p keys.ids known in
    ap (λ m. test_bit m i) mask_eq
    ∙ ground (
      arith,
      only,
      one,
      test_bit-mask_without r.role.permission_mask p.bit_position i,
      removed_bits r.role.id j i p db.role_permissions db.permissions,
      beq_refl p.bit_position,
      exact r.role.id r.role i held,
      exact j old i old_found,
    )

pub remove_permission-MasksExact :
    (r : LoadedRole) (p : Permission) (w : World)
    → MasksExact w.db
    → PermissionKeys w.db
    → find_role r.role.id w.db ≡ some r.role
    → find (λ q. q.id == p.id) w.db.permissions ≡ some p
    → let held = any (λ (q : Permission). q.id == p.id) r.permissions in
      (is_ok (remove_permission r p w).0 ≡ held)
      × (contains (r.role.id, p.id) (remove_permission r p w).1.db.role_permissions
          ≡ (not held && contains (r.role.id, p.id) w.db.role_permissions))
      × MasksExact (remove_permission r p w).1.db
unfolding remove_permission bump_commit_publish
remove_permission-MasksExact r p w exact keys held known =
    let mask = mask_without r.role.permission_mask p.bit_position in
    let links = filter (λ l. not (l == (r.role.id, p.id))) w.db.role_permissions in
    let removed =
      MasksExact-bump_rows (holds_role r.role.id w.db) (relinked r mask links w.db)
        (relinked-MasksExact_remove r p w.db exact keys held known) in
    let unlinked = contains-without_link r.role.id p.id r.role.id p.id w.db.role_permissions in
    elim (Bool-cases (any (λ (q : Permission). q.id == p.id) r.permissions)) [
      | inl linked ↦ rw linked (refl, unfold bump_rows in ground (arith, unlinked), removed)
      | inr missing ↦ rw missing (refl, refl, exact)
    ]
