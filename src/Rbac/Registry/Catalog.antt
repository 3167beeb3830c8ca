-- ===== src/Rbac/Registry/Catalog.antt =====
-- Masks from names and names from masks.
use fastapi_template.Prelude.{
  ℕ, ◌^◌, ◌<◌, bit_and, bit_or, String, ◌≡◌, refl, sym, ap, ◌∙◌, fun_ext, inl, inr, Bool, true,
  false, ◌&&◌, ◌||◌, not, Option, none, some, List, [], ◌∷◌, map, arith, ltb, nat_beq,
  if◌then◌else◌, nat_beq_iff, ◌==◌, nat_eq, string_eq, option_eq, Option-cases,
}
use fastapi_template.Prelude.Lists.{any, all, filter, contains, lookup, all-lookup}
use fastapi_template.Prelude.Bits.{
  test_bit, has_bit, has_bit-eq-test_bit, test_bit-or, test_bit-pow, test_bit-zero, eq_of_bits,
  test_bit-and,
}
use text.Mathlib.TextEquality.{eq_iff}
use fastapi_template.Error.{ok, err, unknown_permission, by_name}
use fastapi_template.Rbac.Registry.{
  permission_registry, registry_get, mask_for_from, mask_for, names_for_mask, full_mask,
}

-- Bit `i` is that of `name`.
abbrev pub names_bit : ℕ → String → Bool
names_bit i name = registry_get name == some i

-- Every name is in the catalog.
abbrev pub all_known : List String → Bool
all_known names = all (λ name. not (registry_get name == none)) names

or_bit : (mask bit i : ℕ) → test_bit (bit_or mask (2 ^ bit)) i ≡ (test_bit mask i || nat_beq bit i)
or_bit mask bit i = ground (arith, test_bit-or i mask (2 ^ bit), test_bit-pow i bit)

mask_for_from-bits :
    (names : List String) (mask m i : ℕ)
    → mask_for_from mask names ≡ ok m
    → test_bit m i ≡ (test_bit mask i || any (names_bit i) names)
unfolding mask_for_from any
mask_for_from-bits [] mask m i h = ground arith
mask_for_from-bits (name ∷ names) mask m i h = elim (Option-cases (registry_get name)) [
  | inl missing ↦ ground arith
  | inr (bit, found) ↦
      ground (arith, mask_for_from-bits names (bit_or mask (2 ^ bit)) m i, or_bit mask bit i)
]

mask_for_from-total :
    (names : List String) (mask : ℕ)
    → all_known names ≡ true
    → (m : ℕ) × (mask_for_from mask names ≡ ok m)
unfolding mask_for_from all
mask_for_from-total [] mask h = (mask, refl)
mask_for_from-total (name ∷ names) mask h = elim (Option-cases (registry_get name)) [
  | inl missing ↦ absurd (ground arith)
  | inr (bit, found) ↦
      let (m, e) = mask_for_from-total names (bit_or mask (2 ^ bit)) (ground arith) in
      (m, ground arith)
]

mask_for_from-known :
    (names : List String) (mask m : ℕ) → mask_for_from mask names ≡ ok m → all_known names ≡ true
unfolding mask_for_from all
mask_for_from-known [] mask m h = refl
mask_for_from-known (name ∷ names) mask m h = elim (Option-cases (registry_get name)) [
  | inl missing ↦ ground arith
  | inr (bit, found) ↦ ground (arith, mask_for_from-known names (bit_or mask (2 ^ bit)) m)
]

-- The mask of names that are all in the catalog has exactly their bits.
pub mask_for-bits :
    (names : List String) (m i : ℕ) → mask_for names ≡ ok m → test_bit m i ≡ any (names_bit i) names
unfolding mask_for
mask_for-bits names m i h = ground (arith, mask_for_from-bits names 0 m i h, test_bit-zero i)

-- `bit` is its entry's own, and fits 256 bits.
abbrev is_catalog_entry : String × ℕ → Bool
is_catalog_entry e = names_bit e.1 e.0 && ltb e.1 256

entries_ok : all is_catalog_entry permission_registry ≡ true
unfolding permission_registry registry_get all lookup
entries_ok = refl

-- The second assertion on the registry: every bit is below 256.
pub registry_get-lt : (name : String) (bit : ℕ) → registry_get name ≡ some bit → bit < 256
unfolding registry_get
registry_get-lt name bit h =
    ground (arith, all-lookup name is_catalog_entry permission_registry bit entries_ok h)

-- The name that has a bit, if there is one.
name_of_bit : ℕ → List (String × ℕ) → Option String
name_of_bit i [] = none
name_of_bit i ((name, bit) ∷ d) = if bit == i then some name else name_of_bit i d

abbrev is_owner : String × ℕ → Bool
is_owner e = elim (name_of_bit e.1 permission_registry) [ none ↦ false | some name ↦ name == e.0 ]

owners_ok : all is_owner permission_registry ≡ true
unfolding permission_registry name_of_bit all
owners_ok = refl

-- The first assertion on the registry: no two names have one bit.
pub registry_get-injective :
    (a b : String) (bit : ℕ) → registry_get a ≡ some bit → registry_get b ≡ some bit → a ≡ b
unfolding registry_get
registry_get-injective a b bit p q =
    let own_a = all-lookup a is_owner permission_registry bit owners_ok p in
    let own_b = all-lookup b is_owner permission_registry bit owners_ok q in
    elim (Option-cases (name_of_bit bit permission_registry)) [
      | inl free ↦ ground arith
      | inr (owner, e) ↦ ground (arith, eq_iff owner a, eq_iff owner b)
    ]

pub names_bit-eq : (a b : String) (bit : ℕ) → registry_get a ≡ some bit → names_bit bit b ≡ (b == a)
names_bit-eq a b bit p = elim (Option-cases (registry_get b)) [
  | inl missing ↦ ground (arith, eq_iff b a)
  | inr (other, found) ↦
      ground (arith, eq_iff b a, nat_beq_iff other bit, registry_get-injective a b bit p)
]

-- In the mask of some names, the bit of a catalog name is set exactly when it is among them.
pub mask_for-contains :
    (names : List String) (m : ℕ) (name : String) (bit : ℕ)
    → mask_for names ≡ ok m
    → registry_get name ≡ some bit
    → test_bit m bit ≡ contains name names
unfolding contains
mask_for-contains names m name bit h found =
    mask_for-bits names m bit h ∙ ap (λ p. any p names) (fun_ext λ b. names_bit-eq name b bit found)

-- `mask_for` returns a mask exactly when every name is in the catalog.
pub mask_for-total :
    (names : List String) → all_known names ≡ true → (m : ℕ) × (mask_for names ≡ ok m)
unfolding mask_for
mask_for-total names = mask_for_from-total names 0

pub mask_for-known : (names : List String) (m : ℕ) → mask_for names ≡ ok m → all_known names ≡ true
unfolding mask_for
mask_for-known names = mask_for_from-known names 0

catalog_names : List String
catalog_names = map (λ e. e.0) permission_registry

full_mask_lem : mask_for catalog_names ≡ ok full_mask
unfolding full_mask permission_registry registry_get mask_for catalog_names lookup
full_mask_lem = refl

selected_bits :
    (mask i : ℕ) (d : List (String × ℕ))
    → all is_catalog_entry d ≡ true
    → any (names_bit i) (map (λ e. e.0) (filter (λ e. has_bit mask e.1) d))
      ≡ (test_bit mask i && any (names_bit i) (map (λ e. e.0) d))
unfolding any all filter
selected_bits mask i [] h = ground arith
selected_bits mask i ((name, bit) ∷ d) h =
    ground (arith, has_bit-eq-test_bit mask bit, selected_bits mask i d, nat_beq_iff bit i)

all_known-catalog :
    (mask : ℕ) (d : List (String × ℕ))
    → all is_catalog_entry d ≡ true
    → all_known (map (λ e. e.0) (filter (λ e. has_bit mask e.1) d)) ≡ true
unfolding all filter
all_known-catalog mask [] h = refl
all_known-catalog mask ((name, bit) ∷ d) h = ground (arith, all_known-catalog mask d)

-- The names of a mask, turned into a mask again, give the part of it that the catalog covers.
pub mask_for-names_for_mask :
    (mask : ℕ) → mask_for (names_for_mask mask) ≡ ok (bit_and mask full_mask)
unfolding names_for_mask catalog_names test_bit
mask_for-names_for_mask mask =
    let (m, e) =
      mask_for-total (names_for_mask mask)
        (all_known-catalog mask permission_registry entries_ok) in
    e
    ∙ ap ok (
        eq_of_bits m (bit_and mask full_mask) λ i.
          mask_for-bits (names_for_mask mask) m i e
          ∙ selected_bits mask i permission_registry entries_ok
          ∙ sym (
              test_bit-and i mask full_mask
              ∙ ap (λ b. test_bit mask i && b)
                  (mask_for-bits catalog_names full_mask i full_mask_lem)))

mask_for_from-unknown :
    (names : List String) (mask : ℕ)
    → all_known names ≡ false
    → (name : String) × (mask_for_from mask names ≡ err (unknown_permission (by_name name)))
      × (contains name names ≡ true)
      × (registry_get name ≡ none)
unfolding mask_for_from all contains any
mask_for_from-unknown [] mask h = absurd (ground arith)
mask_for_from-unknown (name ∷ names) mask h = elim (Option-cases (registry_get name)) [
  | inl missing ↦ (name, ground arith, ground (arith, eq_iff name name), missing)
  | inr (bit, found) ↦
      let (other, raised, among, absent) =
        mask_for_from-unknown names (bit_or mask (2 ^ bit)) (ground arith) in
      (other, ground arith, ground arith, absent)
]

-- `mask_for` on names that are all in the catalog returns a mask in which the bit of a catalog name
-- is set exactly when the name was asked for.
pub mask_for_lem :
    (names : List String) (name : String) (bit : ℕ)
    → all_known names ≡ true
    → registry_get name ≡ some bit
    → (m : ℕ) × (mask_for names ≡ ok m) × (test_bit m bit ≡ contains name names)
mask_for_lem names name bit known found =
    let (m, e) = mask_for-total names known in (m, e, mask_for-contains names m name bit e found)

-- `mask_for` on names that are not all in the catalog raises `UnknownPermission` for one that was
-- asked for and is not in it.
pub mask_for-unknown :
    (names : List String)
    → all_known names ≡ false
    → (name : String) × (mask_for names ≡ err (unknown_permission (by_name name)))
      × (contains name names ≡ true)
      × (registry_get name ≡ none)
unfolding mask_for
mask_for-unknown names missing = mask_for_from-unknown names 0 missing
