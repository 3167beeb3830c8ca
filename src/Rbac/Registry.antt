-- ===== src/Rbac/Registry.antt =====
-- app/core/rbac/registry.py: the permission catalog, masks from names and back, and the expansion of
-- implied permissions. Sets of names are lists; only membership in them is used.
pub mod Catalog
pub mod Expansion
use fastapi_template.Prelude.{
  ℕ, zero, suc, ◌+◌, ◌^◌, bit_and, bit_or, String, ◌≡◌, Bool, true, false, not, Option, none, some,
  List, [], ◌∷◌, ◌++◌, map, filter, contains, lookup, if◌then◌else◌, string_eq,
}
use fastapi_template.Prelude.Bits.{has_bit}
use fastapi_template.Error.{Result, ok, err, unknown_permission, by_name}

-- `PERMISSION_REGISTRY`
unfoldable pub permission_registry : List (String × ℕ)
permission_registry =
    ("role:create", 0)
    ∷ ("role:read", 1)
    ∷ ("role:read.id", 2)
    ∷ ("role:update", 3)
    ∷ ("role:delete", 4)
    ∷ ("role:add-permission", 5)
    ∷ ("role:delete-permission", 6)
    ∷ ("permission:read", 7)
    ∷ ("permission:read.id", 8)
    ∷ ("user:read", 9)
    ∷ ("user:read.id", 10)
    ∷ ("user:update", 11)
    ∷ ("user:deactivate", 12)
    ∷ ("tenant:create", 13)
    ∷ ("tenant:read", 14)
    ∷ ("tenant:read.id", 15)
    ∷ ("tenant:update", 16)
    ∷ ("tenant:deactivate", 17)
    ∷ ("user:create", 18)
    ∷ []

-- `PERMISSION_REGISTRY.get(name)`
unfoldable pub registry_get : String → Option ℕ
registry_get name = lookup name permission_registry

-- The loop of `mask_for`, from the mask so far.
unfoldable pub mask_for_from : ℕ → List String → Result ℕ
mask_for_from mask [] = ok mask
mask_for_from mask (name ∷ names) = elim (registry_get name) [
  | none ↦ err (unknown_permission (by_name name))
  | some bit ↦ mask_for_from (bit_or mask (2 ^ bit)) names
]

unfoldable pub mask_for : List String → Result ℕ
unfolding mask_for_from
mask_for names = mask_for_from 0 names

unfoldable pub names_for_mask : ℕ → List String
names_for_mask mask = map (λ e. e.0) (filter (λ e. has_bit mask e.1) permission_registry)

-- `PERMISSION_IMPLIES`
unfoldable pub permission_implies : List (String × List String)
permission_implies =
    ("role:update", "role:read" ∷ "role:read.id" ∷ [])
    ∷ ("role:delete", "role:read" ∷ "role:read.id" ∷ [])
    ∷ ("role:add-permission", "role:read.id" ∷ [])
    ∷ ("role:delete-permission", "role:read.id" ∷ [])
    ∷ ("user:update", "user:read" ∷ "user:read.id" ∷ [])
    ∷ ("user:deactivate", "user:read.id" ∷ [])
    ∷ ("permission:read.id", "permission:read" ∷ [])
    ∷ ("tenant:update", "tenant:read.id" ∷ [])
    ∷ ("tenant:deactivate", "tenant:read.id" ∷ [])
    ∷ []

-- `PERMISSION_IMPLIES.get(name, ())`
unfoldable pub implied_by : String → List String
implied_by name = elim (lookup name permission_implies) [ none ↦ [] | some names ↦ names ]

-- `result` and `next_frontier` of `expand_implied`.
pub record Frontier : Type 0 where
  pub result : List String
  pub next : List String

-- The body of the innermost loop: one implied name.
pub add_implied : Frontier → String → Frontier
add_implied f implied =
    if contains implied f.result
    then f
    else record { result = implied ∷ f.result; next = implied ∷ f.next }

pub add_all_implied : Frontier → List String → Frontier
add_all_implied f [] = f
add_all_implied f (implied ∷ rest) = add_all_implied (add_implied f implied) rest

-- `for name in frontier: for implied in PERMISSION_IMPLIES.get(name, ())`
pub expand_round : Frontier → List String → Frontier
expand_round f [] = f
expand_round f (name ∷ frontier) = expand_round (add_all_implied f (implied_by name)) frontier

-- `while frontier`, with the result and the frontier at the end: the loop ended by its own test if
-- the frontier left is empty.
pub expand_loop : ℕ → List String → List String → Frontier
expand_loop zero result frontier = record { result = result; next = frontier }
expand_loop (suc fuel) result [] = record { result = result; next = [] }
expand_loop (suc fuel) result (name ∷ frontier) =
    let round = expand_round (record { result = result; next = [] }) (name ∷ frontier) in
    expand_loop fuel round.result round.next

-- `set(names)`
unfoldable pub set_of : List String → List String
set_of [] = []
set_of (name ∷ names) = if contains name names then set_of names else name ∷ set_of names

-- Rounds that suffice: no implied permission implies another (see `Expansion`).
abbrev pub expansion_rounds : ℕ
expansion_rounds = 3

pub expand_run : List String → Frontier
unfolding expand_loop expand_round add_all_implied add_implied set_of implied_by permission_implies
expand_run names = expand_loop expansion_rounds (set_of names) (set_of names)

unfoldable pub expand_implied : List String → List String
unfolding expand_run
expand_implied names = (expand_run names).result

-- `SUPERUSER_ONLY_PERMISSIONS`
unfoldable pub superuser_only_permissions : List String
superuser_only_permissions =
    "tenant:create" ∷ "tenant:read" ∷ "tenant:read.id" ∷ "tenant:update" ∷ "tenant:deactivate" ∷ []

-- The value of a `mask_for` that the module evaluates at import, when it does not raise.
abbrev pub or_unset : Result ℕ → ℕ
or_unset (ok mask) = mask
or_unset (err _) = 0

-- `FULL_MASK`
unfoldable pub full_mask : ℕ
unfolding permission_registry registry_get mask_for
full_mask = or_unset (mask_for (map (λ e. e.0) permission_registry))

-- `TENANT_ROLE_MASK`
unfoldable pub tenant_role_mask : ℕ
unfolding permission_registry registry_get mask_for superuser_only_permissions
tenant_role_mask = or_unset (
    mask_for (
      filter (λ name. not (contains name superuser_only_permissions))
        (map (λ e. e.0) permission_registry)))
