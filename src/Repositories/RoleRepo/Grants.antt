-- ===== src/Repositories/RoleRepo/Grants.antt =====
-- app/repositories/rbac/role.py: grant delegation, which roles and permissions a holder of a role may
-- hand out.
use fastapi_template.Prelude.{
  ℕ, Bool, not, Option, List, [], ◌∷◌, ◌++◌, map, if◌then◌else◌, ◌==◌, nat_eq, string_eq, option_eq,
}
use fastapi_template.Prelude.Lists.{filter, contains}
use fastapi_template.Error.{ok, err, integrity_error}
use fastapi_template.Models.{Permission}
use fastapi_template.World.{Link, link_eq, Db, Action, pure, gets, modify_db}
use fastapi_template.Repositories.RoleRepo.{mask_with}

unfoldable pub grantable_role_link_exists : ℕ → ℕ → Action Bool
grantable_role_link_exists role_id grantable_role_id =
    gets λ db. contains (role_id, grantable_role_id) db.role_grantable_roles

unfoldable pub add_grantable_role : ℕ → ℕ → Action Unit
add_grantable_role role_id grantable_role_id w =
    let link : Link = (role_id, grantable_role_id) in
    if contains link w.db.role_grantable_roles then (err integrity_error, w) else (
      ok tt,
      record w { db = record w.db { role_grantable_roles = link ∷ w.db.role_grantable_roles } },
    )

unfoldable pub remove_grantable_role : ℕ → ℕ → Action Unit
remove_grantable_role role_id grantable_role_id = modify_db λ db. record db {
  role_grantable_roles =
      filter (λ l. not (l == (role_id, grantable_role_id))) db.role_grantable_roles;
}

unfoldable pub grantable_permission_link_exists : ℕ → ℕ → Action Bool
grantable_permission_link_exists role_id permission_id =
    gets λ db. contains (role_id, permission_id) db.role_grantable_permissions

unfoldable pub add_grantable_permission : ℕ → ℕ → Action Unit
add_grantable_permission role_id permission_id w =
    let link : Link = (role_id, permission_id) in
    if contains link w.db.role_grantable_permissions then (err integrity_error, w) else (
      ok tt,
      record w {
        db = record w.db { role_grantable_permissions = link ∷ w.db.role_grantable_permissions };
      },
    )

unfoldable pub remove_grantable_permission : ℕ → ℕ → Action Unit
remove_grantable_permission role_id permission_id = modify_db λ db. record db {
  role_grantable_permissions =
      filter (λ l. not (l == (role_id, permission_id))) db.role_grantable_permissions;
}

-- The second keys of the links whose first key is in a list.
unfoldable pub linked_from : List ℕ → List Link → List ℕ
linked_from role_ids links = map (λ l. l.1) (filter (λ l. contains l.0 role_ids) links)

unfoldable pub get_grantable_role_ids : List ℕ → Action (List ℕ)
unfolding linked_from
get_grantable_role_ids [] = pure []
get_grantable_role_ids (r ∷ rs) = gets λ db. linked_from (r ∷ rs) db.role_grantable_roles

unfoldable pub get_grantable_permission_ids : List ℕ → Action (List ℕ)
unfolding linked_from
get_grantable_permission_ids [] = pure []
get_grantable_permission_ids (r ∷ rs) =
    gets λ db. linked_from (r ∷ rs) db.role_grantable_permissions

-- `for bit in result.all(): if bit is not None: mask |= 1 << bit`
unfoldable pub or_bits : ℕ → List (Option ℕ) → ℕ
or_bits mask [] = mask
or_bits mask (bit ∷ bits) = or_bits (mask_with mask bit) bits

-- The join of links with the permissions that they name.
unfoldable pub join_bits : List Link → List Permission → List (Option ℕ)
join_bits [] permissions = []
join_bits (l ∷ links) permissions =
    map (λ p. p.bit_position) (filter (λ p. p.id == l.1) permissions) ++ join_bits links permissions

unfoldable pub grantable_bits : List ℕ → Db → List (Option ℕ)
unfolding join_bits
grantable_bits role_ids db =
    join_bits (filter (λ l. contains l.0 role_ids) db.role_grantable_permissions) db.permissions

unfoldable pub get_grantable_permission_mask : List ℕ → Action ℕ
unfolding or_bits grantable_bits
get_grantable_permission_mask [] = pure 0
get_grantable_permission_mask (r ∷ rs) = gets λ db. or_bits 0 (grantable_bits (r ∷ rs) db)
