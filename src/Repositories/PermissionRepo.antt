-- ===== src/Repositories/PermissionRepo.antt =====
-- app/repositories/rbac/permission.py
use fastapi_template.Prelude.{
  ℕ, String, ◌||◌, Option, some, List, [], ◌∷◌, ◌++◌, if◌then◌else◌, ◌==◌, nat_eq, string_eq,
  option_eq,
}
use fastapi_template.Prelude.Lists.{any, filter, find, contains, take, drop}
use fastapi_template.Error.{ok, err, integrity_error}
use fastapi_template.Models.{Permission}
use fastapi_template.World.{link_eq, Action, gets}

unfoldable pub get_by_id : ℕ → Action (Option Permission)
get_by_id permission_id = gets λ db. find (λ p. p.id == permission_id) db.permissions

unfoldable pub get_by_name : String → Action (Option Permission)
get_by_name name = gets λ db. find (λ p. p.name == name) db.permissions

unfoldable pub get_by_names : List String → Action (List Permission)
get_by_names names = gets λ db. filter (λ p. contains p.name names) db.permissions

unfoldable pub get_by_bit_position : ℕ → Action (Option Permission)
get_by_bit_position bit_position =
    gets λ db. find (λ p. p.bit_position == some bit_position) db.permissions

-- The key of the new row comes from the database.
unfoldable pub create_with_bit : ℕ → String → ℕ → Action Permission
create_with_bit new_id name bit_position w =
    let row : Permission = record { id = new_id; name = name; bit_position = some bit_position } in
    let taken =
      any (λ p. p.name == name || p.bit_position == some bit_position || p.id == new_id)
        w.db.permissions in
    if taken
    then (err integrity_error, w)
    else (ok row, record w { db = record w.db { permissions = w.db.permissions ++ row ∷ [] } })

unfoldable pub get_by_ids : List ℕ → Action (List Permission)
get_by_ids permission_ids = gets λ db. filter (λ p. contains p.id permission_ids) db.permissions

unfoldable pub list_all : ℕ → ℕ → Action (List Permission)
list_all skip limit = gets λ db. take limit (drop skip db.permissions)

unfoldable pub list_by_names : List String → ℕ → ℕ → Action (List Permission)
list_by_names names skip limit =
    gets λ db. take limit (drop skip (filter (λ p. contains p.name names) db.permissions))
