-- ===== src/Repositories/RoleRepo/NewRow.antt =====
-- The row of a role that was just inserted, as a query by its key finds it.
use fastapi_template.Prelude.{
  ℕ, String, ◌≡◌, refl, false, ◌&&◌, ◌||◌, Option, some, List, [], ◌∷◌, ◌++◌, arith, ◌==◌, nat_eq,
  string_eq, option_eq,
}
use fastapi_template.Prelude.Lists.{any, find}
use fastapi_template.Models.{Role}
use fastapi_template.World.{link_eq}

pub find-snoc :
    (new_id : ℕ) (row : Role) (rows : List Role)
    → row.id ≡ new_id
    → any (λ r. r.id == new_id) rows ≡ false
    → find (λ r. r.id == new_id) (rows ++ row ∷ []) ≡ some row
unfolding find any
find-snoc new_id row [] e h = ground arith
find-snoc new_id row (r ∷ rows) e h = ground (arith, find-snoc new_id row rows e)

pub no_id :
    (new_id : ℕ) (name : String) (tenant_id : Option ℕ) (rows : List Role)
    → any (λ r. r.id == new_id || (r.name == name && r.tenant_id == tenant_id)) rows ≡ false
    → any (λ r. r.id == new_id) rows ≡ false
unfolding any
no_id new_id name tenant_id [] h = refl
no_id new_id name tenant_id (r ∷ rows) h = ground (arith, no_id new_id name tenant_id rows)
