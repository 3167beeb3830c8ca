-- ===== src/Cli.antt =====
-- app/cli/sync_permissions.py and seed.py. What is printed is not modelled; the answers of the
-- environment or the prompt are arguments.
pub mod Sync
pub mod Seed
use fastapi_template.Prelude.{
  ℕ, ◌+◌, String, Bool, true, false, not, Option, none, some, List, [], ◌∷◌, if◌then◌else◌, ◌==◌,
  option_eq,
}
use fastapi_template.Error.{runtime_error}
use fastapi_template.Models.{Permission, User}
use fastapi_template.World.{Db, Action, pure, raise, gets, raise_if, ◌>>=◌, ◌>>◌}
use fastapi_template.Rbac.Registry.{permission_registry}
use fastapi_template.Repositories.PermissionRepo
use fastapi_template.Repositories.UserRepo
use fastapi_template.Repositories.UserRepo.{new_user}

module _ (new_id : Db → ℕ) where
  -- What the loop does with the row that it finds, and whether it creates one. `new_id` is the key that
  -- the database gives to a new row.
  unfoldable pub sync_row : String → ℕ → Option Permission → Action Bool
  sync_row name bit (some row) = do
    raise_if (not (row.bit_position == some bit)) runtime_error
    pure false
  sync_row name bit none = do
    key ← gets new_id
    PermissionRepo.create_with_bit key name bit
    pure true

  -- One round of the loop.
  unfoldable pub sync_entry : String → ℕ → Action Bool
  unfolding sync_row
  sync_entry name bit = do existing ← PermissionRepo.get_by_name name; sync_row name bit existing

  -- The loop, from the rows created so far.
  unfoldable pub sync_from : ℕ → List (String × ℕ) → Action ℕ
  unfolding sync_entry
  sync_from created [] = pure created
  sync_from created ((name, bit) ∷ entries) = do
    is_new ← sync_entry name bit
    sync_from (if is_new then created + 1 else created) entries

  -- `_sync_with_session`
  unfoldable pub sync_with_session : Action ℕ
  unfolding sync_from
  sync_with_session = sync_from 0 permission_registry

-- `hash` is `get_password_hash`; the user that is created, if one is.
unfoldable pub seed : (String → String) → ℕ → String → String → String → Action (Option User)
seed hash new_id username email password = do
  taken ← UserRepo.exists_by_username username
  if taken then pure none else do
    u ← UserRepo.create new_id (record (new_user username email (some (hash password))) {
      is_verified = true;
      is_superuser = true;
    })
    pure (some u)
