-- ===== src/Cli/Seed.antt =====
-- The first superuser.
use fastapi_template.Prelude.{
  ℕ, String, ◌≡◌, true, Option, none, some, List, [], ◌∷◌, ◌++◌, ◌==◌, nat_eq, string_eq, arith,
  beq_refl,
}
use fastapi_template.Prelude.Lists.{any}
use fastapi_template.Error.{ok}
use fastapi_template.Models.{User}
use fastapi_template.World.{World}
use fastapi_template.Repositories.UserRepo
use fastapi_template.Repositories.UserRepo.{new_user}
use fastapi_template.Cli.{seed}

any-snoc-user :
    (username : String) (us : List User) (u : User)
    → (u.username == username) ≡ true
    → any (λ x. x.username == username) (us ++ u ∷ []) ≡ true
unfolding any
any-snoc-user username [] u h = ground arith
any-snoc-user username (x ∷ us) u h = ground (arith, any-snoc-user username us u)

-- Once a run of the seed has returned, there is a user of its name: further runs, whatever their other
-- answers, create nothing and change nothing.
pub seed-twice :
    (hash : String → String) (new_id other_id : ℕ)
    (username email password email' password' : String) (w : World) (created : Option User)
    → (seed hash new_id username email password w).0 ≡ ok created
    → let w' = (seed hash new_id username email password w).1 in
      seed hash other_id username email' password' w' ≡ (ok none, w')
unfolding seed UserRepo.exists_by_username UserRepo.create
seed-twice hash new_id other_id username email password email' password' w created h =
    let row : User = record {
      id = new_id;
      username = username;
      email = email;
      password = some (hash password);
      is_verified = true;
      is_superuser = true;
      is_active = true;
      created_by_id = none;
      tenant_id = none;
      perm_version = 1;
    } in
    ground (arith, any-snoc-user username w.db.users row, beq_refl username)
