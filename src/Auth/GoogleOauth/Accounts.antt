-- ===== src/Auth/GoogleOauth/Accounts.antt =====
-- The account that a callback from Google ends with.
use fastapi_template.Prelude.{
  ℕ, String, ◌≡◌, refl, true, false, ◌||◌, none, some, List, [], ◌∷◌, ◌++◌, ◌==◌, nat_eq, string_eq,
  arith, Option-cases, ◌⊎◌, inl, inr, beq_refl,
}
use fastapi_template.Prelude.Lists.{any, find}
use fastapi_template.Error.{ok}
use fastapi_template.Models.{User}
use fastapi_template.World.{World}
use fastapi_template.Repositories.UserRepo
use fastapi_template.Auth.GoogleOauth.{find_or_create}
use fastapi_template.Auth.GoogleOauth.Usernames.{is_taken, build_unique_username-finds}

any-clash :
    (new_id : ℕ) (name email : String) (users : List User)
    → any (λ u. u.id == new_id) users ≡ false
    → is_taken name users ≡ false
    → find (λ u. u.email == email) users ≡ none
    → any (λ u. u.id == new_id || u.username == name || u.email == email) users ≡ false
unfolding any find
any-clash new_id name email [] h k l = refl
any-clash new_id name email (u ∷ users) h k l = ground (arith, any-clash new_id name email users)

find-snoc :
    (email : String) (users : List User) (row : User)
    → find (λ u. u.email == email) users ≡ none
    → (row.email == email) ≡ true
    → find (λ u. u.email == email) (users ++ row ∷ []) ≡ some row
unfolding find
find-snoc email [] row h e = ground arith
find-snoc email (u ∷ users) row h e = ground (arith, find-snoc email users row)

-- The account of a person whom the program knows only through Google.
abbrev pub google_user : ℕ → String → String → User
google_user new_id name email = record {
  id = new_id;
  username = name;
  email = email;
  password = none;
  is_verified = true;
  is_superuser = false;
  is_active = true;
  created_by_id = none;
  tenant_id = none;
  perm_version = 1;
}

abbrev pub add_user : User → World → World
add_user u w = record w { db = record w.db { users = w.db.users ++ u ∷ [] } }

-- With an id that no user has, a callback with the address of a user goes on with that user and changes
-- nothing; one with an unknown address adds one user of that address, verified, with no password, no
-- tenant and no privilege, under a username that was free, who is found by the address from then on.
pub find_or_create-account :
    (new_id : ℕ) (email : String) (w : World)
    → any (λ u. u.id == new_id) w.db.users ≡ false
    → ((u : User) × (find (λ x. x.email == email) w.db.users ≡ some u)
        × (find_or_create new_id email w ≡ (ok (u, false), w)))
      ⊎ ((name : String) × (is_taken name w.db.users ≡ false)
          × (find_or_create new_id email w ≡ (
            ok (google_user new_id name email, true),
            add_user (google_user new_id name email) w,
          ))
          × (find (λ x. x.email == email) (add_user (google_user new_id name email) w).db.users
              ≡ some (google_user new_id name email)))
unfolding find_or_create UserRepo.get_by_email UserRepo.create
find_or_create-account new_id email w unused =
    elim (Option-cases (find (λ x. x.email == email) w.db.users)) [
      | inr (u, known) ↦ inl (u, known, ground arith)
      | inl missing ↦
          let (name, built, free) = build_unique_username-finds email w in
          let clash = any-clash new_id name email w.db.users unused free missing in
          inr (
            name,
            free,
            ground arith,
            find-snoc email w.db.users (google_user new_id name email) missing (beq_refl email),
          )
    ]
