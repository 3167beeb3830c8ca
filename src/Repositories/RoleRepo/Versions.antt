-- ===== src/Repositories/RoleRepo/Versions.antt =====
-- app/repositories/rbac/role.py: a bump of `perm_version`, as the mirror in Redis shows it.
use fastapi_template.Prelude.{
  ℕ, ◌+◌, ◌≡◌, refl, ap, Bool, true, false, ◌||◌, Option, none, some, List, [], ◌∷◌, arith,
  if◌then◌else◌, ◌==◌, nat_eq, string_eq, option_eq, Bool-cases, inl, inr, map_option, ltb, ◌∙◌,
  sym,
}
use fastapi_template.Prelude.Lists.{any, filter, find, lookup}
use fastapi_template.Models.{User}
use fastapi_template.World.{link_eq, World, update_rows}
use fastapi_template.World.Mirror.{publish_events}
use fastapi_template.World.Rows.{distinct}
use fastapi_template.AuthzCache.{is_stale, snapshot}
use fastapi_template.AuthzCache.Views.{Known, last_said, version_in, knows-publish_loop}
use fastapi_template.Repositories.RoleRepo.{bump_events, bump_rows, bump_commit_publish}

-- The primary key of `users`.
abbrev pub same_user : User → User → Bool
same_user a b = a.id == b.id

abbrev pub find_row : ℕ → List User → Option User
find_row i users = find (λ u. u.id == i) users

unsaid :
    (hit : User → Bool) (i : ℕ) (users : List User)
    → find_row i users ≡ none
    → last_said (version_in i) (bump_events hit users) ≡ none
unfolding find last_said bump_events filter
unsaid hit i [] h = refl
unsaid hit i (u ∷ users) h = ground (arith, unsaid hit i users)

find-none_same :
    (i : ℕ) (x : User) (users : List User)
    → any (same_user x) users ≡ false
    → (x.id == i) ≡ true
    → find_row i users ≡ none
unfolding find any
find-none_same i x [] h e = refl
find-none_same i x (u ∷ users) h e = ground (arith, find-none_same i x users)

said_of_bump :
    (hit : User → Bool) (i : ℕ) (users : List User) (u : User)
    → distinct same_user users ≡ true
    → find_row i users ≡ some u
    → last_said (version_in i) (bump_events hit users)
      ≡ (if hit u then some (some (u.perm_version + 1)) else none)
unfolding find last_said bump_events filter distinct
said_of_bump hit i [] u d h = ground arith
said_of_bump hit i (x ∷ users) u d h =
    ground (arith, said_of_bump hit i users u, find-none_same i x users, unsaid hit i users)

-- The row with its version one higher where it was hit.
abbrev pub bumped_if : (User → Bool) → User → User
bumped_if hit u = if hit u then record u { perm_version = u.perm_version + 1 } else u

abbrev pub was_hit : (User → Bool) → Option User → Bool
was_hit hit none = false
was_hit hit (some u) = hit u

abbrev pub version_of : Option User → ℕ
version_of none = 0
version_of (some u) = u.perm_version

find-bumped :
    (hit : User → Bool) (i : ℕ) (users : List User)
    → find_row i (update_rows hit (λ u. record u { perm_version = u.perm_version + 1 }) users)
      ≡ map_option (bumped_if hit) (find_row i users)
unfolding find update_rows
find-bumped hit i [] = refl
find-bumped hit i (u ∷ users) = elim (Bool-cases (hit u)) [
  | inl struck ↦ ground (arith, struck, find-bumped hit i users)
  | inr passed ↦ ground (arith, passed, find-bumped hit i users)
]

said_by_row :
    (hit : User → Bool) (i : ℕ) (users : List User) (row : Option User)
    → distinct same_user users ≡ true
    → find_row i users ≡ row
    → last_said (version_in i) (bump_events hit users) ≡ (
        if was_hit hit row
        then some (map_option (λ (u : User). u.perm_version) (map_option (bumped_if hit) row))
        else none)
said_by_row hit i users none d h = unsaid hit i users h
said_by_row hit i users (some u) d h = elim (Bool-cases (hit u)) [
  | inl struck ↦ ground (arith, struck, said_of_bump hit i users u d h)
  | inr passed ↦ ground (arith, passed, said_of_bump hit i users u d h)
]

stale_by_row :
    (hit : User → Bool) (i : ℕ) (row : Option User) (old now : List (ℕ × ℕ))
    → lookup i now ≡ (
        if was_hit hit row
        then map_option (λ (u : User). u.perm_version) (map_option (bumped_if hit) row)
        else lookup i old)
    → (elim (lookup i now) [ none ↦ false | some v ↦ ltb (version_of row) v ]) ≡ (
        was_hit hit row || (elim (lookup i old) [ none ↦ false | some v ↦ ltb (version_of row) v ]))
stale_by_row hit i none old now h = ground (arith, h)
stale_by_row hit i (some u) old now h = elim (Bool-cases (hit u)) [
  | inl struck ↦ ground (arith, struck, h)
  | inr passed ↦ ground (arith, passed, h)
]

-- After a bump with Redis up, for any id: the row is the one from before, with a version one higher if
-- the user was hit; the mirror holds for a user that was hit the version that is now in the row, and for
-- any other id, of a user or of none, what it held; and a token with the version from before is stale
-- for a cache that reads the mirror exactly if the user was hit or it was stale already. The ids of
-- users are unique.
pub bump_commit_publish-mirror :
    (hit : User → Bool) (w : World) (i : ℕ)
    → w.redis.is_up ≡ true
    → distinct same_user w.db.users ≡ true
    → let w' = bump_commit_publish hit w in
      let row = find_row i w.db.users in
      (find_row i w'.db.users ≡ map_option (bumped_if hit) row)
      × (lookup i w'.redis.perm_versions ≡ (
          if was_hit hit row
          then map_option (λ (u : User). u.perm_version) (find_row i w'.db.users)
          else lookup i w.redis.perm_versions))
      × (is_stale (snapshot w'.redis) i (version_of row)
          ≡ (was_hit hit row || is_stale (snapshot w.redis) i (version_of row)))
unfolding bump_commit_publish publish_events is_stale snapshot bump_rows
bump_commit_publish-mirror hit w i up unique =
    let row = find_row i w.db.users in
    let told = said_by_row hit i w.db.users row unique refl in
    let knows = knows-publish_loop i (bump_events hit w.db.users) w.redis in
    let version = ap (λ (k : Known). k.version) knows in
    let after = find-bumped hit i w.db.users in
    let mirrored : lookup i (bump_commit_publish hit w).redis.perm_versions ≡ (
        if was_hit hit row
        then map_option (λ (u : User). u.perm_version) (map_option (bumped_if hit) row)
        else lookup i w.redis.perm_versions) =
      ground (arith, up, told, version) in
    let at_row =
      ap
        (λ (o : Option User).
          if was_hit hit row
          then map_option (λ (u : User). u.perm_version) o
          else lookup i w.redis.perm_versions)
        (sym after) in
    (after, mirrored ∙ at_row, stale_by_row hit i row w.redis.perm_versions _ mirrored)
