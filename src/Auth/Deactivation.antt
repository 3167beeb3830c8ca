-- ===== src/Auth/Deactivation.antt =====
-- app/services/users/user_management_service.py: `set_user_active`, as the mirror and a worker see it.
use fastapi_template.Prelude.{
  ℕ, String, ◌≡◌, sym, ap, ◌∙◌, inl, inr, Bool, true, false, not, Option, some, arith, nat_beq_iff,
  ◌==◌, nat_eq, string_eq, option_eq, Option-cases,
}
use fastapi_template.Error.{Result, ok, err, by_id, user_not_found, user_deactivated}
use fastapi_template.Models.{User}
use fastapi_template.World.{link_eq, World, Action, pure, or_raise, ◌>>=◌, ◌>>◌}
use fastapi_template.World.Mirror.{publish_events}
use fastapi_template.World.Mirror.{publish_loop, publish_event}
use fastapi_template.AuthzCache.{is_user_inactive, snapshot}
use fastapi_template.AuthzCache.Views.{contains-sadd, contains-srem}
use fastapi_template.Prelude.Lists.{find-passes}
use fastapi_template.Auth.Token.{TokenPayload, Libraries, verify_token}
use fastapi_template.Auth.CurrentUser.{authenticate, check_cache}
use fastapi_template.Repositories.UserRepo
use fastapi_template.Repositories.UserRepo.{find_user}
use fastapi_template.Services.RoleService.{Scope}
use fastapi_template.Services.UserService.{ensure_same_tenant, set_user_active}

set_active-mirror :
    (u : User) (is_active : Bool) (w : World)
    → w.redis.is_up ≡ true
    → is_user_inactive (snapshot (UserRepo.set_active u is_active w).1.redis) u.id ≡ not is_active
unfolding UserRepo.set_active publish_events publish_loop publish_event is_user_inactive snapshot
set_active-mirror u is_active w up = ground (
  arith,
  up,
  contains-sadd u.id u.id w.redis.inactive_users,
  contains-srem u.id u.id w.redis.inactive_users,
)

-- What `set_user_active` does with the row it found.
set_found : Scope → Bool → User → Action Unit
set_found actor is_active target = do
  ensure_same_tenant target actor
  UserRepo.set_active target is_active
  pure tt

set_found-state :
    (actor : Scope) (is_active : Bool) (target : User) (w : World) (t : Unit)
    → (set_found actor is_active target w).0 ≡ ok t
    → (set_found actor is_active target w).1 ≡ (UserRepo.set_active target is_active w).1
unfolding set_found ensure_same_tenant UserRepo.set_active
set_found-state actor is_active target w t h = ground arith

set_user_active-eq :
    (actor : Scope) (user_id : ℕ) (is_active : Bool) (w : World) (u : User)
    → find_user user_id w.db ≡ some u
    → set_user_active actor user_id is_active w ≡ set_found actor is_active u w
unfolding set_user_active set_found UserRepo.get_by_id
set_user_active-eq actor user_id is_active w u found =
    ap
      (λ (o : Option User).
        (or_raise o (user_not_found (by_id user_id)) >>= set_found actor is_active) w)
      found

set_user_active-found :
    (actor : Scope) (user_id : ℕ) (is_active : Bool) (w : World) (t : Unit)
    → (set_user_active actor user_id is_active w).0 ≡ ok t
    → (u : User) × (find_user user_id w.db ≡ some u)
unfolding set_user_active UserRepo.get_by_id
set_user_active-found actor user_id is_active w t h = elim (Option-cases (find_user user_id w.db)) [
  | inl gone ↦ ground (arith, gone)
  | inr (u, here) ↦ (u, here)
]

-- Where `set_user_active` returns with Redis up, the mirror says of the user that it is inactive
-- exactly when it was deactivated.
pub set_user_active-mirror :
    (actor : Scope) (user_id : ℕ) (is_active : Bool) (w : World) (t : Unit)
    → (set_user_active actor user_id is_active w).0 ≡ ok t
    → w.redis.is_up ≡ true
    → is_user_inactive (snapshot (set_user_active actor user_id is_active w).1.redis) user_id
      ≡ not is_active
set_user_active-mirror actor user_id is_active w t h up =
    let (u, found) = set_user_active-found actor user_id is_active w t h in
    let id_eq =
      (nat_beq_iff u.id user_id).0
        (find-passes (λ (v : User). v.id == user_id) w.db.users u found) in
    let whole = set_user_active-eq actor user_id is_active w u found in
    let after =
      ap (λ (x : Result Unit × World). x.1) whole
      ∙ set_found-state actor is_active u w t
          (ap (λ (x : Result Unit × World). x.0) (sym whole) ∙ h) in
    ap (λ (v : World). is_user_inactive (snapshot v.redis) user_id) after
    ∙ ap (λ i. is_user_inactive (snapshot (UserRepo.set_active u is_active w).1.redis) i)
        (sym id_eq)
    ∙ set_active-mirror u is_active w up

-- Where a user is deactivated with Redis up, a worker whose cache is read from the mirror refuses
-- every token of the user, whatever its other claims, with `UserDeactivated`.
pub set_user_active-refused :
    (lib : Libraries) (actor : Scope) (now : ℕ) (token : String) (payload : TokenPayload)
    (w : World) (t : Unit)
    → (set_user_active actor payload.id false w).0 ≡ ok t
    → w.redis.is_up ≡ true
    → verify_token lib now token ≡ some payload
    → authenticate lib (snapshot (set_user_active actor payload.id false w).1.redis) now token
      ≡ err user_deactivated
unfolding authenticate check_cache
set_user_active-refused lib actor now token payload w t h up decoded =
    ground (arith, decoded, set_user_active-mirror actor payload.id false w t h up)
