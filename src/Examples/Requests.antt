-- ===== src/Examples/Requests.antt =====
-- Requests, answers, the command line and Google's callback at concrete inputs.
use fastapi_template.Prelude.{
  ℕ, ◌≤◌, ◌<◌, max, ◌+◌, String, ◌≡◌, ◌≢◌, ◌⊎◌, refl, ap, true, false, none, some, List, [], ◌∷◌,
  map, arith, ◌==◌, nat_eq, string_eq, option_eq, Option, is_some, not,
}
use fastapi_template.Prelude.Lists.{any, all, filter, find, contains, lookup}
use fastapi_template.Error.{
  Error, Result, ok, err, http_exception, invalid_token, by_id, superuser_required, integrity_error,
  user_not_found,
}
use fastapi_template.Http.{Response, returned}
use fastapi_template.Http.Register.{answer}
use fastapi_template.Http.Answers.{
  answer-technical_details, message_in, technical_details_in, is_unexpected,
}
use fastapi_template.Models.{User, Permission}
use fastapi_template.World.{
  link_eq, Db, Action, pure, raise, load_role, load_user, lift, or_raise, ◌>>=◌,
}
use fastapi_template.RateLimit.SlidingWindow.{works, limiter, empty_bucket}
use fastapi_template.RateLimit.SlidingWindow.Log.{recent_count, log_after}
use fastapi_template.Middleware.{
  Request, Server, serve, serve_all, rate_limit_middleware, logged, security_headers,
}
use fastapi_template.Middleware.Secured.{or_else, serve-secured}
use fastapi_template.Middleware.Throttle.{throttled, well_timed, no_logs}
use fastapi_template.Middleware.Throttle.Runs.{serve_all-throttled}
use fastapi_template.Rbac.Delegation.{effective_permissions}
use fastapi_template.Rbac.Delegation.Effective.{is_synced}
use fastapi_template.Rbac.Registry.{permission_registry, registry_get}
use fastapi_template.AuthzCache.{empty_cache, is_user_inactive, is_tenant_inactive, is_stale}
use fastapi_template.Auth.CurrentUser.{authenticate, check_cache, get_current_user}
use fastapi_template.Routes.{Caller, current_user}
use fastapi_template.Routes.Endpoints.{access, run, read_roles, list_tenants, anyone}
use fastapi_template.Routes.Endpoints.Tokens.{run-refuses, run-forbidden, run-superuser}
use fastapi_template.Cli.{sync_with_session}
use fastapi_template.Cli.Sync.{has, sync-idempotent, sync-returns}
use fastapi_template.Auth.GoogleOauth.{build_unique_username, find_or_create, local_part}
use fastapi_template.Auth.GoogleOauth.Usernames.{is_taken, build_unique_username-finds}
use fastapi_template.Auth.GoogleOauth.Accounts.{find_or_create-account, google_user, add_user}
use fastapi_template.Repositories.UserRepo
use fastapi_template.Repositories.PermissionRepo
use fastapi_template.Security.Identifier.{sanitize_identifier}
use fastapi_template.Auth.Token.{TokenPayload}
use fastapi_template.Prelude.Decimal.{str}
use fastapi_template.Examples.Codec.{libraries}
use fastapi_template.Examples.Grants.{world, loaded_ann, manager-AllExact, manager-synced}
use fastapi_template.Examples.Sessions.{
  ann_token, ann_minted, ann-IsWelcome, ann_decoded, ann_claims,
}

abbrev text : Error → String
text e = "text"

answer-technical_details_example :
    (is_unexpected integrity_error ≡ true)
      × ((answer {A = ℕ} text [] integrity_error).status ≡ 500)
      × (message_in (answer {A = ℕ} text [] integrity_error).content ≡ some "Internal Server Error")
      × (is_some (technical_details_in (answer {A = ℕ} text [] integrity_error).content) ≡ true)
    ⊎ (is_unexpected integrity_error ≡ false)
      × (technical_details_in (answer {A = ℕ} text [] integrity_error).content ≡ none)
answer-technical_details_example = answer-technical_details ℕ text [] integrity_error

abbrev first : Request
first = record {
  client = some "10.0.0.1";
  arrives = 3;
  leaves = 4;
  uuid = 1;
  request_id = "r1";
  outage = works;
  counts = true;
}

abbrev second : Request
second = record first { arrives = 5; leaves = 7; uuid = 2; request_id = "r2" }

abbrev page : Action (Response ℕ)
page = pure (record { status = 200; content = returned 5; headers = [] })

abbrev broken : Action (Response ℕ)
broken = raise integrity_error

abbrev in_words : ℕ → String
in_words n = "many"

abbrev server : Server
server = record { world = world; buckets = λ ip. empty_bucket }

serve-secured_example :
    lookup "x-frame-options" (serve text in_words first broken server).0.headers
    ≡ or_else
        (lookup "x-frame-options"
          (rate_limit_middleware text in_words first
            (logged text in_words first broken)
            server).0.headers)
        (some "DENY")
serve-secured_example =
    serve-secured text in_words first broken server "x-frame-options" "DENY"
      (unfold security_headers lookup in refl)

abbrev two_requests : List (Request × Action (Response ℕ))
two_requests = (first, page) ∷ (second, broken) ∷ []

serve_all-throttled_example :
    let (responses, s') = serve_all text in_words two_requests server in
    let (statuses, logs, w') = throttled two_requests no_logs world in
    (map (λ (x : Response ℕ). x.status) responses ≡ statuses)
    × (s'.world ≡ w')
    × ((ip : String) → recent_count limiter 9 (logs ip) ≤ limiter.requests)
serve_all-throttled_example =
    serve_all-throttled text in_words two_requests world 9 (refl, (refl, tt))
      (unfold well_timed any log_after filter in refl) (unfold all in refl)

-- Ann, a manager, with her token at two times.
abbrev ann_at : ℕ → Caller
ann_at now = record {
  lib = libraries;
  cache = empty_cache;
  now = now;
  token = ann_token;
  order_by_username = λ users. users;
}

read_roles-guarded : access (read_roles 0 10) ≢ anyone
unfolding access
read_roles-guarded h = cc

run-refuses_example : run (ann_at 20) (read_roles 0 10) world ≡ (some invalid_token, world)
run-refuses_example =
    run-refuses loaded_ann (ann_at 20) (read_roles 0 10) 5 "password" world world world
      invalid_token ann_minted (ground arith, tt) refl read_roles-guarded

run-forbidden_example : run (ann_at 6) (read_roles 0 10) world ≡ (some (http_exception 403), world)
run-forbidden_example =
    run-forbidden loaded_ann (ann_at 6) (read_roles 0 10) "role:read" 5 "password" world world world
      ann_minted (ground arith) ann-IsWelcome (ground arith, tt) manager-AllExact manager-synced
      (unfold access in refl) (unfold effective_permissions contains any in refl)

ann_authentic : authenticate libraries empty_cache 6 ann_token ≡ ok ann_claims
unfolding authenticate check_cache is_user_inactive is_tenant_inactive is_stale contains any lookup
ann_authentic =
    ap
      (λ (o : Option TokenPayload). elim o [
        | none ↦ err invalid_token
        | some payload ↦ check_cache empty_cache payload
      ])
      ann_decoded

ann_current : current_user (ann_at 6) world ≡ (ok loaded_ann, world)
unfolding get_current_user UserRepo.get_by_id_with_grants find filter contains any load_user
    load_role
ann_current =
    ap
      (λ (r : Result TokenPayload).
        (do
          payload ← lift r
          found ← UserRepo.get_by_id_with_grants payload.id
          or_raise found (user_not_found (by_id payload.id)))
          world)
      ann_authentic

run-superuser_example : run (ann_at 6) (list_tenants 0 10) world ≡ (some superuser_required, world)
run-superuser_example =
    run-superuser loaded_ann (ann_at 6) (list_tenants 0 10) world ann_current
      (unfold access in refl) refl

highest_id : List Permission → ℕ
highest_id [] = 0
highest_id (p ∷ ps) = max p.id (highest_id ps)

above : (n : ℕ) (ps : List Permission) → highest_id ps < n → all (λ p. not (p.id == n)) ps ≡ true
unfolding highest_id all
above n [] h = refl
above n (p ∷ ps) h = ground (arith, above n ps)

-- A key above those of the rows.
abbrev next_id : Db → ℕ
next_id db = highest_id db.permissions + 1

next_id-fresh : (db : Db) → all (λ p. not (p.id == next_id db)) db.permissions ≡ true
next_id-fresh db = above (next_id db) db.permissions (omega arith)

synced : all is_synced world.db.permissions ≡ true
unfolding all registry_get permission_registry lookup
synced = refl

sync_once : (sync_with_session next_id world).0 ≡ ok 17
unfolding sync_with_session permission_registry PermissionRepo.get_by_name find
    PermissionRepo.create_with_bit any highest_id
sync_once = refl

sync-returns_example :
    (n : ℕ) × ((sync_with_session next_id world).0 ≡ ok n)
    × (all (λ e. has e.0 e.1 (sync_with_session next_id world).1.db.permissions) permission_registry
        ≡ true)
sync-returns_example = sync-returns next_id next_id-fresh world synced

sync-idempotent_example :
    let w' = (sync_with_session next_id world).1 in
    (all (λ e. has e.0 e.1 w'.db.permissions) permission_registry ≡ true)
    × (sync_with_session next_id w' ≡ (ok 0, w'))
sync-idempotent_example = sync-idempotent next_id world 17 sync_once

build_unique_username-finds_example :
    (name : String) × (build_unique_username "ann@example.com" world ≡ (ok (some name), world))
    × (is_taken name world.db.users ≡ false)
build_unique_username-finds_example = build_unique_username-finds "ann@example.com" world

ann_second : build_unique_username "ann@example.com" world ≡ (ok (some "ann2"), world)
unfolding build_unique_username UserRepo.exists_by_username any sanitize_identifier local_part str
ann_second = refl

find_or_create-account_example :
    ((u : User) × (find (λ x. x.email == "eve@example.org") world.db.users ≡ some u)
      × (find_or_create 9 "eve@example.org" world ≡ (ok (u, false), world)))
    ⊎ ((name : String) × (is_taken name world.db.users ≡ false)
        × (find_or_create 9 "eve@example.org" world ≡ (
          ok (google_user 9 name "eve@example.org", true),
          add_user (google_user 9 name "eve@example.org") world,
        ))
        × (find
              (λ x. x.email == "eve@example.org")
              (add_user (google_user 9 name "eve@example.org") world).db.users
            ≡ some (google_user 9 name "eve@example.org")))
find_or_create-account_example =
    find_or_create-account 9 "eve@example.org" world (unfold any in refl)
