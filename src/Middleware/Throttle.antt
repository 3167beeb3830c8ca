-- ===== src/Middleware/Throttle.antt =====
-- A reference for the stack that keeps, for every client, a log of the requests it ever admitted.
pub mod Keys
pub mod Runs
use fastapi_template.Prelude.{
  ℕ, String, ◌≤◌, ◌+◌, suc, ◌≡◌, refl, sym, ◌∙◌, Bool, true, false, ◌&&◌, ◌||◌, not, ◌⊎◌, inl, inr,
  Option, none, some, List, [], ◌∷◌, ◌++◌, map, if◌then◌else◌, ◌==◌, nat_eq, string_eq, arith,
  is_some, ap, beq_refl, Bool-cases, Option-cases, subst, leb,
}
use fastapi_template.Prelude.Lists.{lookup, all, any, filter, length}
use mathlib.Core.Path.{ap₂}
use fastapi_template.Error.{Error, ok, err, rate_limit}
use fastapi_template.World.{World, Action, Link, link_eq}
use fastapi_template.Http.{Headers, Response, create_exception_handler, create_global_handler}
use fastapi_template.RateLimit.SlidingWindow.{
  Bucket, Outage, works, limiter, Limiter, Entry, empty_bucket, is_allowed, get_remaining, live,
  zremrangebyscore, is_recent,
}
use fastapi_template.RateLimit.SlidingWindow.Log.{
  Call, Agrees, log_allows, log_after, recent_count, all-past, filter-filter_recent,
}
use fastapi_template.RateLimit.SlidingWindow.Refines.{answer-eq, Agrees-after}
use fastapi_template.RateLimit.SlidingWindow.Runs.{recent_count-log_after, Agrees-empty}
use fastapi_template.Middleware.{
  serve, serve_all, rate_limit_middleware, pass_on, logged, logger_middleware, Request, Server,
  security_headers_middleware, client_ip, set_bucket,
}

abbrev pub Logs : Type 0
Logs = String → List Entry

abbrev pub no_logs : Logs
no_logs ip = []

abbrev pub call : Request → Call
call r = (r.arrives, r.uuid)

abbrev pub admits : Logs → Request → Bool
admits logs r = log_allows limiter (logs (client_ip r)) (call r)

abbrev pub logs_after : Logs → Request → Logs
logs_after logs r j = if client_ip r == j then log_after limiter (logs j) (call r) else logs j

module _ {A : Type 0} where
  -- What the caller is told of a call, and what the call leaves behind.
  abbrev pub status_of_call : Action (Response A) → World → ℕ × World
  status_of_call call_next w =
      let (result, w') = call_next w in
      (elim result [ ok response ↦ response.status | err e ↦ 500 ], w')

  -- The requests of all clients in the order in which they are served.
  unfoldable pub throttled :
      List (Request × Action (Response A)) → Logs → World → List ℕ × Logs × World
  throttled [] logs w = ([], logs, w)
  throttled ((r, call_next) ∷ rs) logs w =
      let (status, w') = if admits logs r then status_of_call call_next w else (429, w) in
      let (statuses, logs', w'') = throttled rs (logs_after logs r) w' in
      (status ∷ statuses, logs', w'')

  -- Redis answers the limiter, time does not go back, and no request repeats a member of its client's
  -- log.
  unfoldable pub well_timed : ℕ → Logs → List (Request × Action (Response A)) → Bool
  well_timed t logs [] = true
  well_timed t logs ((r, call_next) ∷ rs) =
      leb t r.arrives
      && leb r.arrives r.leaves
      && not (any (λ e. e.member == call r) (logs (client_ip r)))
      && well_timed r.leaves (logs_after logs r) rs

  abbrev pub AllWork : List (Request × Action (Response A)) → Type 0
  AllWork [] = Unit
  AllWork ((r, call_next) ∷ rs) = (r.outage ≡ works) × AllWork rs
