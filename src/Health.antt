-- ===== src/Health.antt =====
-- app/core/health.py and app/api/v1/routes/health.py. What a ping raises, as text, and the clock are
-- arguments.
use fastapi_template.Prelude.{
  ℕ, ◌-◌, String, ◌≡◌, ◌↔◌, Bool, true, false, not, ◌&&◌, ◌||◌, Option, none, some, List, [], ◌∷◌,
  ◌++◌, if◌then◌else◌, ◌==◌, string_eq, arith, is_some, ap, sym, ◌∙◌, subst,
}
use fastapi_template.Prelude.Lists.{any, all}

-- The start and the end of a ping, and what it raises if it raises.
pub record Ping : Type 0 where
  pub start : ℕ
  pub stop : ℕ
  pub raised : Option String

pub record HealthStatus : Type 0 where
  pub healthy : Bool
  pub service : String
  pub latency_ms : ℕ
  pub status_detail : String

pub record HealthReport : Type 0 where
  pub status : String
  pub checks : List HealthStatus

-- `check_db` and `check_redis`, which differ in the name of the service.
unfoldable pub check : String → Ping → HealthStatus
check service ping = elim ping.raised [
  | none ↦ record {
    healthy = true;
    service = service;
    latency_ms = ping.stop - ping.start;
    status_detail = "OK";
  }
  | some text ↦ record {
    healthy = false;
    service = service;
    latency_ms = ping.stop - ping.start;
    status_detail = text;
  }
]

abbrev pub checked : String → Option Ping → List HealthStatus
checked service none = []
checked service (some ping) = check service ping ∷ []

unfoldable pub aggregate : List HealthStatus → String
aggregate [] = "healthy"
aggregate (c ∷ checks) =
    if all (λ (x : HealthStatus). x.healthy) (c ∷ checks)
    then "healthy"
    else if any (λ (x : HealthStatus). x.healthy) (c ∷ checks)
    then "degraded"
    else "unhealthy"

-- A database or a Redis that is None is not checked.
unfoldable pub run_all_checks : Option Ping → Option Ping → HealthReport
unfolding check aggregate
run_all_checks db redis =
    let checks = checked "database" db ++ checked "redis" redis in
    record { status = aggregate checks; checks = checks }

-- The statuses of the answers of `liveness`, `health_check` and `readiness`.
unfoldable pub liveness : ℕ
liveness = 200

unfoldable pub health_check : Ping → Ping → ℕ × HealthReport
unfolding run_all_checks
health_check db redis = (200, run_all_checks (some db) (some redis))

unfoldable pub readiness : Ping → Ping → ℕ × HealthReport
unfolding run_all_checks
readiness db redis =
    let report = run_all_checks (some db) (some redis) in
    (if report.status == "unhealthy" then 503 else 200, report)

check-healthy :
    (service : String) (ping : Ping) → (check service ping).healthy ≡ not (is_some ping.raised)
unfolding check
check-healthy service ping = ground arith

ready_status : Bool → Bool → ℕ
ready_status a b =
    let status : String =
      if a && (b && true)
      then "healthy"
      else if a || (b || false)
      then "degraded"
      else "unhealthy" in
    if status == "unhealthy" then 503 else 200

ready_status-fails : (a b : Bool) → (ready_status (not a) (not b) ≡ 503) ↔ ((a && b) ≡ true)
unfolding ready_status
ready_status-fails true true = ground arith
ready_status-fails true false = ground arith
ready_status-fails false true = ground arith
ready_status-fails false false = ground arith

-- The readiness probe fails exactly when both the database and Redis fail.
pub readiness-fails :
    (db redis : Ping)
    → ((readiness db redis).0 ≡ 503) ↔ ((is_some db.raised && is_some redis.raised) ≡ true)
unfolding readiness all any ready_status
readiness-fails db redis =
    subst (λ n. (n ≡ 503) ↔ ((is_some db.raised && is_some redis.raised) ≡ true))
      (sym (ap (λ b. ready_status b (not (is_some redis.raised))) (check-healthy "database" db))
        ∙ sym
            (ap (λ b. ready_status (check "database" db).healthy b) (check-healthy "redis" redis)))
      (ready_status-fails (is_some db.raised) (is_some redis.raised))
