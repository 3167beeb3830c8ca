-- ===== src/Middleware/Throttle/Runs.antt =====
-- The stack against the reference, request by request.
use fastapi_template.Prelude.{
  ℕ, String, ◌≤◌, ◌≡◌, refl, ◌∙◌, true, false, inl, inr, List, [], ◌∷◌, map, if◌then◌else◌, ◌==◌,
  nat_eq, string_eq, arith, ap, beq_refl, Bool-cases, subst, leb,
}
use fastapi_template.Prelude.Lists.{all, any, filter}
use mathlib.Core.Path.{ap₂}
use fastapi_template.Error.{Error}
use fastapi_template.World.{World, Action, link_eq}
use fastapi_template.Http.{Response, create_exception_handler, create_global_handler}
use fastapi_template.RateLimit.SlidingWindow.{works, limiter, empty_bucket, is_allowed}
use fastapi_template.RateLimit.SlidingWindow.Log.{Agrees, log_after, recent_count}
use fastapi_template.RateLimit.SlidingWindow.Refines.{answer-eq}
use fastapi_template.RateLimit.SlidingWindow.Runs.{recent_count-log_after, Agrees-empty}
use fastapi_template.Middleware.{
  serve, serve_all, rate_limit_middleware, pass_on, logger_middleware, Request, Server,
  security_headers_middleware, client_ip,
}
use fastapi_template.Middleware.Throttle.{
  Logs, no_logs, call, admits, logs_after, status_of_call, throttled, well_timed, AllWork,
}
use fastapi_template.Middleware.Throttle.Keys.{key_after, key_after-Agrees, Agrees-later}

module _ {A : Type 0} (text : Error → String) (str : ℕ → String) where
  served : Request → Action (Response A) → Server → ℕ × World
  served r call_next s =
      let (response, s') = serve text str r call_next s in (response.status, s'.world)

  served-refused :
      (r : Request) (call_next : Action (Response A)) (s : Server)
      → (is_allowed limiter r.outage r.arrives r.uuid (s.buckets (client_ip r))).0 ≡ false
      → served r call_next s ≡ (429, s.world)
  unfolding served serve rate_limit_middleware security_headers_middleware create_exception_handler
  served-refused r call_next s h = ground arith

  served-admitted :
      (r : Request) (call_next : Action (Response A)) (s : Server)
      → (is_allowed limiter r.outage r.arrives r.uuid (s.buckets (client_ip r))).0 ≡ true
      → served r call_next s ≡ status_of_call call_next s.world
  unfolding served serve rate_limit_middleware pass_on security_headers_middleware logger_middleware
      create_global_handler
  served-admitted r call_next s h = ground arith

  -- Of one request.
  served-eq :
      (r : Request) (call_next : Action (Response A)) (s : Server) (logs : Logs) (t : ℕ)
      → r.outage ≡ works
      → Agrees limiter t (logs (client_ip r)) (s.buckets (client_ip r))
      → t ≤ r.arrives
      → any (λ e. e.member == call r) (logs (client_ip r)) ≡ false
      → served r call_next s
        ≡ (if admits logs r then status_of_call call_next s.world else (429, s.world))
  served-eq r call_next s logs t up h le new =
      let log = logs (client_ip r) in
      let b = s.buckets (client_ip r) in
      let answer : (is_allowed limiter r.outage r.arrives r.uuid b).0 ≡ admits logs r =
        rw up (answer-eq limiter t log b (call r) h le new) in
      elim (Bool-cases (admits logs r)) [
        | inl yes' ↦ rw yes' (served-admitted r call_next s (answer ∙ yes'))
        | inr no' ↦ rw no' (served-refused r call_next s (answer ∙ no'))
      ]

  serve-buckets :
      (r : Request) (call_next : Action (Response A)) (s : Server) (j : String)
      → (serve text str r call_next s).1.buckets j
        ≡ (if client_ip r == j then key_after r s else s.buckets j)
  unfolding serve rate_limit_middleware pass_on key_after logger_middleware
  serve-buckets r call_next s j = ground (arith, beq_refl (client_ip r))

  serve-Agrees :
      (r : Request) (call_next : Action (Response A)) (s : Server) (logs : Logs) (t : ℕ)
      → r.outage ≡ works
      → ((j : String) → Agrees limiter t (logs j) (s.buckets j))
      → t ≤ r.arrives
      → r.arrives ≤ r.leaves
      → any (λ e. e.member == call r) (logs (client_ip r)) ≡ false
      → (j : String)
      → Agrees limiter r.leaves (logs_after logs r j) ((serve text str r call_next s).1.buckets j)
  serve-Agrees r call_next s logs t up h le le' new j =
      rw (serve-buckets r call_next s j) (elim (Bool-cases (client_ip r == j)) [
        | inl same ↦
            let e = (string_eq.beq_iff (client_ip r) j).0 same in
            subst
              (λ k.
                Agrees limiter r.leaves
                  (if client_ip r == k then log_after limiter (logs k) (call r) else logs k)
                  (if client_ip r == k then key_after r s else s.buckets k))
              e
              (rw (beq_refl (client_ip r))
                (key_after-Agrees r s (logs (client_ip r)) t up (h (client_ip r)) le le' new))
        | inr other ↦
            rw other (Agrees-later limiter t r.leaves (logs j) (s.buckets j) (h j) (ground arith))
      ])

  run-throttled :
      (rs : List (Request × Action (Response A))) (s : Server) (logs : Logs) (t : ℕ)
      → AllWork rs
      → well_timed t logs rs ≡ true
      → ((j : String) → Agrees limiter t (logs j) (s.buckets j))
      → (map (λ (x : Response A). x.status) (serve_all text str rs s).0
          ≡ (throttled rs logs s.world).0)
        × ((serve_all text str rs s).1.world ≡ (throttled rs logs s.world).2)
  unfolding serve_all throttled well_timed served serve
  run-throttled [] s logs t up times h = (refl, refl)
  run-throttled ((r, call_next) ∷ rs) s logs t up times h =
      let le : t ≤ r.arrives = ground arith in
      let le' : r.arrives ≤ r.leaves = ground arith in
      let new : any (λ e. e.member == call r) (logs (client_ip r)) ≡ false = ground arith in
      let rest_times : well_timed r.leaves (logs_after logs r) rs ≡ true = ground arith in
      let step = served-eq r call_next s logs t up.0 (h (client_ip r)) le new in
      let s' = (serve text str r call_next s).1 in
      let ih =
        run-throttled rs s' (logs_after logs r) r.leaves up.1 rest_times
          (serve-Agrees r call_next s logs t up.0 h le le' new) in
      let told = ap (λ (x : ℕ × World). x.0) step in
      let left = ap (λ (x : ℕ × World). x.1) step in
      (
        ap₂ (λ x xs. x ∷ xs) told (ih.0 ∙ ap (λ w. (throttled rs (logs_after logs r) w).0) left),
        ih.1 ∙ ap (λ w. (throttled rs (logs_after logs r) w).2) left,
      )

  throttled-bounded :
      (rs : List (Request × Action (Response A))) (w : World) (logs : Logs) (t now : ℕ)
      (ip : String)
      → well_timed t logs rs ≡ true
      → ((later : ℕ) → t ≤ later → recent_count limiter later (logs ip) ≤ limiter.requests)
      → t ≤ now
      → all (λ (x : Request × Action (Response A)). leb x.0.leaves now) rs ≡ true
      → recent_count limiter now ((throttled rs logs w).1 ip) ≤ limiter.requests
  unfolding throttled well_timed all
  throttled-bounded [] w logs t now ip times h le upto = h now le
  throttled-bounded ((r, call_next) ∷ rs) w logs t now ip times h le upto =
      throttled-bounded rs (if admits logs r then status_of_call call_next w else (429, w)).1
        (logs_after logs r) r.leaves now ip (ground arith)
        (λ later le'. elim (Bool-cases (client_ip r == ip)) [
          | inl same ↦ rw same (
              recent_count-log_after limiter t later (logs ip) (call r) h (ground arith)
                (ground arith))
          | inr other ↦ rw other (h later (ground arith))
        ])
        (ground arith) (ground arith)

  pub serve_all-throttled :
      (rs : List (Request × Action (Response A))) (w : World) (now : ℕ)
      → AllWork rs
      → well_timed 0 no_logs rs ≡ true
      → all (λ (x : Request × Action (Response A)). leb x.0.leaves now) rs ≡ true
      → let s : Server = record { world = w; buckets = λ ip. empty_bucket } in
        let (responses, s') = serve_all text str rs s in
        let (statuses, logs, w') = throttled rs no_logs w in
        (map (λ (x : Response A). x.status) responses ≡ statuses)
        × (s'.world ≡ w')
        × ((ip : String) → recent_count limiter now (logs ip) ≤ limiter.requests)
  unfolding filter
  serve_all-throttled rs w now up times upto =
      let s : Server = record { world = w; buckets = λ ip. empty_bucket } in
      let (statuses, left) = run-throttled rs s no_logs 0 up times (λ j. Agrees-empty limiter) in
      (
        statuses,
        left,
        λ ip.
            throttled-bounded rs w no_logs 0 now ip times (λ later le. ground arith) (ground arith)
              upto,
      )
