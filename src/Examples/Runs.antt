-- ===== src/Examples/Runs.antt =====
-- The limiter, the breaker, the retry, the masks and the cache on small inputs.
use fastapi_template.Prelude.{
  ℕ, ◌≤◌, bit_and, String, ◌≡◌, refl, inl, inr, true, false, none, some, List, [], ◌∷◌, arith, ltb,
  if◌then◌else◌, nat_eq, string_eq, option_eq,
}
use fastapi_template.Prelude.Lists.{any, all, filter, contains, lookup}
use fastapi_template.RateLimit.SlidingWindow.{Limiter, empty_bucket}
use fastapi_template.RateLimit.SlidingWindow.Log.{Call, run, log_run, recent_count, ordered, unused}
use fastapi_template.RateLimit.SlidingWindow.Runs.{admitted, run-eq-log_run, run-bounded}
use fastapi_template.Recovery.Breaker.{
  Config, new_breaker, enter, call, Reach, Shared, start, next, enters, fails, below, failing_run,
  failing_run-opens, failing_run-reopens, Reach-below, circuit_open, raised, record_failure, opened,
}
use fastapi_template.Recovery.Retry
use fastapi_template.Recovery.Retry.{RetryConfig, Attempt, async_retry, async_retry-Ended}
use fastapi_template.Error.{ok, err, unknown_permission, by_name}
use fastapi_template.Prelude.Bits.{test_bit}
use fastapi_template.Rbac.Mask.{
  Text, Bytes, mask_to_hex, hex_to_mask, process_bind_param, process_result_value,
}
use fastapi_template.Rbac.Mask.RoundTrip.{hex_to_mask-mask_to_hex, process_result_value-bind_param}
use fastapi_template.Rbac.Registry.{
  permission_registry, mask_for, names_for_mask, full_mask, expand_implied, registry_get,
  expand_run,
}
use fastapi_template.Rbac.Registry.Catalog.{
  mask_for_lem, mask_for-names_for_mask, mask_for-unknown, all_known,
}
use fastapi_template.Rbac.Registry.Expansion.{expand_implied-least, IsClosed}

-- Two requests in ten ticks.
abbrev two : Limiter
two = record { requests = 2; window = 10 }

-- Four requests, the third too many and the fourth late enough.
abbrev calls : List Call
calls = (1, 1) ∷ (2, 2) ∷ (5, 3) ∷ (11, 4) ∷ []

run-calls : run two empty_bucket calls ≡ true ∷ true ∷ false ∷ true ∷ []
unfolding run filter
run-calls = refl

run-eq-log_run_example : run two empty_bucket calls ≡ log_run two [] calls
run-eq-log_run_example =
    run-eq-log_run two calls (unfold ordered in refl) (unfold unused any in refl)

run-bounded_example : recent_count two 11 (admitted calls (run two empty_bucket calls)) ≤ 2
run-bounded_example =
    run-bounded two calls 11 (unfold ordered in refl) (unfold unused any in refl)
      (unfold all in refl)

-- A breaker that trips at the second failure.
abbrev config : Config
config = record { failure_threshold = 2; recovery_timeout = 30; half_open_max = 1 }

abbrev no_call : Shared
no_call = record { breaker = new_breaker; waiting = 0 }

abbrev one_call : Shared
one_call = record { breaker = new_breaker; waiting = 1 }

one_failure : Reach config (record { breaker = record_failure config 5 new_breaker; waiting = 0 })
one_failure =
    next (next start (enters no_call 3 new_breaker (unfold enter in refl)))
      (fails one_call 5 0 refl)

Reach-below_example : below config (record_failure config 5 new_breaker) ≡ true
Reach-below_example = Reach-below config one_failure (ground arith)

failing_run-opens_example :
    let b = failing_run config ((1, 2) ∷ (3, 4) ∷ []) new_breaker in
    call {A = ℕ} {E = String} config 20 21 (inr 7) b ≡ (circuit_open, b)
failing_run-opens_example =
    failing_run-opens {A = ℕ} {E = String} config ((1, 2) ∷ []) (3, 4) 20 21 (inr 7) refl
      (ground arith)

failing_run-reopens_example :
    let again =
      call {A = ℕ} {E = String} config 34 36
        (inl "down")
        (failing_run config ((1, 2) ∷ (3, 4) ∷ []) new_breaker) in
    (again.0 ≡ raised "down") × (again.1.state ≡ opened) × (again.1.open_until ≡ 66)
failing_run-reopens_example =
    failing_run-reopens {A = ℕ} {E = String} config ((1, 2) ∷ []) (3, 4) 34 36 "down" refl
      (ground arith)

abbrev retry_config : RetryConfig
retry_config = record {
  max_retries = 3;
  base_delay = 1;
  max_delay = 5;
  backoff_factor = 2;
  jitter = false;
}

-- The third call succeeds.
abbrev flaky : ℕ → Attempt ℕ String
flaky n = if ltb n 2 then Retry.retryable "again" else Retry.returned n

retry_flaky : async_retry retry_config flaky (λ d. d) ≡ (inr 2, 1 ∷ 2 ∷ [])
unfolding async_retry
retry_flaky = refl

async_retry-Ended_example :
    Retry.Ended retry_config flaky (λ d. d) 0 3 (async_retry retry_config flaky (λ d. d))
async_retry-Ended_example = async_retry-Ended retry_config flaky (λ d. d)

hex_to_mask-mask_to_hex_example :
    (s : Text) × (mask_to_hex (some 5) ≡ ok s) × (hex_to_mask (some s) ≡ ok 5)
hex_to_mask-mask_to_hex_example = hex_to_mask-mask_to_hex 5 (ground arith)

process_result_value-bind_param_example :
    (bs : Bytes) × (process_bind_param (some 300) ≡ ok bs) × (process_result_value (some bs) ≡ 300)
process_result_value-bind_param_example = process_result_value-bind_param 300 (ground arith)

mask_for-names_for_mask_example : mask_for (names_for_mask 5) ≡ ok (bit_and 5 full_mask)
mask_for-names_for_mask_example = mask_for-names_for_mask 5

role_read_known : all_known ("role:read" ∷ []) ≡ true
unfolding all registry_get permission_registry lookup
role_read_known = refl

role_read_bit : registry_get "role:read" ≡ some 1
unfolding registry_get permission_registry lookup
role_read_bit = refl

mask_for_lem_example :
    (m : ℕ) × (mask_for ("role:read" ∷ []) ≡ ok m)
    × (test_bit m 1 ≡ contains {A = String} "role:read" ("role:read" ∷ []))
mask_for_lem_example = mask_for_lem ("role:read" ∷ []) "role:read" 1 role_read_known role_read_bit

role_fly_unknown : all_known ("role:fly" ∷ []) ≡ false
unfolding all registry_get permission_registry lookup
role_fly_unknown = refl

mask_for-unknown_example :
    (name : String) × (mask_for ("role:fly" ∷ []) ≡ err (unknown_permission (by_name name)))
    × (contains name ("role:fly" ∷ []) ≡ true)
    × (registry_get name ≡ none)
mask_for-unknown_example = mask_for-unknown ("role:fly" ∷ []) role_fly_unknown

expand_implied-least_example :
    ((expand_run ("role:update" ∷ [])).next ≡ [])
    × ((x : String)
        → contains x ("role:update" ∷ []) ≡ true
        → contains x (expand_implied ("role:update" ∷ [])) ≡ true)
    × IsClosed (expand_implied ("role:update" ∷ []))
    × ((s : List String)
        → ((x : String) → contains x ("role:update" ∷ []) ≡ true → contains x s ≡ true)
        → IsClosed s
        → (x : String) → contains x (expand_implied ("role:update" ∷ [])) ≡ true
        → contains x s ≡ true)
expand_implied-least_example = expand_implied-least ("role:update" ∷ [])
