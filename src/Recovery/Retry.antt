-- ===== src/Recovery/Retry.antt =====
-- app/core/resilience/recovery.py: `async_retry`.
use fastapi_template.Prelude.{
  ℕ, zero, suc, ◌+◌, ◌*◌, ◌^◌, ◌≤◌, ◌<◌, min, ◌≡◌, refl, sym, ap, ◌∙◌, subst, ◌⊎◌, inl, inr, Bool,
  true, false, List, [], ◌∷◌, arith, leb, if◌then◌else◌, nat_eq, string_eq, option_eq,
}
use fastapi_template.Prelude.Lists.{length, all}

-- `RetryConfig`: times in ticks, and `backoff_factor` a whole number, as its default is. Which
-- exceptions are `retryable` is said by the outcome of a call.
pub record RetryConfig : Type 0 where
  pub max_retries : ℕ
  pub base_delay : ℕ
  pub max_delay : ℕ
  pub backoff_factor : ℕ
  pub jitter : Bool

-- How one call of `func` ends.
pub data Attempt (A E : Type 0) : Type 0 where
  returned : A → Attempt A E
  retryable : E → Attempt A E
  fatal : E → Attempt A E

unfoldable pub delay_for : RetryConfig → (ℕ → ℕ) → ℕ → ℕ
delay_for cfg uniform attempt =
    let delay = min (cfg.base_delay * cfg.backoff_factor ^ attempt) cfg.max_delay in
    if cfg.jitter then uniform delay else delay

-- The exception or the value at the end, and the delays slept on the way, one before each retry.
abbrev pub Outcome : Type 0 → Type 0 → Type 0
Outcome A E = (E ⊎ A) × List ℕ

module _ {A E : Type 0} (cfg : RetryConfig) (func : ℕ → Attempt A E) (uniform : ℕ → ℕ) where
  -- The loop from one attempt on, with `left` attempts after it: `left` is 0 where
  -- `attempt == max_retries`. `func attempt` is how that call ends, `uniform d` a draw from [0, d].
  unfoldable pub retry_from : ℕ → ℕ → Outcome A E
  unfolding delay_for
  retry_from attempt zero = elim (func attempt) [
    | returned a ↦ (inr a, [])
    | retryable e ↦ (inl e, [])
    | fatal e ↦ (inl e, [])
  ]
  retry_from attempt (suc left) = elim (func attempt) [
    | returned a ↦ (inr a, [])
    | retryable e ↦
        let (result, delays) = retry_from (attempt + 1) left in
        (result, delay_for cfg uniform attempt ∷ delays)
    | fatal e ↦ (inl e, [])
  ]

  unfoldable pub async_retry : Outcome A E
  unfolding retry_from
  async_retry = retry_from 0 cfg.max_retries

  -- An exception that ends the loop at once.
  abbrev pub is_retryable : Attempt A E → Bool
  is_retryable (returned a) = false
  is_retryable (retryable e) = true
  is_retryable (fatal e) = false

  abbrev pub result_of : Attempt A E → E ⊎ A
  result_of (returned a) = inr a
  result_of (retryable e) = inl e
  result_of (fatal e) = inl e

  -- What a run from `attempt` on, with `left` retries at most, ended with.
  pub record Ended (attempt left : ℕ) (out : Outcome A E) : Type 0 where
    -- the retries
    pub few : length out.1 ≤ left
    -- the result is that of the last call
    pub last : out.0 ≡ result_of (func (attempt + length out.1))
    -- the calls before it raised an exception that allows a retry
    pub before : (k : ℕ) → k < length out.1 → is_retryable (func (attempt + k)) ≡ true
    -- the last did so only where no retry was left
    pub gave_up : is_retryable (func (attempt + length out.1)) ≡ true → length out.1 ≡ left

  retry_from-stops :
      (o : Attempt A E) (attempt left : ℕ)
      → is_retryable o ≡ false
      → func attempt ≡ o
      → retry_from attempt left ≡ (result_of o, [])
  unfolding retry_from
  retry_from-stops (returned a) attempt zero final h = ground (arith, h)
  retry_from-stops (returned a) attempt (suc left) final h = ground (arith, h)
  retry_from-stops (retryable e) attempt left final h = ground arith
  retry_from-stops (fatal e) attempt zero final h = ground (arith, h)
  retry_from-stops (fatal e) attempt (suc left) final h = ground (arith, h)

  Attempt-cases : (o : Attempt A E) → ((e : E) × (o ≡ retryable e)) ⊎ (is_retryable o ≡ false)
  Attempt-cases (returned a) = inr refl
  Attempt-cases (retryable e) = inl (e, refl)
  Attempt-cases (fatal e) = inr refl

  Ended-at_once :
      (attempt left : ℕ)
      → (is_retryable (func attempt) ≡ true → left ≡ 0)
      → Ended attempt left (result_of (func attempt), [])
  Ended-at_once attempt left h =
      let here : func attempt ≡ func (attempt + 0) = ap func (ground arith) in
      record {
        few = ground arith;
        last = ap result_of here;
        before = λ k lt. ground arith;
        gave_up = λ r. sym (h (ap is_retryable here ∙ r));
      }

  Ended-later :
      (attempt left : ℕ) (out : Outcome A E) (d : ℕ)
      → is_retryable (func attempt) ≡ true
      → Ended (attempt + 1) left out
      → Ended attempt (suc left) (out.0, d ∷ out.1)
  Ended-later attempt left out d r h =
      let there : func (attempt + 1 + length out.1) ≡ func (attempt + suc (length out.1)) =
        ap func (ground arith) in
      record {
        few = ground (arith, h.few);
        last = h.last ∙ ap result_of there;
        before = λ k.
            elim k as (λ k. k < suc (length out.1) → is_retryable (func (attempt + k)) ≡ true) [
              | zero ↦ λ lt. ap is_retryable (ap func (ground arith)) ∙ r
              | suc n ↦ λ lt. ap is_retryable (ap func (ground arith)) ∙ h.before n (ground arith)
            ];
        gave_up = λ r'. ap suc (h.gave_up (ap is_retryable there ∙ r'));
      }

  retry_from-Ended : (attempt left : ℕ) → Ended attempt left (retry_from attempt left)
  unfolding retry_from
  retry_from-Ended attempt zero = elim (Attempt-cases (func attempt)) [
    | inr final ↦
        subst (Ended attempt 0) (sym (retry_from-stops (func attempt) attempt 0 final refl))
          (Ended-at_once attempt 0 (λ r. refl))
    | inl (e, again) ↦
        subst (Ended attempt 0) (ground (arith, again)) (Ended-at_once attempt 0 (λ r. refl))
  ]
  retry_from-Ended attempt (suc left) = elim (Attempt-cases (func attempt)) [
    | inr final ↦
        subst (Ended attempt (suc left))
          (sym (retry_from-stops (func attempt) attempt (suc left) final refl))
          (Ended-at_once attempt (suc left) (λ r. ground (arith, final)))
    | inl (e, again) ↦ subst (Ended attempt (suc left)) (ground (arith, again)) (
        Ended-later attempt left (retry_from (attempt + 1) left) (delay_for cfg uniform attempt)
          (ap is_retryable again) (retry_from-Ended (attempt + 1) left))
  ]

  -- `async_retry` calls `func` at most `max_retries + 1` times and gives the outcome of the last call;
  -- each call before it raised a retryable exception, and the last did so only where all the retries
  -- were used. It sleeps once before each retry.
  pub async_retry-Ended : Ended 0 cfg.max_retries async_retry
  unfolding async_retry
  async_retry-Ended = retry_from-Ended 0 cfg.max_retries

  delays-from :
      (attempt left : ℕ)
      → ((d : ℕ) → uniform d ≤ d)
      → all (λ d. leb d cfg.max_delay) (retry_from attempt left).1 ≡ true
  unfolding retry_from all delay_for
  delays-from attempt zero h = elim (Attempt-cases (func attempt)) [
    | inr final ↦ ground (arith, retry_from-stops (func attempt) attempt 0 final refl)
    | inl (e, again) ↦ ground (arith, again)
  ]
  delays-from attempt (suc left) h = elim (Attempt-cases (func attempt)) [
    | inr final ↦ ground (arith, retry_from-stops (func attempt) attempt (suc left) final refl)
    | inl (e, again) ↦ ground (
      arith,
      again,
      delays-from (attempt + 1) left h,
      h (min (cfg.base_delay * cfg.backoff_factor ^ attempt) cfg.max_delay),
    )
  ]

  -- No delay is longer than `max_delay`, where a draw from [0, d] is at most d.
  async_retry-delays :
      ((d : ℕ) → uniform d ≤ d) → all (λ d. leb d cfg.max_delay) async_retry.1 ≡ true
  unfolding async_retry
  async_retry-delays h = delays-from 0 cfg.max_retries h
