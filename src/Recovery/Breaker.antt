-- ===== src/Recovery/Breaker.antt =====
-- app/core/resilience/recovery.py: `CircuitBreaker`, whose calls may overlap.
use fastapi_template.Prelude.{
  ℕ, suc, ◌+◌, ◌≤◌, ◌<◌, ◌≡◌, refl, ◌⊎◌, inl, inr, Bool, true, false, ◌||◌, not, Option, none, some,
  List, [], ◌∷◌, ◌++◌, arith, ltb, leb, if◌then◌else◌, nat_eq, string_eq, option_eq,
}
use fastapi_template.Prelude.Lists.{length}

pub data State : Type 0 where
  closed : State
  opened : State
  half_open : State

-- Durations and points in time are numbers of ticks. `half_open_max` is read nowhere in the class.
pub record Config : Type 0 where
  pub failure_threshold : ℕ
  pub recovery_timeout : ℕ
  pub half_open_max : ℕ

pub record Breaker : Type 0 where
  pub state : State
  pub failure_count : ℕ
  pub last_failure_time : ℕ
  pub open_until : ℕ

-- `CircuitBreaker.__init__`
abbrev pub new_breaker : Breaker
new_breaker = record { state = closed; failure_count = 0; last_failure_time = 0; open_until = 0 }

-- The first block of `call`: none where it raises `CircuitOpenError`.
unfoldable pub enter : ℕ → Breaker → Option Breaker
enter now b = elim b.state [
  | closed ↦ some b
  | half_open ↦ some b
  | opened ↦ if leb b.open_until now then some (record b { state = half_open }) else none
]

-- `_state == HALF_OPEN or (_state == CLOSED and _failure_count >= failure_threshold)`
abbrev pub trips : Config → State → ℕ → Bool
trips cfg closed count = leb cfg.failure_threshold count
trips cfg opened count = false
trips cfg half_open count = true

unfoldable pub record_failure : Config → ℕ → Breaker → Breaker
record_failure cfg now b =
    let count = b.failure_count + 1 in
    let counted = record b { failure_count = count; last_failure_time = now } in
    if trips cfg b.state count
    then record counted { state = opened; open_until = now + cfg.recovery_timeout }
    else counted

unfoldable pub record_success : Breaker → Breaker
record_success b = record b { state = closed; failure_count = 0 }

-- What a call gives: the exception of the breaker, or that of `func`, or its result.
pub data Outcome (A E : Type 0) : Type 0 where
  circuit_open : Outcome A E
  raised : E → Outcome A E
  returned : A → Outcome A E

-- `call` with nothing else running; `func` ends at `done`.
unfoldable pub call : {A E : Type 0} → Config → ℕ → ℕ → E ⊎ A → Breaker → Outcome A E × Breaker
unfolding enter record_failure record_success
call cfg now done func b = elim (enter now b) [
  | none ↦ (circuit_open, b)
  | some b' ↦ elim func [
    | inl e ↦ (raised e, record_failure cfg done b')
    | inr a ↦ (returned a, record_success b')
  ]
]

-- The breaker and the number of calls that wait for `func`.
pub record Shared : Type 0 where
  pub breaker : Breaker
  pub waiting : ℕ

-- The lock makes each of the three blocks one step; calls overlap between them.
pub data Step (cfg : Config) : Shared → Shared → Type 0 where
  enters :
      (s : Shared) (now : ℕ) (b : Breaker)
      → enter now s.breaker ≡ some b
      → Step cfg s (record { breaker = b; waiting = suc s.waiting })
  fails :
      (s : Shared) (now n : ℕ)
      → s.waiting ≡ suc n
      → Step cfg s (record { breaker = record_failure cfg now s.breaker; waiting = n })
  succeeds :
      (s : Shared) (n : ℕ)
      → s.waiting ≡ suc n
      → Step cfg s (record { breaker = record_success s.breaker; waiting = n })

pub data Reach (cfg : Config) : Shared → Type 0 where
  start : Reach cfg (record { breaker = new_breaker; waiting = 0 })
  next : {s t : Shared} → Reach cfg s → Step cfg s t → Reach cfg t

is_closed : State → Bool
is_closed closed = true
is_closed opened = false
is_closed half_open = false

-- A closed breaker is below its threshold.
pub below : Config → Breaker → Bool
unfolding is_closed
below cfg b = not (is_closed b.state) || ltb b.failure_count cfg.failure_threshold

pub State-cases : (s : State) → (s ≡ closed) ⊎ ((s ≡ opened) ⊎ (s ≡ half_open))
State-cases closed = inl refl
State-cases opened = inr (inl refl)
State-cases half_open = inr (inr refl)

below-enter :
    (cfg : Config) (now : ℕ) (b b' : Breaker)
    → enter now b ≡ some b'
    → below cfg b ≡ true
    → below cfg b' ≡ true
unfolding enter below is_closed
below-enter cfg now b b' h ok = elim (State-cases b.state) [
  | inl s ↦ ground (arith, s)
  | inr (inl s) ↦ ground (arith, s)
  | inr (inr s) ↦ ground (arith, s)
]

below-record_failure :
    (cfg : Config) (now : ℕ) (b : Breaker)
    → below cfg b ≡ true
    → below cfg (record_failure cfg now b) ≡ true
unfolding record_failure below is_closed
below-record_failure cfg now b h = ground arith

below-Step :
    (cfg : Config) {s t : Shared}
    → Step cfg s t
    → below cfg s.breaker ≡ true
    → 1 ≤ cfg.failure_threshold
    → below cfg t.breaker ≡ true
below-Step cfg (enters s now b e) h one = below-enter cfg now s.breaker b e h
below-Step cfg (fails s now n e) h one = below-record_failure cfg now s.breaker h
below-Step cfg (succeeds s n e) h one = unfold below is_closed record_success in ground arith

-- However calls overlap, a closed breaker has counted fewer failures than its threshold, where the
-- threshold is at least one.
pub Reach-below :
    (cfg : Config) {s : Shared}
    → Reach cfg s
    → 1 ≤ cfg.failure_threshold
    → below cfg s.breaker ≡ true
Reach-below cfg start h = unfold below is_closed in ground arith
Reach-below cfg (next r st) h = below-Step cfg st (Reach-below cfg r h) h

-- Calls that fail, one after the other, each with the time it starts and the time it ends.
unfoldable pub failing_run : Config → List (ℕ × ℕ) → Breaker → Breaker
unfolding call
failing_run cfg [] b = b
failing_run cfg (c ∷ cs) b =
    failing_run cfg cs (call {A = Unit} {E = Unit} cfg c.0 c.1 (inl tt) b).1

-- Failures below the threshold are counted, and the breaker stays closed.
failing_run-counts :
    (cfg : Config) (cs : List (ℕ × ℕ)) (b : Breaker)
    → b.state ≡ closed
    → b.failure_count + length cs < cfg.failure_threshold
    → ((failing_run cfg cs b).state ≡ closed)
      × ((failing_run cfg cs b).failure_count ≡ b.failure_count + length cs)
unfolding failing_run call enter record_failure
failing_run-counts cfg [] b s h = (s, ground arith)
failing_run-counts cfg (c ∷ cs) b s h =
    ground (arith, failing_run-counts cfg cs (record_failure cfg c.1 b))

failing_run-snoc :
    (cfg : Config) (cs : List (ℕ × ℕ)) (c : ℕ × ℕ) (b : Breaker)
    → failing_run cfg (cs ++ c ∷ []) b
      ≡ (call {A = Unit} {E = Unit} cfg c.0 c.1 (inl tt) (failing_run cfg cs b)).1
unfolding failing_run
failing_run-snoc cfg [] c b = refl
failing_run-snoc cfg (d ∷ cs) c b =
    failing_run-snoc cfg cs c (call {A = Unit} {E = Unit} cfg d.0 d.1 (inl tt) b).1

call-open :
    {A E : Type 0} (cfg : Config) (now done : ℕ) (func : E ⊎ A) (b : Breaker)
    → b.state ≡ opened
    → now < b.open_until
    → call cfg now done func b ≡ (circuit_open, b)
unfolding call enter
call-open cfg now done func b s h = ground (arith, s)

call-reopens :
    {A E : Type 0} (cfg : Config) (now done : ℕ) (e : E) (b : Breaker)
    → b.state ≡ opened
    → b.open_until ≤ now
    → let again = call {A = A} cfg now done (inl e) b in
      (again.0 ≡ raised e)
      × (again.1.state ≡ opened)
      × (again.1.open_until ≡ done + cfg.recovery_timeout)
unfolding call enter record_failure
call-reopens cfg now done e b s h = ground (arith, s)

opened_by :
    (cfg : Config) (cs : List (ℕ × ℕ)) (c : ℕ × ℕ)
    → length cs + 1 ≡ cfg.failure_threshold
    → let b = failing_run cfg (cs ++ c ∷ []) new_breaker in
      (b.state ≡ opened) × (b.open_until ≡ c.1 + cfg.recovery_timeout)
unfolding call enter record_failure
opened_by cfg cs c h =
    let (state_eq, count_eq) = failing_run-counts cfg cs new_breaker refl (ground arith) in
    ground (arith, state_eq, count_eq, failing_run-snoc cfg cs c new_breaker)

-- A new breaker whose first calls all fail, as many as the threshold and the last of them ending at
-- `c.1`, is open: before `recovery_timeout` has passed since then, a call raises `CircuitOpenError`
-- whatever `func` would do and changes nothing.
pub failing_run-opens :
    {A E : Type 0} (cfg : Config) (cs : List (ℕ × ℕ)) (c : ℕ × ℕ) (now done : ℕ) (func : E ⊎ A)
    → length cs + 1 ≡ cfg.failure_threshold
    → now < c.1 + cfg.recovery_timeout
    → let b = failing_run cfg (cs ++ c ∷ []) new_breaker in
      call cfg now done func b ≡ (circuit_open, b)
failing_run-opens cfg cs c now done func h early =
    let (state_eq, until_eq) = opened_by cfg cs c h in
    call-open cfg now done func (failing_run cfg (cs ++ c ∷ []) new_breaker) state_eq
      (ground (arith, until_eq))

-- Once `recovery_timeout` has passed since such a breaker opened, a call that fails raises the
-- exception of `func` and opens the breaker again, for `recovery_timeout` from its end.
pub failing_run-reopens :
    {A E : Type 0} (cfg : Config) (cs : List (ℕ × ℕ)) (c : ℕ × ℕ) (now done : ℕ) (e : E)
    → length cs + 1 ≡ cfg.failure_threshold
    → c.1 + cfg.recovery_timeout ≤ now
    → let again = call {A = A} cfg now done (inl e) (failing_run cfg (cs ++ c ∷ []) new_breaker) in
      (again.0 ≡ raised e)
      × (again.1.state ≡ opened)
      × (again.1.open_until ≡ done + cfg.recovery_timeout)
failing_run-reopens {A} cfg cs c now done e h late =
    let (state_eq, until_eq) = opened_by cfg cs c h in
    call-reopens {A = A} cfg now done e (failing_run cfg (cs ++ c ∷ []) new_breaker) state_eq
      (ground (arith, until_eq))
