-- ===== src/RateLimit/SlidingWindow/Runs.antt =====
-- app/core/ratelimit/sliding_window.py: runs of calls of `is_allowed` on one key.
use fastapi_template.Prelude.{
  ℕ, suc, ◌≤◌, ◌≡◌, refl, sym, subst, inl, inr, Bool, true, false, ◌||◌, List, [], ◌∷◌, ◌++◌, arith,
  leb, if◌then◌else◌, ◌==◌, nat_eq, string_eq, option_eq, Bool-cases,
}
use fastapi_template.Prelude.Lists.{any, all, filter}
use fastapi_template.World.{link_eq}
use fastapi_template.RateLimit.SlidingWindow.{
  Entry, Bucket, Limiter, works, live, is_allowed, empty_bucket,
}
use fastapi_template.RateLimit.SlidingWindow.Log.{
  Call, entry, recent_count, log_allows, log_after, log_run, run, ordered, unused, Agrees,
}
use mathlib.Core.Path.{ap₂}
use mathlib.Core.List.{append_assoc, append-nil}
use fastapi_template.RateLimit.SlidingWindow.Refines.{answer-eq, Agrees-after}

-- Members stay unused in a shorter log.
any-append_some : (p : Entry → Bool) (y z : List Entry) → any p (y ++ z) ≡ (any p y || any p z)
unfolding any
any-append_some p [] z = refl
any-append_some p (e ∷ y) z = ground (arith, any-append_some p y z)

unused-skip :
    (y z : List Entry) (e : Entry) (cs : List Call)
    → unused (y ++ e ∷ z) cs ≡ true
    → unused (y ++ z) cs ≡ true
unfolding unused any
unused-skip y z e [] h = refl
unused-skip y z e (c ∷ cs) h = ground (
  arith,
  any-append_some (λ e'. e'.member == c) y z,
  any-append_some (λ e'. e'.member == c) y (e ∷ z),
  unused-skip y (z ++ entry c ∷ []) e cs,
  append_assoc y (e ∷ z) (entry c ∷ []),
  append_assoc y z (entry c ∷ []),
)

unused-log_after :
    (l : Limiter) (log : List Entry) (c : Call) (cs : List Call)
    → unused (log ++ entry c ∷ []) cs ≡ true
    → unused (log_after l log c) cs ≡ true
unfolding log_after
unused-log_after l log c cs h = elim (Bool-cases (log_allows l log c)) [
  | inl admits ↦ ground (arith, admits)
  | inr refuses ↦ ground (arith, refuses, unused-skip log [] (entry c) cs, append-nil log)
]

run-Agrees :
    (l : Limiter) (t : ℕ) (log : List Entry) (b : Bucket) (cs : List Call)
    → Agrees l t log b
    → ordered t cs ≡ true
    → unused log cs ≡ true
    → run l b cs ≡ log_run l log cs
unfolding run log_run ordered unused
run-Agrees l t log b [] agrees times new = refl
run-Agrees l t log b (c ∷ cs) agrees times new =
    let le : t ≤ c.0 = ground arith in
    let this_new : any (λ e. e.member == c) log ≡ false = ground arith in
    let rest_new : unused (log ++ entry c ∷ []) cs ≡ true = ground arith in
    let rest_times : ordered c.0 cs ≡ true = ground arith in
    ap₂ (λ a answers. a ∷ answers) (answer-eq l t log b c agrees le this_new)
      (run-Agrees l c.0 (log_after l log c) (is_allowed l works c.0 c.1 b).1 cs
        (Agrees-after l t log b c agrees le this_new) rest_times
        (unused-log_after l log c cs rest_new))

pub Agrees-empty : (l : Limiter) → Agrees l 0 [] empty_bucket
Agrees-empty l = record { past = unfold all in refl; same = λ now le. unfold live filter in refl }

-- While Redis answers, time does not go back and no member repeats, the limiter on a trimmed and
-- expiring sorted set gives to every sequence of calls the answers of the limiter that keeps a log of
-- all requests it ever admitted and counts those of the trailing window.
pub run-eq-log_run :
    (l : Limiter) (cs : List Call)
    → ordered 0 cs ≡ true
    → unused [] cs ≡ true
    → run l empty_bucket cs ≡ log_run l [] cs
run-eq-log_run l cs times new = run-Agrees l 0 [] empty_bucket cs (Agrees-empty l) times new

-- The requests that a run admitted, oldest first.
unfoldable pub admitted : List Call → List Bool → List Entry
admitted [] answers = []
admitted (c ∷ cs) [] = []
admitted (c ∷ cs) (a ∷ answers) = if a then entry c ∷ admitted cs answers else admitted cs answers

recent_count-antitone :
    (l : Limiter) (now later : ℕ) (log : List Entry)
    → now ≤ later
    → recent_count l later log ≤ recent_count l now log
unfolding filter
recent_count-antitone l now later [] le = ground arith
recent_count-antitone l now later (e ∷ log) le =
    ground (arith, recent_count-antitone l now later log le)

recent_count-snoc :
    (l : Limiter) (now : ℕ) (log : List Entry) (e : Entry)
    → recent_count l now (log ++ e ∷ []) ≤ suc (recent_count l now log)
unfolding filter
recent_count-snoc l now [] e = ground arith
recent_count-snoc l now (x ∷ log) e = ground (arith, recent_count-snoc l now log e)

pub recent_count-log_after :
    (l : Limiter) (t now : ℕ) (log : List Entry) (c : Call)
    → ((later : ℕ) → t ≤ later → recent_count l later log ≤ l.requests)
    → t ≤ c.0
    → c.0 ≤ now
    → recent_count l now (log_after l log c) ≤ l.requests
unfolding log_after log_allows
recent_count-log_after l t now log c h le le' =
    ground
      (arith, h now, recent_count-snoc l now log (entry c), recent_count-antitone l c.0 now log le')

log_after-admitted :
    (l : Limiter) (log : List Entry) (c : Call) (rest : List Entry)
    → log_after l log c ++ rest ≡ log ++ (if log_allows l log c then entry c ∷ rest else rest)
unfolding log_after
log_after-admitted l log c rest = elim (Bool-cases (log_allows l log c)) [
  | inl admits ↦ ground (arith, admits, append_assoc log (entry c ∷ []) rest)
  | inr refuses ↦ ground (arith, refuses)
]

log_run-bounded :
    (l : Limiter) (t now : ℕ) (log : List Entry) (cs : List Call)
    → ((later : ℕ) → t ≤ later → recent_count l later log ≤ l.requests)
    → ordered t cs ≡ true
    → t ≤ now
    → all (λ c. leb c.0 now) cs ≡ true
    → recent_count l now (log ++ admitted cs (log_run l log cs)) ≤ l.requests
unfolding log_run ordered all admitted
log_run-bounded l t now log [] h times le upto =
    subst (λ z. recent_count l now z ≤ l.requests) (sym (append-nil log)) (h now le)
log_run-bounded l t now log (c ∷ cs) h times le upto =
    let le' : t ≤ c.0 = ground arith in
    let rest_times : ordered c.0 cs ≡ true = ground arith in
    let rest_upto : all (λ d. leb d.0 now) cs ≡ true = ground arith in
    let here : c.0 ≤ now = ground arith in
    let inner =
      log_run-bounded l c.0 now (log_after l log c) cs
        (λ later le''. recent_count-log_after l t later log c h le' le'') rest_times here
        rest_upto in
    subst (λ z. recent_count l now z ≤ l.requests)
      (log_after-admitted l log c (admitted cs (log_run l (log_after l log c) cs))) inner

-- While Redis answers, time does not go back and no member repeats, at every moment from the last
-- call on, at most `requests` of the requests of the trailing window were admitted.
pub run-bounded :
    (l : Limiter) (cs : List Call) (now : ℕ)
    → ordered 0 cs ≡ true
    → unused [] cs ≡ true
    → all (λ c. leb c.0 now) cs ≡ true
    → recent_count l now (admitted cs (run l empty_bucket cs)) ≤ l.requests
unfolding filter
run-bounded l cs now times new upto =
    subst (λ answers. recent_count l now (admitted cs answers) ≤ l.requests)
      (sym (run-eq-log_run l cs times new))
      (log_run-bounded l 0 now [] cs (λ later le. ground arith) times (ground arith) upto)
