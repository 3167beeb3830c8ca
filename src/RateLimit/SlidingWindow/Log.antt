-- ===== src/RateLimit/SlidingWindow/Log.antt =====
-- app/core/ratelimit/sliding_window.py: a reference limiter that keeps every request it admitted, and
-- what relates its log to the sorted set.
use fastapi_template.Prelude.{
  ℕ, suc, ◌+◌, ◌≤◌, ◌≡◌, refl, ap, Bool, true, false, ◌&&◌, not, List, [], ◌∷◌, ◌++◌, arith, ltb,
  leb, if◌then◌else◌, ◌==◌, nat_eq, string_eq, option_eq, beq_refl,
}
use fastapi_template.Prelude.Lists.{any, all, filter, length}
use fastapi_template.World.{Link, link_eq}
use fastapi_template.RateLimit.SlidingWindow.{
  Entry, Bucket, Limiter, works, live, is_recent, zremrangebyscore, zrem, is_allowed,
}

-- The calls of `is_allowed` for one key: their time and what `uuid4` returned.
abbrev pub Call : Type 0
Call = ℕ × ℕ

abbrev pub entry : Call → Entry
entry c = record { member = c; score = c.0 }

-- The requests admitted in the trailing window of `now`.
abbrev pub recent_count : Limiter → ℕ → List Entry → ℕ
recent_count l now log = length (filter (is_recent l.window now) log)

-- The limiter whose log is never trimmed.
unfoldable pub log_allows : Limiter → List Entry → Call → Bool
log_allows l log c = ltb (recent_count l c.0 log) l.requests

unfoldable pub log_after : Limiter → List Entry → Call → List Entry
unfolding log_allows
log_after l log c = if log_allows l log c then log ++ entry c ∷ [] else log

unfoldable pub log_run : Limiter → List Entry → List Call → List Bool
unfolding log_allows log_after
log_run l log [] = []
log_run l log (c ∷ cs) = log_allows l log c ∷ log_run l (log_after l log c) cs

-- The answers of `is_allowed`.
unfoldable pub run : Limiter → Bucket → List Call → List Bool
unfolding is_allowed
run l b [] = []
run l b (c ∷ cs) = let (answer, b') = is_allowed l works c.0 c.1 b in answer ∷ run l b' cs

-- Time does not go back.
unfoldable pub ordered : ℕ → List Call → Bool
ordered t [] = true
ordered t (c ∷ cs) = leb t c.0 && ordered c.0 cs

-- No member is used twice.
unfoldable pub unused : List Entry → List Call → Bool
unused log [] = true
unused log (c ∷ cs) = not (any (λ e. e.member == c) log) && unused (log ++ entry c ∷ []) cs

-- What the bucket must hold at time `t`, as far as any later call can tell.
pub record Agrees (l : Limiter) (t : ℕ) (log : List Entry) (b : Bucket) : Type 0 where
  pub past : all (λ e. leb e.score t) log ≡ true
  pub same :
      (now : ℕ)
      → t ≤ now
      → zremrangebyscore l.window now (live now b) ≡ filter (is_recent l.window now) log

pub filter-filter_recent :
    (window now later : ℕ) (z : List Entry)
    → now ≤ later
    → filter (is_recent window later) (filter (is_recent window now) z)
      ≡ filter (is_recent window later) z
unfolding filter
filter-filter_recent window now later [] h = refl
filter-filter_recent window now later (e ∷ z) h =
    ground (arith, filter-filter_recent window now later z)

pub filter-append :
    (p : Entry → Bool) (y z : List Entry) → filter p (y ++ z) ≡ filter p y ++ filter p z
unfolding filter
filter-append p [] z = refl
filter-append p (e ∷ y) z = ground (arith, filter-append p y z)

pub length-snoc : (z : List Entry) (e : Entry) → length (z ++ e ∷ []) ≡ suc (length z)
length-snoc [] e = refl
length-snoc (x ∷ z) e = ap suc (length-snoc z e)

pub zrem-unused :
    (m : Link) (p : Entry → Bool) (z : List Entry)
    → any (λ e. e.member == m) z ≡ false
    → zrem m (filter p z) ≡ filter p z
unfolding zrem filter any
zrem-unused m p [] h = refl
zrem-unused m p (e ∷ z) h = ground (arith, zrem-unused m p z)

pub zrem-snoc :
    (m : Link) (z : List Entry) (s : ℕ)
    → zrem m (z ++ record { member = m; score = s } ∷ []) ≡ zrem m z
unfolding zrem filter
zrem-snoc m [] s = ground (arith, beq_refl m)
zrem-snoc m (e ∷ z) s = ground (arith, zrem-snoc m z s)

pub none_recent :
    (window t now : ℕ) (z : List Entry)
    → all (λ e. leb e.score t) z ≡ true
    → t + window ≤ now
    → filter (is_recent window now) z ≡ []
unfolding all filter
none_recent window t now [] h le = refl
none_recent window t now (e ∷ z) h le = ground (arith, none_recent window t now z)

pub all-past :
    (t now : ℕ) (z : List Entry)
    → t ≤ now
    → all (λ e. leb e.score t) z ≡ true
    → all (λ e. leb e.score now) z ≡ true
unfolding all
all-past t now [] le h = refl
all-past t now (e ∷ z) le h = ground (arith, all-past t now z)

pub all-snoc :
    (p : Entry → Bool) (z : List Entry) (e : Entry) → all p (z ++ e ∷ []) ≡ (all p z && p e)
unfolding all
all-snoc p [] e = ground arith
all-snoc p (x ∷ z) e = ground (arith, all-snoc p z e)
