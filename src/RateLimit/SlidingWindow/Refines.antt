-- ===== src/RateLimit/SlidingWindow/Refines.antt =====
-- app/core/ratelimit/sliding_window.py: one call of `is_allowed` beside one of the reference limiter.
use fastapi_template.Prelude.{
  ℕ, suc, ◌+◌, ◌≤◌, ◌≡◌, sym, ap, ◌∙◌, subst, true, false, some, List, [], ◌∷◌, ◌++◌, arith, leb,
  if◌then◌else◌, ◌==◌, nat_eq, string_eq, option_eq,
}
use fastapi_template.Prelude.Lists.{any, all, filter, length}
use fastapi_template.World.{link_eq}
use fastapi_template.RateLimit.SlidingWindow.{
  Entry, Bucket, Limiter, works, live, is_recent, zremrangebyscore, zrem, zadd, is_allowed,
}
use fastapi_template.RateLimit.SlidingWindow.Log.{
  Call, entry, recent_count, log_allows, log_after, Agrees, filter-filter_recent, filter-append,
  length-snoc, zrem-unused, zrem-snoc, none_recent, all-past, all-snoc,
}

-- The sorted set that a call leaves before it counts.
added : Limiter → Call → Bucket → List Entry
added l c b = zadd c c.0 (zremrangebyscore l.window c.0 (live c.0 b))

added-eq :
    (l : Limiter) (t : ℕ) (log : List Entry) (b : Bucket) (c : Call)
    → Agrees l t log b
    → t ≤ c.0
    → any (λ e. e.member == c) log ≡ false
    → added l c b ≡ filter (is_recent l.window c.0) log ++ entry c ∷ []
unfolding added zadd
added-eq l t log b c h le new =
    ap (λ z. zrem c z ++ entry c ∷ []) (h.same c.0 le)
    ∙ ap (λ z. z ++ entry c ∷ []) (zrem-unused c (is_recent l.window c.0) log new)

count-eq :
    (l : Limiter) (t : ℕ) (log : List Entry) (b : Bucket) (c : Call)
    → Agrees l t log b
    → t ≤ c.0
    → any (λ e. e.member == c) log ≡ false
    → length (added l c b) ≡ suc (recent_count l c.0 log)
count-eq l t log b c h le new =
    ap length (added-eq l t log b c h le new)
    ∙ length-snoc (filter (is_recent l.window c.0) log) (entry c)

pub answer-eq :
    (l : Limiter) (t : ℕ) (log : List Entry) (b : Bucket) (c : Call)
    → Agrees l t log b
    → t ≤ c.0
    → any (λ e. e.member == c) log ≡ false
    → (is_allowed l works c.0 c.1 b).0 ≡ log_allows l log c
unfolding is_allowed log_allows added
answer-eq l t log b c h le new = ground (arith, count-eq l t log b c h le new)

-- What the key holds after a call.
left : Limiter → List Entry → Call → List Entry
unfolding log_allows
left l log c =
    if log_allows l log c
    then filter (is_recent l.window c.0) log ++ entry c ∷ []
    else filter (is_recent l.window c.0) log

after-eq :
    (l : Limiter) (t : ℕ) (log : List Entry) (b : Bucket) (c : Call)
    → Agrees l t log b
    → t ≤ c.0
    → any (λ e. e.member == c) log ≡ false
    → (is_allowed l works c.0 c.1 b).1
      ≡ record { entries = left l log c; expires_at = some (c.0 + l.window) }
unfolding is_allowed log_allows left added
after-eq l t log b c h le new = ground (
  arith,
  count-eq l t log b c h le new,
  added-eq l t log b c h le new,
  zrem-unused c (is_recent l.window c.0) log new,
  zrem-snoc c (filter (is_recent l.window c.0) log) c.0,
)

all-log_after :
    (l : Limiter) (t : ℕ) (log : List Entry) (c : Call)
    → all (λ e. leb e.score t) log ≡ true
    → t ≤ c.0
    → all (λ e. leb e.score c.0) (log_after l log c) ≡ true
unfolding log_after log_allows
all-log_after l t log c h le =
    ground (arith, all-past t c.0 log le h, all-snoc (λ e. leb e.score c.0) log (entry c))

left-recent :
    (l : Limiter) (log : List Entry) (c : Call) (now : ℕ)
    → c.0 ≤ now
    → filter (is_recent l.window now) (left l log c)
      ≡ filter (is_recent l.window now) (log_after l log c)
unfolding left log_after
left-recent l log c now le = ground (
  arith,
  filter-filter_recent l.window c.0 now log le,
  filter-append (is_recent l.window now) (filter (is_recent l.window c.0) log) (entry c ∷ []),
  filter-append (is_recent l.window now) log (entry c ∷ []),
)

left-live :
    (l : Limiter) (log : List Entry) (c : Call) (now : ℕ)
    → all (λ e. leb e.score c.0) (log_after l log c) ≡ true
    → c.0 ≤ now
    → zremrangebyscore l.window now
        (live now (record { entries = left l log c; expires_at = some (c.0 + l.window) }))
      ≡ filter (is_recent l.window now) (log_after l log c)
unfolding live filter
left-live l log c now past le =
    ground
      (arith, left-recent l log c now le, none_recent l.window c.0 now (log_after l log c) past)

pub Agrees-after :
    (l : Limiter) (t : ℕ) (log : List Entry) (b : Bucket) (c : Call)
    → Agrees l t log b
    → t ≤ c.0
    → any (λ e. e.member == c) log ≡ false
    → Agrees l c.0 (log_after l log c) (is_allowed l works c.0 c.1 b).1
Agrees-after l t log b c h le new =
    let past = all-log_after l t log c h.past le in
    subst (Agrees l c.0 (log_after l log c)) (sym (after-eq l t log b c h le new))
      (record { past = past; same = λ now le'. left-live l log c now past le' })
