-- ===== src/RateLimit/SlidingWindow.antt =====
-- app/core/ratelimit/sliding_window.py and limiters.py: a sorted set of Redis holds the requests of
-- the trailing window of one key.
pub mod Log
pub mod Refines
pub mod Runs
use fastapi_template.Prelude.{
  ℕ, zero, suc, ◌+◌, ◌-◌, ◌*◌, ◌/◌, ◌%◌, ◌^◌, ◌≤◌, ◌<◌, min, max, bit_and, bit_or, String, ◌≡◌, ◌≢◌,
  refl, sym, ap, ◌∙◌, subst, fun_ext, ◌↔◌, ◌⊎◌, inl, inr, Bool, true, false, ◌&&◌, ◌||◌, not,
  Option, none, some, List, [], ◌∷◌, ◌++◌, map, arith, ltb, leb, nat_beq, if◌then◌else◌,
  nat_beq_iff, Eq, ◌==◌, nat_eq, string_eq, option_eq, beq_refl, Bool-cases, Option-cases,
  map_option, is_some,
}
use fastapi_template.Prelude.Lists.{any, all, filter, find, contains, take, drop, length, lookup}
use fastapi_template.World.{Link, link_eq}

-- `f"{now}:{uuid}"`, of which only equality is used, and its score.
pub record Entry : Type 0 where
  pub member : Link
  pub score : ℕ

-- The sorted set at one key, and when the key expires.
pub record Bucket : Type 0 where
  pub entries : List Entry
  pub expires_at : Option ℕ

-- A key that is absent.
abbrev pub empty_bucket : Bucket
empty_bucket = record { entries = []; expires_at = none }

-- `RedisSlidingWindowLimiter.__init__`
pub record Limiter : Type 0 where
  pub requests : ℕ
  pub window : ℕ

abbrev pub limiter : Limiter
limiter = record { requests = 120; window = 60 }

abbrev pub login_limiter : Limiter
login_limiter = record { requests = 10; window = 60 }

-- Which of the commands of one call fail: none, the pipeline, or the `zrem` after it.
pub data Outage : Type 0 where
  works : Outage
  no_pipeline : Outage
  no_zrem : Outage

-- What Redis still holds: an expired key is gone.
unfoldable pub live : ℕ → Bucket → List Entry
live now b = elim b.expires_at [ none ↦ b.entries | some t ↦ if leb t now then [] else b.entries ]

-- `score > now - window`, where the difference may be negative
abbrev pub is_recent : ℕ → ℕ → Entry → Bool
is_recent window now e = ltb now (e.score + window)

-- `ZREMRANGEBYSCORE key 0 (now - window)`
abbrev pub zremrangebyscore : ℕ → ℕ → List Entry → List Entry
zremrangebyscore window now z = filter (is_recent window now) z

-- `ZREM key member`
unfoldable pub zrem : Link → List Entry → List Entry
zrem m z = filter (λ e. not (e.member == m)) z

-- `ZADD key {member: score}`
unfoldable pub zadd : Link → ℕ → List Entry → List Entry
unfolding zrem
zadd m score z = zrem m z ++ record { member = m; score = score } ∷ []

-- `uuid` is what `uuid4` returns.
unfoldable pub is_allowed : Limiter → Outage → ℕ → ℕ → Bucket → Bool × Bucket
unfolding live zadd zrem
is_allowed l outage now uuid b =
    let m : Link = (now, uuid) in
    let z = zadd m now (zremrangebyscore l.window now (live now b)) in
    let after : Bucket = record { entries = z; expires_at = some (now + l.window) } in
    elim outage [
      | no_pipeline ↦ (true, b)
      | works ↦
          if ltb l.requests (length z)
          then (false, record after { entries = zrem m z })
          else (true, after)
      | no_zrem ↦ (true, after)
    ]

-- `is_up` is false where one of the two commands raises; the trim is then lost or not, which no
-- later call sees.
unfoldable pub get_remaining : Limiter → Bool → ℕ → Bucket → ℕ × Bucket
unfolding live
get_remaining l is_up now b =
    let z = zremrangebyscore l.window now (live now b) in
    if is_up then (l.requests - length z, record b { entries = z }) else (l.requests, b)
