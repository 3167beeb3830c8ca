-- ===== src/Middleware/Throttle/Keys.antt =====
-- The limiter's key of a client across one request.
use fastapi_template.Prelude.{
  ℕ, ◌≤◌, ◌≡◌, Bool, false, inl, inr, List, if◌then◌else◌, ◌==◌, nat_eq, string_eq, arith,
  Bool-cases,
}
use fastapi_template.Prelude.Lists.{any, filter}
use fastapi_template.World.{link_eq}
use fastapi_template.RateLimit.SlidingWindow.{
  Bucket, works, limiter, Limiter, Entry, is_allowed, get_remaining, live, zremrangebyscore,
  is_recent,
}
use fastapi_template.RateLimit.SlidingWindow.Log.{Agrees, log_after, all-past, filter-filter_recent}
use fastapi_template.RateLimit.SlidingWindow.Refines.{Agrees-after}
use fastapi_template.Middleware.{Request, Server, client_ip}
use fastapi_template.Middleware.Throttle.{call}

trimmed :
    (l : Limiter) (now later : ℕ) (log : List Entry) (b : Bucket) (is_up : Bool)
    → now ≤ later
    → zremrangebyscore l.window later (live later b) ≡ filter (is_recent l.window later) log
    → zremrangebyscore l.window later (live later (get_remaining l is_up now b).1)
      ≡ filter (is_recent l.window later) log
unfolding get_remaining live filter
trimmed l now later log b is_up le h =
    ground (arith, filter-filter_recent l.window now later b.entries le)

-- The trim of `get_remaining` changes nothing that a later call can tell.
pub Agrees-get_remaining :
    (l : Limiter) (t now : ℕ) (log : List Entry) (b : Bucket) (is_up : Bool)
    → Agrees l t log b
    → t ≤ now
    → Agrees l now log (get_remaining l is_up now b).1
Agrees-get_remaining l t now log b is_up h le = record {
  past = all-past t now log le h.past;
  same = λ later le'. trimmed l now later log b is_up le' (h.same later (ground arith));
}

pub Agrees-later :
    (l : Limiter) (t later : ℕ) (log : List Entry) (b : Bucket)
    → Agrees l t log b
    → t ≤ later
    → Agrees l later log b
Agrees-later l t later log b h le = record {
  past = all-past t later log le h.past;
  same = λ now le'. h.same now (ground arith);
}

-- The limiter's key of the client after a request.
unfoldable pub key_after : Request → Server → Bucket
key_after r s =
    let (allowed, b) = is_allowed limiter r.outage r.arrives r.uuid (s.buckets (client_ip r)) in
    if allowed then (get_remaining limiter r.counts r.leaves b).1 else b

pub key_after-Agrees :
    (r : Request) (s : Server) (log : List Entry) (t : ℕ)
    → r.outage ≡ works
    → Agrees limiter t log (s.buckets (client_ip r))
    → t ≤ r.arrives
    → r.arrives ≤ r.leaves
    → any (λ e. e.member == call r) log ≡ false
    → Agrees limiter r.leaves (log_after limiter log (call r)) (key_after r s)
unfolding key_after
key_after-Agrees r s log t up h le le' new =
    let b = s.buckets (client_ip r) in
    let after : Agrees limiter r.arrives (log_after limiter log (call r))
        (is_allowed limiter r.outage r.arrives r.uuid b).1 =
      rw up (Agrees-after limiter t log b (call r) h le new) in
    elim (Bool-cases (is_allowed limiter r.outage r.arrives r.uuid b).0) [
      | inl allowed ↦
          rw allowed (Agrees-get_remaining limiter r.arrives r.leaves _ _ r.counts after le')
      | inr refused ↦ rw refused (Agrees-later limiter r.arrives r.leaves _ _ after le')
    ]
