-- ===== src/Middleware.antt =====
-- app/middleware/*.py, in the order in which app/main.py stacks them: the logger inside the rate
-- limiter inside the security headers. What they wrap, `call_next`, is an argument, an action that may
-- raise. Names of headers are written in lower case, as starlette compares them.
pub mod Throttle
pub mod Secured
use fastapi_template.Prelude.{
  ℕ, String, Bool, true, false, not, Option, none, some, List, [], ◌∷◌, ◌++◌, if◌then◌else◌, ◌==◌,
  string_eq,
}
use fastapi_template.Prelude.Lists.{lookup}
use fastapi_template.Prelude.{is_some}
use fastapi_template.Error.{Error, ok, err, rate_limit}
use fastapi_template.World.{World, Action}
use fastapi_template.Http.{Headers, Response, create_exception_handler, create_global_handler}
use fastapi_template.RateLimit.SlidingWindow.{Bucket, Outage, limiter, is_allowed, get_remaining}

-- `headers[name] = value`
unfoldable pub set_header : String → String → Headers → Headers
set_header name value [] = (name, value) ∷ []
set_header name value ((n, v) ∷ headers) =
    if n == name then (name, value) ∷ headers else (n, v) ∷ set_header name value headers

-- `headers.setdefault(name, value)`
unfoldable pub set_default : String → String → Headers → Headers
set_default name value headers =
    if is_some (lookup name headers) then headers else headers ++ (name, value) ∷ []

-- What a request brings: the host of the client, the times at which the limiter reads the clock, what
-- `uuid4` returns to the limiter and to the logger, and which commands of Redis fail.
pub record Request : Type 0 where
  pub client : Option String
  pub arrives : ℕ
  pub leaves : ℕ
  pub uuid : ℕ
  pub request_id : String
  pub outage : Outage
  pub counts : Bool

abbrev pub client_ip : Request → String
client_ip r = elim r.client [ none ↦ "unknown" | some host ↦ host ]

-- The shared state of the requests: the tables and mirror, and the limiter's key of each client.
pub record Server : Type 0 where
  pub world : World
  pub buckets : String → Bucket

abbrev pub set_bucket : String → Bucket → (String → Bucket) → String → Bucket
set_bucket ip b buckets j = if ip == j then b else buckets j

-- `_SECURITY_HEADERS`
unfoldable pub security_headers : Headers
security_headers =
    ("x-content-type-options", "nosniff")
    ∷ ("x-frame-options", "DENY")
    ∷ ("x-xss-protection", "0")
    ∷ ("referrer-policy", "strict-origin-when-cross-origin")
    ∷ ("cross-origin-opener-policy", "same-origin")
    ∷ (
      "content-security-policy",
      "default-src 'self'; script-src 'self'; style-src 'self'; object-src 'none'",
    )
    ∷ ("permissions-policy", "geolocation=(), microphone=(), camera=()")
    ∷ ("strict-transport-security", "max-age=31536000; includeSubDomains; preload")
    ∷ []

-- The loop of `security_headers_middleware`.
unfoldable pub set_defaults : Headers → Headers → Headers
set_defaults [] headers = headers
set_defaults ((name, value) ∷ rest) headers = set_defaults rest (set_default name value headers)

module _ {A : Type 0} where
  abbrev pub with_header : String → String → Response A → Response A
  with_header name value r = record r { headers = set_header name value r.headers }

  unfoldable pub security_headers_middleware : Response A → Response A
  security_headers_middleware r = record r { headers = set_defaults security_headers r.headers }

-- The headers that `RateLimit` is raised with; `str` is that of a number.
abbrev pub limit_headers : (ℕ → String) → Headers
limit_headers str =
    ("X-RateLimit-Limit", str limiter.requests)
    ∷ ("X-RateLimit-Remaining", "0")
    ∷ ("Retry-After", str limiter.window)
    ∷ []

-- `text` is `str` of an exception, `str` that of a number.
module _ {A : Type 0} (text : Error → String) (str : ℕ → String) where
  unfoldable pub logger_middleware : Request → Action (Response A) → World → Response A × World
  logger_middleware r call_next w =
      let (result, w') = call_next w in
      let response : Response A = elim result [
        | ok response ↦ response
        | err e ↦
            create_global_handler text 500
              (record { message = "Internal Server Error"; code = none }) e
      ] in
      (with_header "x-request-id" r.request_id response, w')

  -- The handler of `RateLimit`, with which the middleware answers every exception.
  abbrev pub limit_handler : Headers → Error → Response A
  limit_handler headers e = create_exception_handler text 429 none headers e

  -- The `try` after `is_allowed` returned true. What the stack wraps, the logger, never raises, so the
  -- headers of a `RateLimit` that it might raise are left empty.
  unfoldable pub pass_on : Request → Action (Response A) → Server → Response A × Server
  pass_on r call_next s =
      let (result, w') = call_next s.world in
      let (remaining, b') = get_remaining limiter r.counts r.leaves (s.buckets (client_ip r)) in
      elim result [
        | err e ↦ (limit_handler [] e, record s { world = w' })
        | ok response ↦ (
          with_header "x-ratelimit-remaining" (str remaining)
              (with_header "x-ratelimit-limit" (str limiter.requests) response),
          record s { world = w'; buckets = set_bucket (client_ip r) b' s.buckets },
        )
      ]

  unfoldable pub rate_limit_middleware :
      Request → Action (Response A) → Server → Response A × Server
  unfolding pass_on
  rate_limit_middleware r call_next s =
      let ip = client_ip r in
      let (allowed, b) = is_allowed limiter r.outage r.arrives r.uuid (s.buckets ip) in
      let counted : Server = record s { buckets = set_bucket ip b s.buckets } in
      if not allowed
      then (limit_handler (limit_headers str) rate_limit, counted)
      else pass_on r call_next counted

  -- The logger as what the rate limiter wraps.
  abbrev pub logged : Request → Action (Response A) → Action (Response A)
  logged r call_next w = let (response, w') = logger_middleware r call_next w in (ok response, w')

  -- The stack of app/main.py.
  unfoldable pub serve : Request → Action (Response A) → Server → Response A × Server
  unfolding rate_limit_middleware security_headers_middleware logger_middleware
  serve r call_next s =
      let (response, s') = rate_limit_middleware r (logged r call_next) s in
      (security_headers_middleware response, s')

  unfoldable pub serve_all :
      List (Request × Action (Response A)) → Server → List (Response A) × Server
  serve_all [] s = ([], s)
  serve_all ((r, call_next) ∷ rs) s =
      let (response, s') = serve r call_next s in
      let (responses, s'') = serve_all rs s' in (response ∷ responses, s'')
