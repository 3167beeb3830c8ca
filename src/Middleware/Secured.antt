-- ===== src/Middleware/Secured.antt =====
-- The headers that every answer of the stack carries.
use fastapi_template.Prelude.{
  ℕ, String, ◌≡◌, refl, ◌∙◌, inl, inr, Option, none, some, [], ◌∷◌, ◌++◌, if◌then◌else◌, ◌==◌,
  nat_eq, string_eq, arith, ap, beq_refl, Bool-cases,
}
use fastapi_template.Prelude.Lists.{lookup}
use fastapi_template.Error.{Error}
use fastapi_template.World.{Action}
use fastapi_template.Http.{Headers, Response}
use fastapi_template.Middleware.{
  set_default, set_defaults, security_headers, serve, rate_limit_middleware, logged, Request,
  Server, security_headers_middleware,
}

abbrev pub or_else : {A : Type 0} → Option A → Option A → Option A
or_else (some a) b = some a
or_else none b = b

lookup-append :
    (name other value : String) (headers : Headers)
    → lookup name (headers ++ (other, value) ∷ [])
      ≡ or_else (lookup name headers) (if other == name then some value else none)
unfolding lookup
lookup-append name other value [] = refl
lookup-append name other value ((n, v) ∷ headers) =
    ground (arith, lookup-append name other value headers)

lookup-set_default :
    (name other value : String) (headers : Headers)
    → lookup name (set_default other value headers)
      ≡ or_else (lookup name headers) (if other == name then some value else none)
unfolding set_default
lookup-set_default name other value headers = elim (Bool-cases (other == name)) [
  | inl same ↦
      rw ((string_eq.beq_iff other name).0 same)
        (ground (arith, lookup-append name name value headers, beq_refl name))
  | inr differs ↦ ground (arith, differs, lookup-append name other value headers)
]

lookup-set_defaults :
    (name : String) (table headers : Headers)
    → lookup name (set_defaults table headers) ≡ or_else (lookup name headers) (lookup name table)
unfolding set_defaults lookup
lookup-set_defaults name [] headers = ground arith
lookup-set_defaults name ((other, value) ∷ table) headers = ground (
  arith,
  lookup-set_defaults name table (set_default other value headers),
  lookup-set_default name other value headers,
)

module _ {A : Type 0} (text : Error → String) (str : ℕ → String) where
  -- Every answer of the stack, a refusal of the limiter and the answer to an unexpected error included,
  -- has each of the security headers, with the value that the wrapped answer already has for it, or
  -- else the default value.
  pub serve-secured :
      (r : Request) (call_next : Action (Response A)) (s : Server) (name value : String)
      → lookup name security_headers ≡ some value
      → lookup name (serve text str r call_next s).0.headers
        ≡ or_else
            (lookup name
              (rate_limit_middleware text str r (logged text str r call_next) s).0.headers)
            (some value)
  unfolding serve security_headers_middleware
  serve-secured r call_next s name value h =
      lookup-set_defaults name security_headers
        (rate_limit_middleware text str r (logged text str r call_next) s).0.headers
      ∙ ap (or_else _) h
