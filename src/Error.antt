-- ===== src/Error.antt =====
-- app/error/*.py: the exceptions of the application as values. Of a message only what it names is
-- kept (`Subject`).
use fastapi_template.Prelude.{ℕ, String, Bool, true, false}

-- What the message of an exception names: an id, a name, or the default "unknown".
pub data Subject : Type 0 where
  by_id : ℕ → Subject
  by_name : String → Subject
  unknown : Subject

pub data Error : Type 0 where
  -- app/error/rbac.py
  role_not_found role_exists permission_not_found permission_exists unknown_permission :
      Subject → Error
  grant_not_allowed permission_already_granted permission_not_granted role_already_assigned
        role_not_assigned superuser_required :
      Error
  -- app/error/auth.py
  username_exist user_mail_exist user_not_found : Subject → Error
  user_unauthenticated user_not_verified invalid_token user_not_authenticated user_deactivated
        tenant_inactive stale_token :
      Error
  -- app/error/tenant.py
  tenant_not_found tenant_exists : Subject → Error
  -- app/error/validation.py, app/error/ratelimit.py, app/core/resilience/recovery.py
  validation_error sanitization_error rate_limit circuit_open : Error
  -- fastapi's HTTPException, and what falls through to the handler of `Exception`: a violated
  -- constraint of the database, Python's own errors
  http_exception : ℕ → Error
  integrity_error overflow_error value_error runtime_error attribute_error key_error : Error

-- A call that may raise.
pub data Result (A : Type 0) : Type 0 where
  ok : A → Result A
  err : Error → Result A

abbrev pub is_ok : {A : Type 0} → Result A → Bool
is_ok (ok a) = true
is_ok (err e) = false

infixl 5 ◌>>=◌ ◌>>◌
abbrev pub ◌>>=◌ : {A B : Type 0} → Result A → (A → Result B) → Result B
ok a >>= f = f a
err e >>= f = err e

abbrev pub ◌>>◌ : {A B : Type 0} → Result A → Result B → Result B
m >> k = m >>= λ _. k
