-- ===== src/Http/Register.antt =====
-- app/error/register.py: the handler of each class of exception.
use fastapi_template.Prelude.{String, Option, none, some, []}
use fastapi_template.Error.{
  Error, role_not_found, role_exists, permission_not_found, permission_exists, unknown_permission,
  grant_not_allowed, permission_already_granted, permission_not_granted, role_already_assigned,
  role_not_assigned, superuser_required, username_exist, user_mail_exist, user_not_found,
  user_unauthenticated, user_not_verified, invalid_token, user_not_authenticated, user_deactivated,
  tenant_inactive, stale_token, tenant_not_found, tenant_exists, validation_error,
  sanitization_error, rate_limit, circuit_open, http_exception,
}
use fastapi_template.Http.{
  Detail, Handler, exception_handler, global_handler, framework_handler, Headers, Response, detail,
  create_exception_handler, create_global_handler,
}

abbrev said : String → String → Option Detail
said message code = some (record { message = message; code = some code })

-- The classes of roles, permissions and tenants, of the limiter, the breaker and the validators.
unfoldable pub registered_domain : Error → Handler
registered_domain (role_not_found s) = exception_handler 404 none
registered_domain (role_exists s) = exception_handler 400 none
registered_domain (permission_not_found s) = exception_handler 404 none
registered_domain (permission_exists s) = exception_handler 400 none
registered_domain grant_not_allowed = exception_handler 403 none
registered_domain permission_already_granted = exception_handler 400 none
registered_domain permission_not_granted = exception_handler 404 none
registered_domain role_already_assigned = exception_handler 400 none
registered_domain role_not_assigned = exception_handler 404 none
registered_domain (unknown_permission s) = exception_handler 400 none
registered_domain superuser_required = exception_handler 403 none
registered_domain (tenant_not_found s) = exception_handler 404 none
registered_domain (tenant_exists s) = exception_handler 400 none
registered_domain rate_limit = exception_handler 429 none
registered_domain circuit_open =
    exception_handler 429
      (said "Service temporarily unavailable due to high failure rate" "service_unavailable")
registered_domain validation_error =
    exception_handler 400 (said "Input validation failed" "validation_error")
registered_domain sanitization_error =
    exception_handler 400 (said "Input contains invalid or dangerous content" "sanitization_error")
registered_domain (http_exception n) = framework_handler n
registered_domain other =
    global_handler 500 (record { message = "Internal Server Error"; code = none })

-- The classes of users, and then the others.
unfoldable pub registered : Error → Handler
unfolding registered_domain
registered (username_exist s) =
    exception_handler 400 (said "Username already exists" "username_exists")
registered (user_mail_exist s) = exception_handler 400 (said "Email already exists" "email_exists")
registered user_unauthenticated =
    exception_handler 401 (said "Invalid authentication credentials" "user_unauthenticated")
registered user_not_verified = exception_handler 403 none
registered invalid_token = exception_handler 401 (said "Invalid or expired token" "invalid_token")
registered user_not_authenticated =
    exception_handler 401 (said "Authentication required" "not_authenticated")
registered (user_not_found s) = exception_handler 404 (said "User not found" "user_not_found")
registered user_deactivated = exception_handler 403 none
registered tenant_inactive = exception_handler 403 none
registered stale_token = exception_handler 401 none
registered other = registered_domain other

-- The answer of the handler that an exception reaches.
unfoldable pub answer : {A : Type 0} → (Error → String) → Headers → Error → Response A
unfolding registered
answer text limits e = elim (registered e) [
  | exception_handler status initial_detail ↦
      create_exception_handler text status initial_detail limits e
  | global_handler status initial_detail ↦ create_global_handler text status initial_detail e
  | framework_handler status ↦ record { status = status; content = detail; headers = [] }
]
