-- ===== src/Http/Codes.antt =====
-- app/error/{auth,rbac,tenant,validation,ratelimit}.py: the class and the code of an exception.
use fastapi_template.Prelude.{String, Option, none, some}
use fastapi_template.Error.{
  Error, role_not_found, role_exists, permission_not_found, permission_exists, unknown_permission,
  grant_not_allowed, permission_already_granted, permission_not_granted, role_already_assigned,
  role_not_assigned, superuser_required, username_exist, user_mail_exist, user_not_found,
  user_unauthenticated, user_not_verified, invalid_token, user_not_authenticated, user_deactivated,
  tenant_inactive, stale_token, tenant_not_found, tenant_exists, validation_error,
  sanitization_error, rate_limit, circuit_open, http_exception, integrity_error, overflow_error,
  value_error, runtime_error, attribute_error, key_error,
}

-- `type(exc).__name__`
unfoldable pub type_name : Error → String
type_name (role_not_found s) = "RoleNotFound"
type_name (role_exists s) = "RoleExists"
type_name (permission_not_found s) = "PermissionNotFound"
type_name (permission_exists s) = "PermissionExists"
type_name (unknown_permission s) = "UnknownPermission"
type_name grant_not_allowed = "GrantNotAllowed"
type_name permission_already_granted = "PermissionAlreadyGranted"
type_name permission_not_granted = "PermissionNotGranted"
type_name role_already_assigned = "RoleAlreadyAssigned"
type_name role_not_assigned = "RoleNotAssigned"
type_name superuser_required = "SuperuserRequired"
type_name (username_exist s) = "UsernameExist"
type_name (user_mail_exist s) = "UserMailExist"
type_name (user_not_found s) = "UserNotFound"
type_name user_unauthenticated = "UserUnauthenticated"
type_name user_not_verified = "UserNotVerified"
type_name invalid_token = "InvalidToken"
type_name user_not_authenticated = "UserNotAuthenticated"
type_name user_deactivated = "UserDeactivated"
type_name tenant_inactive = "TenantInactive"
type_name stale_token = "StaleToken"
type_name (tenant_not_found s) = "TenantNotFound"
type_name (tenant_exists s) = "TenantExists"
type_name validation_error = "ValidationError"
type_name sanitization_error = "SanitizationError"
type_name rate_limit = "RateLimit"
type_name circuit_open = "CircuitOpenError"
type_name (http_exception n) = "HTTPException"
type_name integrity_error = "IntegrityError"
type_name overflow_error = "OverflowError"
type_name value_error = "ValueError"
type_name runtime_error = "RuntimeError"
type_name attribute_error = "AttributeError"
type_name key_error = "KeyError"

-- `exc.error_code`, where the class sets one.
unfoldable pub error_code : Error → Option String
error_code (role_not_found s) = some "role_not_found"
error_code (role_exists s) = some "role_exists"
error_code (permission_not_found s) = some "permission_not_found"
error_code (permission_exists s) = some "permission_exists"
error_code (unknown_permission s) = some "unknown_permission"
error_code grant_not_allowed = some "grant_not_allowed"
error_code permission_already_granted = some "permission_already_granted"
error_code permission_not_granted = some "permission_not_granted"
error_code role_already_assigned = some "role_already_assigned"
error_code role_not_assigned = some "role_not_assigned"
error_code superuser_required = some "superuser_required"
error_code (username_exist s) = some "user_exists"
error_code (user_mail_exist s) = some "email_exists"
error_code (user_not_found s) = some "user_not_found"
error_code user_unauthenticated = some "user_unauthenticated"
error_code user_not_verified = some "user_not_verified"
error_code invalid_token = some "invalid_token"
error_code user_not_authenticated = some "not_authenticated"
error_code user_deactivated = some "user_deactivated"
error_code tenant_inactive = some "tenant_inactive"
error_code stale_token = some "stale_token"
error_code (tenant_not_found s) = some "tenant_not_found"
error_code (tenant_exists s) = some "tenant_exists"
error_code validation_error = some "validation_error"
error_code sanitization_error = some "sanitization_error"
error_code rate_limit = some "rate_limit"
error_code other = none
