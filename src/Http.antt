-- ===== src/Http.antt =====
-- app/error/base.py and app/error/register.py: what an exception is answered with. The text of an
-- exception, `str(exc)`, is an argument; `message` is the same text wherever a class has it.
pub mod Codes
pub mod Register
pub mod Answers
use fastapi_template.Prelude.{
  ℕ, String, Bool, true, false, Option, none, some, List, ◌∷◌, [], if◌then◌else◌, ◌==◌, nat_eq,
  string_eq,
}
use fastapi_template.Error.{
  Subject, Error, Result, ok, err, role_not_found, role_exists, permission_not_found,
  permission_exists, unknown_permission, grant_not_allowed, permission_already_granted,
  permission_not_granted, role_already_assigned, role_not_assigned, superuser_required,
  username_exist, user_mail_exist, user_not_found, user_unauthenticated, user_not_verified,
  invalid_token, user_not_authenticated, user_deactivated, tenant_inactive, stale_token,
  tenant_not_found, tenant_exists, validation_error, sanitization_error, rate_limit, circuit_open,
  http_exception, integrity_error, overflow_error, value_error, runtime_error, attribute_error,
  key_error,
}
use Prim.Native.String.{◌++◌ as ◌<>◌}
use Codes.{type_name, error_code}

abbrev pub Headers : Type 0
Headers = List (String × String)

-- The JSON of an answer: what a route returned, the handlers' two shapes, or FastAPI's own for an
-- `HTTPException`.
pub data Content (A : Type 0) : Type 0 where
  returned : A → Content A
  app_error : (message error_code : String) → (technical_details : Option String) → Content A
  limited : (message error_code : String) → (headers : Headers) → Content A
  detail : Content A

pub record Response (A : Type 0) : Type 0 where
  pub status : ℕ
  pub content : Content A
  pub headers : Headers

-- `initial_detail`
pub record Detail : Type 0 where
  pub message : String
  pub code : Option String

-- `register_exception`: which factory made the handler of a class, with its arguments. A class that
-- is not registered has FastAPI's handler, or falls to that of `Exception`.
pub data Handler : Type 0 where
  exception_handler : (status : ℕ) → (initial_detail : Option Detail) → Handler
  global_handler : (status : ℕ) → (initial_detail : Detail) → Handler
  framework_handler : (status : ℕ) → Handler

abbrev pub code_of : Error → String
code_of e = elim (error_code e) [ none ↦ type_name e | some code ↦ code ]

-- `isinstance(exc, RateLimit)`
abbrev pub is_rate_limit : Error → Bool
is_rate_limit rate_limit = true
is_rate_limit other = false

module _ {A : Type 0} (text : Error → String) where
  -- `limits` are the headers that a `RateLimit` carries.
  unfoldable pub create_exception_handler : ℕ → Option Detail → Headers → Error → Response A
  unfolding error_code type_name
  create_exception_handler status_code initial_detail limits e = record {
    status = status_code;
    content =
        if is_rate_limit e
        then limited (text e) (code_of e) limits
        else app_error (text e) (code_of e) (if status_code == 500 then some (text e) else none);
    headers = [];
  }

  unfoldable pub create_global_handler : ℕ → Detail → Error → Response A
  unfolding type_name
  create_global_handler status_code initial_detail e =
      let error_msg : String =
        if text e == "" then "Internal " <> type_name e <> " occurred" else text e in
      record {
        status = status_code;
        content = app_error initial_detail.message (type_name e) (some error_msg);
        headers = [];
      }
