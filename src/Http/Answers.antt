-- ===== src/Http/Answers.antt =====
-- What the answers to exceptions show of them.
use fastapi_template.Prelude.{
  ℕ, String, ◌≡◌, refl, sym, ◌∙◌, Bool, true, false, ◌⊎◌, inr, Option, none, some, List, [], ◌∷◌,
  if◌then◌else◌, ◌==◌, nat_eq, string_eq, arith, is_some, ap,
}
use fastapi_template.Prelude.Lists.{find, any}
use fastapi_template.Error.{
  Error, rate_limit, http_exception, integrity_error, overflow_error, value_error, runtime_error,
  attribute_error, key_error,
}
use fastapi_template.Http.{
  Content, returned, app_error, limited, detail, Headers, create_exception_handler,
  create_global_handler,
}
use fastapi_template.Http.Register.{answer}

abbrev pub code_in : {A : Type 0} → Content A → Option String
code_in (returned a) = none
code_in (app_error message code details) = some code
code_in (limited message code headers) = some code
code_in detail = none

abbrev pub message_in : {A : Type 0} → Content A → Option String
message_in (returned a) = none
message_in (app_error message code details) = some message
message_in (limited message code headers) = some message
message_in detail = none

abbrev pub technical_details_in : {A : Type 0} → Content A → Option String
technical_details_in (app_error message code details) = details
technical_details_in other = none

-- The error codes and their statuses.
abbrev codes_by_status : List (ℕ × List String)
codes_by_status =
    (
      400,
      "user_exists" ∷ "email_exists" ∷ "role_exists" ∷ "permission_exists"
          ∷ "permission_already_granted" ∷ "role_already_assigned" ∷ "unknown_permission"
          ∷ "tenant_exists" ∷ "validation_error" ∷ "sanitization_error" ∷ [],
    )
    ∷ (401, "user_unauthenticated" ∷ "invalid_token" ∷ "not_authenticated" ∷ "stale_token" ∷ [])
    ∷ (
      403,
      "user_not_verified" ∷ "user_deactivated" ∷ "tenant_inactive" ∷ "grant_not_allowed"
          ∷ "superuser_required" ∷ [],
    )
    ∷ (
      404,
      "user_not_found" ∷ "role_not_found" ∷ "permission_not_found" ∷ "permission_not_granted"
          ∷ "role_not_assigned" ∷ "tenant_not_found" ∷ [],
    )
    ∷ (429, "rate_limit" ∷ "CircuitOpenError" ∷ [])
    ∷ (
      500,
      "IntegrityError" ∷ "OverflowError" ∷ "ValueError" ∷ "RuntimeError" ∷ "AttributeError"
          ∷ "KeyError" ∷ [],
    )
    ∷ []

abbrev status_listed : Option String → Option ℕ
status_listed none = none
status_listed (some code) = elim (find (λ row. any (λ c. c == code) row.1) codes_by_status) [
  | none ↦ none
  | some row ↦ some row.0
]

-- An error of the database or of Python that no class of the application stands for.
abbrev pub is_unexpected : Error → Bool
is_unexpected integrity_error = true
is_unexpected overflow_error = true
is_unexpected value_error = true
is_unexpected runtime_error = true
is_unexpected attribute_error = true
is_unexpected key_error = true
is_unexpected other = false

-- Whether the answer is FastAPI's own.
abbrev is_framework : Error → Bool
is_framework (http_exception n) = true
is_framework other = false

module _ (A : Type 0) (text : Error → String) (limits : Headers) where
  answer-listed :
      (e : Error)
      → status_listed (code_in (answer {A = A} text limits e).content)
        ≡ (if is_framework e then none else some (answer {A = A} text limits e).status)
  unfolding answer find any create_exception_handler create_global_handler
  answer-listed rate_limit = refl
  answer-listed other = refl

  code-listed :
      (e : Error) (code : String)
      → code_in (answer {A = A} text limits e).content ≡ some code
      → some (answer {A = A} text limits e).status ≡ status_listed (some code)
  unfolding answer
  code-listed (http_exception n) code h = cc
  code-listed other code h = sym (answer-listed other) ∙ ap status_listed h

  -- The error code of an answer determines its status: two exceptions that are answered with the same
  -- code are answered with the same status.
  pub answer-code :
      (e d : Error) (code : String)
      → code_in (answer {A = A} text limits e).content ≡ some code
      → code_in (answer {A = A} text limits d).content ≡ some code
      → (answer {A = A} text limits e).status ≡ (answer {A = A} text limits d).status
  answer-code e d code p q = cc (code-listed e code p, code-listed d code q)

  -- Only an unexpected error is answered with technical details. Its status is then 500 and its
  -- message the fixed one, whatever the text of the error; every other answer has no technical
  -- details.
  pub answer-technical_details :
      (e : Error)
      → (is_unexpected e ≡ true)
          × ((answer {A = A} text limits e).status ≡ 500)
          × (message_in (answer {A = A} text limits e).content ≡ some "Internal Server Error")
          × (is_some (technical_details_in (answer {A = A} text limits e).content) ≡ true)
        ⊎ (is_unexpected e ≡ false)
          × (technical_details_in (answer {A = A} text limits e).content ≡ none)
  unfolding answer create_exception_handler create_global_handler
  answer-technical_details rate_limit = inr (refl, refl)
  answer-technical_details other = ground arith
