-- ===== src/Logger/Calls.antt =====
-- app/core/logger/decorators.py: the wrapper around a logged function.
use Prim.Native.String.{◌++◌ as ◌<>◌}
use fastapi_template.Prelude.{
  String as Text, Bool, ◌≡◌, refl, true, false, not, ◌||◌, List, [], ◌∷◌, ◌++◌, map, if◌then◌else◌,
  ◌==◌, string_eq, arith,
}
use fastapi_template.Prelude.Lists.{filter, all}
use fastapi_template.Error.{Error, Result, ok, err}
use fastapi_template.Http.Codes.{type_name}
use fastapi_template.Security.Identifier.{truncate}
use fastapi_template.Logger.{Value, redact_value, has_part, is_secret}
use fastapi_template.Logger.Redaction.{hides, clean, hides-redact_value}

-- `log_call`, `log_result` and `log_error`
pub data Record : Type 0 where
  called : (owner method_name : Text) → (arguments : List (Text × Value)) → (layer : Text) → Record
  returned : (result_type result_preview layer : Text) → Record
  raised : (error_type message error_location layer : Text) → Record

-- `_infer_layer`
unfoldable pub infer_layer : Text → Text
infer_layer module_name =
    if has_part ".api." module_name
    then "route"
    else if has_part ".services." module_name
    then "service"
    else if has_part ".repositories." module_name
    then "repository"
    else if has_part ".middleware." module_name
    then "middleware"
    else "function"

-- A function on a state, with the names under which it is logged.
pub record Function (S A : Type 0) : Type 0 where
  pub owner : Text
  pub name : Text
  pub layer : Text
  pub body : S → Result A × S

-- `lower` is `str.lower` and `str` that of an argument.
module _ (lower : Text → Text) (str : Value → Text) where
  -- The arguments that are logged, in the order of the signature.
  unfoldable pub logged_arguments : List (Text × Value) → List (Text × Value)
  logged_arguments bound =
      map (λ (a : Text × Value). (a.0, redact_value lower str a.0 a.1))
        (filter (λ a. not (a.0 == "self" || a.0 == "cls")) bound)

  -- `text` is `str` of an exception, `preview` that of a result, `result_type` the name of its type, and
  -- `duration` the rounded time with its unit.
  unfoldable pub async_wrapper :
      {S A : Type 0}
      → (Error → Text)
      → (A → Text)
      → (A → Text)
      → Text
      → Function S A
      → List (Text × Value)
      → S
      → List Record
      → Result A × S × List Record
  unfolding logged_arguments type_name truncate
  async_wrapper text preview result_type duration f bound s log =
      let before = log ++ called f.owner f.name (logged_arguments bound) f.layer ∷ [] in
      let (result, s') = f.body s in
      let after : List Record = elim result [
        | ok a ↦
            returned ("Success (" <> result_type a <> ")")
              (truncate 120 (preview a) <> " | " <> duration) f.layer
            ∷ []
        | err e ↦
            raised (type_name e) (text e) (f.owner <> "." <> f.name) f.layer
            ∷ returned "Error" duration f.layer
            ∷ []
      ] in
      (result, s', before ++ after)

  -- Where the name of every argument is secret or its value clean, no argument that is logged shows a
  -- secret.
  logged_arguments-hides :
      (reveals : Text → Bool)
      → ((v : Value) → reveals (str v) ≡ not (hides lower reveals v))
      → reveals "********" ≡ false
      → (bound : List (Text × Value))
      → all (λ a. is_secret lower a.0 || clean lower reveals a.1) bound ≡ true
      → all (λ a. hides lower reveals a.1) (logged_arguments bound) ≡ true
  unfolding logged_arguments all filter
  logged_arguments-hides reveals prints masked [] h = refl
  logged_arguments-hides reveals prints masked ((key, v) ∷ bound) h = ground (
    arith,
    hides-redact_value lower reveals str prints masked key v,
    logged_arguments-hides reveals prints masked bound,
  )
