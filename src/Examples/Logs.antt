-- ===== src/Examples/Logs.antt =====
-- The log of a registration, whose form is a model with a password, and of a list of dictionaries.
use fastapi_template.Prelude.{
  String, Bool, not, ◌≡◌, refl, ◌||◌, if◌then◌else◌, ◌==◌, string_eq, Bool-cases, inl, inr,
}
use fastapi_template.Logger.{
  Value, text, items, dict, model, nil, cons, field, end, is_secret, redact_value,
}
use fastapi_template.Logger.Redaction.{hides, clean, hides-redact_value}

abbrev form : Value
form = model (field "username" (text "eve") (field "password" (text "hunter2") end))

-- A list of one dictionary with a password.
abbrev rows : Value
rows = items (cons (dict (field "password" (text "hunter2") end)) nil)

abbrev same : String → String
same s = s

abbrev reveals : String → Bool
reveals s = s == "hunter2"

abbrev shown : Value → String
shown v = if hides same reveals v then "eve" else "hunter2"

shown-prints : (v : Value) → reveals (shown v) ≡ not (hides same reveals v)
shown-prints v = elim (Bool-cases (hides same reveals v)) [
  | inl clear ↦ rw clear refl
  | inr secret ↦ rw secret refl
]

hides-redact_value_example :
    hides same reveals (redact_value same shown "user_data" form)
    ≡ (is_secret same "user_data" || clean same reveals form)
hides-redact_value_example =
    hides-redact_value same reveals shown shown-prints refl "user_data" form

-- The password of the form stands in the log.
password_logged :
    redact_value same shown "user_data" form
    ≡ dict (field "username" (text "eve") (field "password" (text "hunter2") end))
unfolding redact_value
password_logged = refl

-- A dictionary in a list is printed whole.
row_logged :
    redact_value same shown "rows" rows
    ≡ items (cons (text (shown (dict (field "password" (text "hunter2") end)))) nil)
unfolding redact_value
row_logged = refl
