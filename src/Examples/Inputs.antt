-- ===== src/Examples/Inputs.antt =====
-- What the helpers of app/core/security/data_validation.py return for a few inputs.
use Prim.Native.Char.{Char}
use fastapi_template.Prelude.{◌≡◌, refl, Bool, true, [], ◌∷◌}
use fastapi_template.Error.{err, value_error}
use fastapi_template.Logger.{text, items, nil, cons, end, field}
use fastapi_template.Security.Data.{safe_filename, validate_required_fields, sanitize_dict}

-- A list within a list is not trimmed.
nested_kept :
    sanitize_dict 2 (field "a" (items (cons (items (cons (text "long") nil)) nil)) end)
    ≡ field "a" (items (cons (items (cons (text "long") nil)) nil)) end
unfolding sanitize_dict
nested_kept = refl

abbrev any_word : Char → Bool
any_word c = true

-- A bound below the length of the extension and its dot is not kept.
bound_exceeded : safe_filename any_word 5 "aaa.abcdef" ≡ "a.abcdef"
unfolding safe_filename
bound_exceeded = refl

traversal_removed : safe_filename any_word 255 "../..\\%2e%2e/notes.txt" ≡ "notes.txt"
unfolding safe_filename
traversal_removed = refl

-- A field of spaces counts as missing.
blank_missing :
    validate_required_fields (field "name" (text "  ") end) ("name" ∷ []) ≡ err value_error
unfolding validate_required_fields
blank_missing = refl
