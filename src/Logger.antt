-- ===== src/Logger.antt =====
-- app/core/logger/emit.py and decorators.py: what the automatic log of calls records. The case mapping
-- `str.lower`, `str` of a value and the duration are arguments; the handlers and formatters of the
-- records are not modelled.
pub mod Redaction
pub mod Calls
use Prim.Native.String
use Prim.Native.String.{[], ◌∷◌}
use Prim.Native.Char.{Char, code}
use fastapi_template.Prelude.{
  ℕ, String as Text, Bool, true, false, not, ◌&&◌, ◌||◌, List, if◌then◌else◌, nat_beq, ◌==◌,
  string_eq,
}
use fastapi_template.Prelude.Lists.{any}

-- The values that an argument of a logged call may be: `model` has a `model_dump`, whose fields these
-- are, and `other` is an object of which only `str` is known.
mutual
  pub data Value : Type 0 where
    text : Text → Value
    number : ℕ → Value
    boolean : Bool → Value
    nothing : Value
    items : Items → Value
    dict : Fields → Value
    model : Fields → Value
    other : Text → Value

  pub data Items : Type 0 where
    nil : Items
    cons : Value → Items → Items

  pub data Fields : Type 0 where
    end : Fields
    field : Text → Value → Fields → Fields

unfoldable pub starts_with : Text → Text → Bool
starts_with [] s = true
starts_with (c ∷ p) [] = false
starts_with (c ∷ p) (d ∷ s) = nat_beq (code c) (code d) && starts_with p s

-- `part in s`
unfoldable pub has_part : Text → Text → Bool
unfolding starts_with
has_part part [] = starts_with part []
has_part part (c ∷ s) = starts_with part (c ∷ s) || has_part part s

abbrev pub secret_tokens : List Text
secret_tokens = List.◌∷◌ "pass" (List.◌∷◌ "token" (List.◌∷◌ "secret" (List.◌∷◌ "key" List.[])))

abbrev pub mask : Value
mask = text "********"

module _ (lower : Text → Text) where
  unfoldable pub is_secret : Text → Bool
  unfolding has_part any
  is_secret key = any (λ token. has_part token (lower key)) secret_tokens

module _ (lower : Text → Text) (str : Value → Text) where
  -- `[str(item) for item in value]`
  unfoldable pub str_items : Items → Items
  str_items nil = nil
  str_items (cons v vs) = cons (text (str v)) (str_items vs)

  unfoldable mutual
    unfolding is_secret str_items

    -- What `_redact_value` returns for a key that is not secret.
    pub redact_open : Value → Value
    redact_open (text s) = text s
    redact_open (number n) = number n
    redact_open (boolean b) = boolean b
    redact_open nothing = nothing
    redact_open (items vs) = items (str_items vs)
    redact_open (dict fs) = dict (redact_fields fs)
    redact_open (model fs) = dict fs
    redact_open (other s) = text s

    pub redact_fields : Fields → Fields
    redact_fields end = end
    redact_fields (field k v fs) =
        field k (if is_secret lower k then mask else redact_open v) (redact_fields fs)

  -- `_redact_value`
  unfoldable pub redact_value : Text → Value → Value
  unfolding redact_open
  redact_value key v = if is_secret lower key then mask else redact_open v
