-- ===== src/Security/Data.antt =====
-- app/core/security/data_validation.py. Which characters `\w` matches is an argument; the bounds are
-- not negative. `validate_model_fields` only calls pydantic and is left out.
pub mod Filenames
pub mod Trimmed
use Prim.Native.String
use Prim.Native.String.{[], ◌∷◌}
use Prim.Native.Char.{Char, code}
use fastapi_template.Prelude.{
  ℕ, zero, suc, ◌+◌, ◌-◌, String as Text, Bool, true, false, not, ◌&&◌, ◌||◌, leb, nat_beq,
  if◌then◌else◌, ◌==◌, string_eq, Option, some, none, List,
}
use fastapi_template.Error.{Result, ok, err, value_error}
use fastapi_template.Logger.{
  Value, text, number, boolean, nothing, items, dict, model, other, Items, nil, cons, Fields, end,
  field, starts_with,
}
use fastapi_template.Security.Identifier.{size, truncate}
use fastapi_template.Security.Validation.{strip}

-- How long a match of `_PATH_TRAVERSAL_RE` at the start is, 0 where there is none.
unfoldable pub traversal_at : Text → ℕ
unfolding starts_with
traversal_at s =
    if starts_with "../" s || starts_with "..\\" s
    then 3
    else if starts_with "%2e%2e%2f" s
    then 9
    else if starts_with "%2e%2e/" s
    then 7
    else 0

-- `_PATH_TRAVERSAL_RE.sub("", value)`, the first characters, of a match, skipped.
unfoldable pub without_traversal : ℕ → Text → Text
unfolding traversal_at
without_traversal skip [] = []
without_traversal (suc skip) (c ∷ s) = without_traversal skip s
without_traversal zero (c ∷ s) =
    let found = traversal_at (c ∷ s) in
    let rest = without_traversal (found - 1) s in if nat_beq found 0 then c ∷ rest else rest

abbrev pub is_dot : Char → Bool
is_dot c = nat_beq (code c) b'.'

unfoldable pub is_edge : Char → Bool
is_edge c = is_dot c || nat_beq (code c) b'_'

unfoldable pub snoc_edge : Char → Text → Text
unfolding is_edge
snoc_edge c [] = if is_edge c then [] else c ∷ []
snoc_edge c (d ∷ s) = c ∷ d ∷ s

unfoldable pub rstrip_edges : Text → Text
unfolding snoc_edge
rstrip_edges [] = []
rstrip_edges (c ∷ s) = snoc_edge c (rstrip_edges s)

unfoldable pub lstrip_edges : Text → Text
unfolding is_edge
lstrip_edges [] = []
lstrip_edges (c ∷ s) = if is_edge c then lstrip_edges s else c ∷ s

-- `value.strip("._")`
unfoldable pub strip_edges : Text → Text
unfolding rstrip_edges lstrip_edges
strip_edges s = lstrip_edges (rstrip_edges s)

abbrev pub or_file : Text → Text
or_file [] = "file"
or_file (c ∷ s) = c ∷ s

abbrev pub before_dot : Char → Text → Option (Text × Text) → Option (Text × Text)
before_dot c s (some (stem, ext)) = some (c ∷ stem, ext)
before_dot c s none = if is_dot c then some ([], s) else none

-- `value.rpartition(".")`: what stands before and after the last dot.
unfoldable pub rpartition_dot : Text → Option (Text × Text)
rpartition_dot [] = none
rpartition_dot (c ∷ s) = before_dot c s (rpartition_dot s)

unfoldable pub join : Text → Text → Text
join [] t = t
join (c ∷ s) t = c ∷ join s t

-- `value[: a - b]`, where a negative bound counts from the end.
unfoldable pub slice_to : ℕ → ℕ → Text → Text
unfolding truncate size
slice_to a b s = if leb b a then truncate (a - b) s else truncate (size s - (b - a)) s

-- `[^\w.\-]` replaced by an underscore.
unfoldable pub is_name_char : (Char → Bool) → Char → Bool
is_name_char is_word c = is_word c || is_dot c || nat_beq (code c) b'-'

unfoldable pub replace_others : (Char → Bool) → Text → Text
unfolding is_name_char
replace_others is_word [] = []
replace_others is_word (c ∷ s) =
    (if is_name_char is_word c then c else "_") ∷ replace_others is_word s

unfoldable pub cut_plain : ℕ → Text → Text
unfolding truncate strip_edges
cut_plain max_len value = strip_edges (truncate max_len value)

-- The name cut to its bound, with the parts around its last dot.
unfoldable pub cut_filename : ℕ → Text → Option (Text × Text) → Text
unfolding cut_plain slice_to strip_edges join size
cut_filename max_len value none = cut_plain max_len value
cut_filename max_len value (some (stem, ext)) =
    if leb 1 (size ext) && leb (size ext) 10
    then join (or_file (strip_edges (slice_to max_len (size ext + 1) stem))) ("." ∷ ext)
    else cut_plain max_len value

unfoldable pub bound_filename : ℕ → Text → Text
unfolding cut_filename rpartition_dot size
bound_filename max_len value =
    if leb (size value) max_len then value else cut_filename max_len value (rpartition_dot value)

unfoldable pub safe_filename : (Char → Bool) → ℕ → Text → Text
unfolding bound_filename replace_others without_traversal strip_edges
safe_filename is_word max_len value =
    bound_filename max_len
      (or_file (strip_edges (replace_others is_word (without_traversal 0 value))))

unfoldable pub get_field : Text → Fields → Option Value
get_field key end = none
get_field key (field k v fs) = let rest = get_field key fs in if key == k then some v else rest

-- `key not in data or data[key] is None or (isinstance(data[key], str) and not data[key].strip())`
unfoldable pub is_missing : Option Value → Bool
unfolding strip size
is_missing none = true
is_missing (some nothing) = true
is_missing (some (text s)) = nat_beq (size (strip s)) 0
is_missing (some v) = false

unfoldable pub validate_required_fields : Fields → List Text → Result Unit
unfolding get_field is_missing
validate_required_fields fields List.[] = ok tt
validate_required_fields fields (List.◌∷◌ key required) =
    let rest = validate_required_fields fields required in
    if is_missing (get_field key fields) then err value_error else rest

unfoldable mutual
  unfolding truncate

  pub sanitize_dict : ℕ → Fields → Fields
  sanitize_dict n end = end
  sanitize_dict n (field k v fs) = field k (sanitize_value n v) (sanitize_dict n fs)

  pub sanitize_value : ℕ → Value → Value
  sanitize_value n (text s) = text (truncate n s)
  sanitize_value n (number m) = number m
  sanitize_value n (boolean b) = boolean b
  sanitize_value n nothing = nothing
  sanitize_value n (items vs) = items (sanitize_items n vs)
  sanitize_value n (dict fs) = dict (sanitize_dict n fs)
  sanitize_value n (model fs) = model fs
  sanitize_value n (other s) = other s

  pub sanitize_items : ℕ → Items → Items
  sanitize_items n nil = nil
  sanitize_items n (cons v vs) = cons (sanitize_item n v) (sanitize_items n vs)

  -- An item of a list: a list within it stays as it is.
  pub sanitize_item : ℕ → Value → Value
  sanitize_item n (text s) = text (truncate n s)
  sanitize_item n (number m) = number m
  sanitize_item n (boolean b) = boolean b
  sanitize_item n nothing = nothing
  sanitize_item n (items vs) = items vs
  sanitize_item n (dict fs) = dict (sanitize_dict n fs)
  sanitize_item n (model fs) = model fs
  sanitize_item n (other s) = other s
