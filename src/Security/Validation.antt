-- ===== src/Security/Validation.antt =====
-- app/core/security/validation.py: the validators that raise. `\d` of a pattern, the decimal digits of
-- Unicode, is an argument; the patterns for addresses, telephone numbers, SQL and scripts are left out.
pub mod Names
use Prim.Native.String
use Prim.Native.String.{[], ◌∷◌}
use Prim.Native.Char.{Char, code}
use fastapi_template.Prelude.{
  ℕ, String as Text, Bool, true, false, not, ◌&&◌, ◌||◌, if◌then◌else◌, leb, nat_beq,
}
use fastapi_template.Error.{Result, ok, err, value_error}
use fastapi_template.Security.Identifier.{size, every}

abbrev pub between : ℕ → ℕ → Char → Bool
between a b c = leb a (code c) && leb (code c) b

-- The characters that `str.strip` takes away.
unfoldable pub is_space : Char → Bool
is_space c =
    between 9 13 c
    || between 28 32 c
    || nat_beq (code c) 0x85
    || nat_beq (code c) 0xa0
    || nat_beq (code c) 0x1680
    || between 0x2000 0x200a c
    || between 0x2028 0x2029 c
    || nat_beq (code c) 0x202f
    || nat_beq (code c) 0x205f
    || nat_beq (code c) 0x3000

abbrev pub is_newline : Char → Bool
is_newline c = nat_beq (code c) 10

abbrev pub snoc_space : Char → Text → Text
snoc_space c [] = if is_space c then [] else c ∷ []
snoc_space c (d ∷ s) = c ∷ d ∷ s

unfoldable pub rstrip : Text → Text
unfolding is_space
rstrip [] = []
rstrip (c ∷ s) = snoc_space c (rstrip s)

unfoldable pub lstrip : Text → Text
unfolding is_space
lstrip [] = []
lstrip (c ∷ s) = if is_space c then lstrip s else c ∷ s

-- `value.strip()`
unfoldable pub strip : Text → Text
unfolding rstrip lstrip
strip s = lstrip (rstrip s)

-- What stands before a `$` of a pattern: all, or all but one newline at the end.
unfoldable pub chomp : Text → Text
chomp [] = []
chomp (c ∷ []) = if is_newline c then [] else c ∷ []
chomp (c ∷ d ∷ s) = c ∷ chomp (d ∷ s)

-- The class `[a-zA-Z0-9_.:\-]`.
unfoldable pub is_scoped_char : Char → Bool
is_scoped_char c =
    between b'a' b'z' c
    || between b'A' b'Z' c
    || between b'0' b'9' c
    || nat_beq (code c) b'_'
    || nat_beq (code c) b'.'
    || nat_beq (code c) b':'
    || nat_beq (code c) b'-'

-- `_IDENTIFIER_RE.match(value)`
unfoldable pub matches_identifier : Text → Bool
unfolding chomp is_scoped_char
matches_identifier s = leb 1 (size (chomp s)) && every is_scoped_char (chomp s)

unfoldable pub validate_identifier : Text → Result Text
unfolding strip matches_identifier
validate_identifier value =
    if not (matches_identifier (strip value)) then err value_error else ok (strip value)

unfoldable pub validate_length : ℕ → ℕ → Text → Result Text
validate_length min_len max_len value =
    if not (leb min_len (size value) && leb (size value) max_len) then err value_error else ok value

unfoldable pub some_char : (Char → Bool) → Text → Bool
some_char p [] = false
some_char p (c ∷ s) = p c || some_char p s

-- The class of special characters: the punctuation of ASCII but the grave accent and the tilde.
unfoldable pub is_special : Char → Bool
is_special c = between 33 47 c || between 58 64 c || between 91 95 c || between 123 125 c

-- `STRONG_PASSWORD_RE.match(value)`
unfoldable pub matches_strong_password : (Char → Bool) → Text → Bool
unfolding chomp is_special
matches_strong_password is_decimal value =
    let t = chomp value in
    every (λ c. not (is_newline c)) t
    && leb 8 (size t)
    && leb (size t) 128
    && some_char (between b'a' b'z') t
    && some_char (between b'A' b'Z') t
    && some_char is_decimal t
    && some_char is_special t

unfoldable pub validate_strong_password : (Char → Bool) → Text → Result Text
unfolding matches_strong_password
validate_strong_password is_decimal value =
    if not (matches_strong_password is_decimal value) then err value_error else ok value
