-- ===== src/Prelude/Decimal.antt =====
-- `str` of a number, `s[:n]`, and lengths of texts in characters.
use Prim.Native.String.{[], ◌∷◌}
use Prim.Native.Char.{Char, code}
use fastapi_template.Prelude.{
  ℕ, zero, suc, ◌+◌, ◌-◌, ◌*◌, ◌/◌, ◌%◌, ◌<◌, String as Text, ◌≡◌, sym, ap, ◌∙◌, arith, nat_beq,
  if◌then◌else◌,
}

abbrev pub char_of : ℕ → Char
char_of zero = "0"
char_of (suc zero) = "1"
char_of (suc (suc zero)) = "2"
char_of (suc (suc (suc zero))) = "3"
char_of (suc (suc (suc (suc zero)))) = "4"
char_of (suc (suc (suc (suc (suc zero))))) = "5"
char_of (suc (suc (suc (suc (suc (suc zero)))))) = "6"
char_of (suc (suc (suc (suc (suc (suc (suc zero))))))) = "7"
char_of (suc (suc (suc (suc (suc (suc (suc (suc zero)))))))) = "8"
char_of other = "9"

-- The digits of a number before those of `acc`; as much fuel as the number and one are enough.
unfoldable pub digits : ℕ → ℕ → Text → Text
digits zero n acc = acc
digits (suc f) n acc =
    let acc' : Text = char_of (n % 10) ∷ acc in
    let rest = digits f (n / 10) acc' in if nat_beq (n / 10) 0 then acc' else rest

unfoldable pub str : ℕ → Text
unfolding digits
str n = digits (suc n) n []

-- The number that digits stand for, after those read so far.
read_from : ℕ → Text → ℕ
read_from v [] = v
read_from v (c ∷ s) = read_from (v * 10 + (code c - 48)) s

code-char_of : (d : ℕ) → d < 10 → code (char_of d) - 48 ≡ d
code-char_of zero h = omega arith
code-char_of (suc zero) h = omega arith
code-char_of (suc (suc zero)) h = omega arith
code-char_of (suc (suc (suc zero))) h = omega arith
code-char_of (suc (suc (suc (suc zero)))) h = omega arith
code-char_of (suc (suc (suc (suc (suc zero))))) h = omega arith
code-char_of (suc (suc (suc (suc (suc (suc zero)))))) h = omega arith
code-char_of (suc (suc (suc (suc (suc (suc (suc zero))))))) h = omega arith
code-char_of (suc (suc (suc (suc (suc (suc (suc (suc zero)))))))) h = omega arith
code-char_of (suc (suc (suc (suc (suc (suc (suc (suc (suc n))))))))) h = omega arith

read_from-digits : (f n : ℕ) (acc : Text) → n < f → read_from 0 (digits f n acc) ≡ read_from n acc
unfolding read_from digits
read_from-digits zero n acc h = absurd (omega arith)
read_from-digits (suc f) n acc h = ground (
  arith,
  code-char_of (n % 10) (omega arith),
  read_from-digits f (n / 10) (char_of (n % 10) ∷ acc),
)

pub str-injective : (m n : ℕ) → str m ≡ str n → m ≡ n
unfolding str read_from
str-injective m n h =
    sym (read_from-digits (suc m) m [] (omega arith))
    ∙ ap (read_from 0) h
    ∙ read_from-digits (suc n) n [] (omega arith)

pub str-nil : (n : ℕ) → str n ≡ "" → n ≡ 0
unfolding str read_from
str-nil n h = sym (read_from-digits (suc n) n [] (omega arith)) ∙ ap (read_from 0) h
