-- ===== src/Security/Validation/Names.antt =====
-- What the validators let through.
use Prim.Native.String.{[], ◌∷◌}
use Prim.Native.Char.{Char, code}
use fastapi_template.Prelude.{
  ◌+◌, ◌≤◌, String as Text, ◌≡◌, refl, ap, ◌∙◌, Bool, true, false, ◌&&◌, leb, arith, Bool-cases,
  inl, inr, subst,
}
use fastapi_template.Error.{ok}
use fastapi_template.Security.Identifier.{size, every}
use fastapi_template.Security.Validation.{
  is_space, is_newline, snoc_space, rstrip, lstrip, strip, chomp, is_scoped_char,
  matches_identifier, validate_identifier, matches_strong_password, validate_strong_password,
}

newline-space : (c : Char) → is_newline c ≡ true → is_space c ≡ true
unfolding is_space
newline-space c h =
    let low : leb 9 (code c) ≡ true = ground arith in
    let high : leb (code c) 13 ≡ true = ground arith in rw (low, high) refl

chomp-snoc_space : (c : Char) (s : Text) → chomp s ≡ s → chomp (snoc_space c s) ≡ snoc_space c s
unfolding chomp
chomp-snoc_space c [] h = elim (Bool-cases (is_space c)) [
  | inl space ↦ rw space refl
  | inr other ↦ rw other (ground (arith, newline-space c))
]
chomp-snoc_space c (d ∷ s) h = ap (λ t. c ∷ t) h

chomp-rstrip : (s : Text) → chomp (rstrip s) ≡ rstrip s
unfolding rstrip
chomp-rstrip [] = unfold chomp in refl
chomp-rstrip (c ∷ s) = chomp-snoc_space c (rstrip s) (chomp-rstrip s)

chomp-tail : (c : Char) (s : Text) → chomp (c ∷ s) ≡ c ∷ s → chomp s ≡ s
unfolding chomp
chomp-tail c [] h = refl
chomp-tail c (d ∷ s) h = cc

chomp-lstrip : (s : Text) → chomp s ≡ s → chomp (lstrip s) ≡ lstrip s
unfolding lstrip
chomp-lstrip [] h = h
chomp-lstrip (c ∷ s) h = ground (arith, chomp-lstrip s (chomp-tail c s h))

chomp-strip : (s : Text) → chomp (strip s) ≡ strip s
unfolding strip
chomp-strip s = chomp-lstrip (rstrip s) (chomp-rstrip s)

scoped-not_space : (c : Char) → is_scoped_char c ≡ true → is_space c ≡ false
unfolding is_scoped_char is_space
scoped-not_space c h = ground arith

rstrip-scoped : (s : Text) → every is_scoped_char s ≡ true → rstrip s ≡ s
unfolding rstrip every
rstrip-scoped [] h = refl
rstrip-scoped (c ∷ []) h = ground (arith, scoped-not_space c)
rstrip-scoped (c ∷ d ∷ s) h =
    let rest : every is_scoped_char (d ∷ s) ≡ true = ground arith in
    ap (snoc_space c) (rstrip-scoped (d ∷ s) rest)

lstrip-scoped : (s : Text) → every is_scoped_char s ≡ true → lstrip s ≡ s
unfolding lstrip every
lstrip-scoped [] h = refl
lstrip-scoped (c ∷ s) h = ground (arith, scoped-not_space c)

strip-scoped : (s : Text) → every is_scoped_char s ≡ true → strip s ≡ s
unfolding strip
strip-scoped s h = ap lstrip (rstrip-scoped s h) ∙ lstrip-scoped s h

matches-whole :
    (s : Text)
    → chomp s ≡ s
    → matches_identifier s ≡ true
    → (every is_scoped_char s ≡ true) × (1 ≤ size s)
unfolding matches_identifier
matches-whole s whole h =
    let h' : (leb 1 (size s) && every is_scoped_char s) ≡ true =
      subst (λ t. (leb 1 (size t) && every is_scoped_char t) ≡ true) whole h in
    (ground arith, ground arith)

-- A name that the validator returns has at least one character and only letters, digits, dots,
-- underscores, dashes and colons, and the validator returns it unchanged when it is given it again.
pub validate_identifier-clean :
    (value result : Text)
    → validate_identifier value ≡ ok result
    → (every is_scoped_char result ≡ true)
      × (1 ≤ size result)
      × (validate_identifier result ≡ ok result)
unfolding validate_identifier
validate_identifier-clean value result h =
    let passes : matches_identifier (strip value) ≡ true = ground arith in
    let is_result : strip value ≡ result = ground arith in
    let again : matches_identifier result ≡ true =
      subst (λ t. matches_identifier t ≡ true) is_result passes in
    let (clean, filled) =
      matches-whole result (subst (λ t. chomp t ≡ t) is_result (chomp-strip value)) again in
    (clean, filled, rw (strip-scoped result clean, again) refl)

size-chomp : (s : Text) → (size (chomp s) ≤ size s) × (size s ≤ size (chomp s) + 1)
unfolding size chomp
size-chomp [] = omega arith
size-chomp (c ∷ []) = elim (Bool-cases (is_newline c)) [
  | inl newline ↦ rw newline (omega arith)
  | inr other ↦ rw other (omega arith)
]
size-chomp (c ∷ d ∷ s) = omega (arith, size-chomp (d ∷ s))

-- A password that the validator returns is the one it was given, has at least 8 characters and at most
-- 129.
pub validate_strong_password-bounds :
    (is_decimal : Char → Bool) (value result : Text)
    → validate_strong_password is_decimal value ≡ ok result
    → (result ≡ value) × (8 ≤ size value) × (size value ≤ 129)
unfolding validate_strong_password matches_strong_password
validate_strong_password-bounds is_decimal value result h = ground (arith, size-chomp value)
