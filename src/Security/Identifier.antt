-- ===== src/Security/Identifier.antt =====
-- app/core/security/validation.py: `sanitize_identifier`.
use Prim.Native.String.{[], ◌∷◌}
use Prim.Native.Char.{Char, code}
use fastapi_template.Prelude.{
  ℕ, zero, suc, ◌≤◌, String as Text, ◌≡◌, refl, ap, ◌∙◌, Bool, true, ◌&&◌, ◌||◌, arith, leb,
  nat_beq, if◌then◌else◌, string_eq,
}

-- The class `[a-zA-Z0-9_.-]`.
unfoldable pub is_identifier_char : Char → Bool
is_identifier_char c =
    leb b'a' (code c) && leb (code c) b'z'
    || leb b'A' (code c) && leb (code c) b'Z'
    || leb b'0' (code c) && leb (code c) b'9'
    || nat_beq (code c) b'_'
    || nat_beq (code c) b'.'
    || nat_beq (code c) b'-'

-- `re.sub("[^…]", "", value)`: only the characters that pass.
unfoldable pub keep : (Char → Bool) → Text → Text
keep p [] = []
keep p (c ∷ s) = if p c then c ∷ keep p s else keep p s

-- `value[:n]`
unfoldable pub truncate : ℕ → Text → Text
truncate zero s = []
truncate (suc n) [] = []
truncate (suc n) (c ∷ s) = c ∷ truncate n s

-- `len(value)`
unfoldable pub size : Text → ℕ
size [] = 0
size (c ∷ s) = suc (size s)

unfoldable pub every : (Char → Bool) → Text → Bool
every p [] = true
every p (c ∷ s) = p c && every p s

unfoldable pub or_user : Text → Text
or_user [] = "user"
or_user (c ∷ s) = c ∷ s

unfoldable pub sanitize_identifier : ℕ → Text → Text
unfolding keep truncate or_user is_identifier_char
sanitize_identifier max_len value = or_user (truncate max_len (keep is_identifier_char value))

every-keep : (p : Char → Bool) (s : Text) → every p (keep p s) ≡ true
unfolding every keep
every-keep p [] = refl
every-keep p (c ∷ s) = ground (arith, every-keep p s)

pub every-truncate :
    (p : Char → Bool) (n : ℕ) (s : Text) → every p s ≡ true → every p (truncate n s) ≡ true
unfolding every truncate
every-truncate p zero s h = refl
every-truncate p (suc n) [] h = refl
every-truncate p (suc n) (c ∷ s) h = ground (arith, every-truncate p n s)

pub size-truncate : (n : ℕ) (s : Text) → size (truncate n s) ≤ n
unfolding size truncate
size-truncate zero s = omega arith
size-truncate (suc n) [] = omega arith
size-truncate (suc n) (c ∷ s) = omega (arith, size-truncate n s)

keep-every : (p : Char → Bool) (s : Text) → every p s ≡ true → keep p s ≡ s
unfolding every keep
keep-every p [] h = refl
keep-every p (c ∷ s) h = ground (arith, keep-every p s)

pub truncate-short : (n : ℕ) (s : Text) → size s ≤ n → truncate n s ≡ s
unfolding size truncate
truncate-short zero [] h = refl
truncate-short zero (c ∷ s) h = absurd (omega arith)
truncate-short (suc n) [] h = refl
truncate-short (suc n) (c ∷ s) h = ground (arith, truncate-short n s)

or_user-bounds :
    (n : ℕ) (s : Text)
    → every is_identifier_char s ≡ true
    → size s ≤ n
    → 4 ≤ n
    → (every is_identifier_char (or_user s) ≡ true)
      × (1 ≤ size (or_user s))
      × (size (or_user s) ≤ n)
      × (or_user (or_user s) ≡ or_user s)
unfolding or_user every is_identifier_char size
or_user-bounds n [] h k le = (refl, omega arith, omega arith, refl)
or_user-bounds n (c ∷ s) h k le = (h, omega arith, omega arith, refl)

-- For a bound of at least four characters, the result has only letters, digits, dots, underscores and
-- dashes, at least one of them and at most as many as the bound, and is its own result.
pub sanitize_identifier_lem :
    (max_len : ℕ) (value : Text)
    → 4 ≤ max_len
    → let result = sanitize_identifier max_len value in
      (every is_identifier_char result ≡ true)
      × (1 ≤ size result)
      × (size result ≤ max_len)
      × (sanitize_identifier max_len result ≡ result)
unfolding sanitize_identifier
sanitize_identifier_lem max_len value h =
    let kept = keep is_identifier_char value in
    let cut = truncate max_len kept in
    let (clean, filled, short, same) =
      or_user-bounds max_len cut
        (every-truncate is_identifier_char max_len kept (every-keep is_identifier_char value))
        (size-truncate max_len kept) h in
    (
      clean,
      filled,
      short,
      ap (λ r. or_user (truncate max_len r)) (keep-every is_identifier_char (or_user cut) clean)
          ∙ ap or_user (truncate-short max_len (or_user cut) short)
          ∙ same,
    )
