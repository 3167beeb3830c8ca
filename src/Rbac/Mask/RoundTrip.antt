-- ===== src/Rbac/Mask/RoundTrip.antt =====
-- app/core/rbac/mask.py: from a mask to its bytes or its hex text, and back.
use native.Mathlib.Nat.{pow-suc}
use fastapi_template.Prelude.{
  ℕ, zero, suc, ◌+◌, ◌*◌, ◌/◌, ◌%◌, ◌^◌, ◌≤◌, ◌<◌, ◌≡◌, ◌≢◌, refl, ap, ◌∙◌, true, some, [], ◌∷◌,
  ◌++◌, arith,
}
use fastapi_template.Error.{ok, err, overflow_error, ◌>>=◌}
use fastapi_template.Rbac.Mask.{
  Bytes, Text, be_digits, to_bytes, from_bytes, mask_to_bytes, bytes_to_mask, hex_digit, hex,
  digit_value, is_space, fromhex, mask_to_hex, hex_to_mask, process_bind_param,
  process_result_value,
}

from_bytes-append :
    (bs : Bytes) (b acc : ℕ) → from_bytes acc (bs ++ b ∷ []) ≡ from_bytes acc bs * 256 + b
unfolding from_bytes
from_bytes-append [] b acc = refl
from_bytes-append (x ∷ bs) b acc = from_bytes-append bs b (acc * 256 + x)

from_bytes-be_digits : (n m : ℕ) → m < 256 ^ n → from_bytes 0 (be_digits n m) ≡ m
unfolding be_digits
from_bytes-be_digits zero m p = unfold from_bytes in omega arith
from_bytes-be_digits (suc n) m p =
    from_bytes-append (be_digits n (m / 256)) (m % 256) 0
    ∙ omega (arith, pow-suc 256 n, from_bytes-be_digits n (m / 256) (omega (arith, pow-suc 256 n)))

-- Every element is a byte.
abbrev AllBytes : Bytes → Type 0
AllBytes [] = Unit
AllBytes (b ∷ bs) = (b < 256) × AllBytes bs

AllBytes-append : (bs : Bytes) (b : ℕ) → AllBytes bs → b < 256 → AllBytes (bs ++ b ∷ [])
AllBytes-append [] b h p = (p, tt)
AllBytes-append (x ∷ bs) b h p = (h.0, AllBytes-append bs b h.1 p)

AllBytes-be_digits : (n m : ℕ) → AllBytes (be_digits n m)
unfolding be_digits
AllBytes-be_digits zero m = tt
AllBytes-be_digits (suc n) m =
    AllBytes-append (be_digits n (m / 256)) (m % 256) (AllBytes-be_digits n (m / 256)) (omega arith)

digit_value-hex_digit : (d : ℕ) → d < 16 → digit_value (hex_digit d) ≡ some d
unfolding digit_value hex_digit
digit_value-hex_digit d p = ground arith

is_space-hex_digit : (d : ℕ) → d < 16 → is_space (hex_digit d) ≢ true
unfolding hex_digit
is_space-hex_digit d p = ground arith

fromhex-hex : (bs : Bytes) → AllBytes bs → fromhex (hex bs) ≡ ok bs
unfolding fromhex hex
fromhex-hex [] h = refl
fromhex-hex (b ∷ bs) h = ground (
  arith,
  digit_value-hex_digit (b / 16) (omega arith),
  digit_value-hex_digit (b % 16) (omega arith),
  is_space-hex_digit (b / 16) (omega arith),
  fromhex-hex bs h.1,
)

pub mask_to_hex-fits : (m : ℕ) → m < 2 ^ 256 → mask_to_hex (some m) ≡ ok (hex (be_digits 32 m))
unfolding mask_to_hex mask_to_bytes to_bytes
mask_to_hex-fits m p = ground arith

mask_to_hex-overflows : (m : ℕ) → 2 ^ 256 ≤ m → mask_to_hex (some m) ≡ err overflow_error
unfolding mask_to_hex mask_to_bytes to_bytes
mask_to_hex-overflows m p = ground arith

hex_to_mask-fromhex :
    (s : Text) → hex_to_mask (some s) ≡ (fromhex s >>= λ data_bytes. ok (from_bytes 0 data_bytes))
unfolding hex_to_mask
hex_to_mask-fromhex [] = unfold fromhex from_bytes in refl
hex_to_mask-fromhex (c ∷ s) = refl

pub hex_to_mask-hex : (m : ℕ) → m < 2 ^ 256 → hex_to_mask (some (hex (be_digits 32 m))) ≡ ok m
hex_to_mask-hex m p =
    hex_to_mask-fromhex (hex (be_digits 32 m))
    ∙ rw (fromhex-hex (be_digits 32 m) (AllBytes-be_digits 32 m))
        (ap ok (from_bytes-be_digits 32 m p))

-- A mask that fits 256 bits has a hex text, and comes back from it.
pub hex_to_mask-mask_to_hex :
    (m : ℕ)
    → m < 2 ^ 256
    → (s : Text) × (mask_to_hex (some m) ≡ ok s) × (hex_to_mask (some s) ≡ ok m)
hex_to_mask-mask_to_hex m p = (hex (be_digits 32 m), mask_to_hex-fits m p, hex_to_mask-hex m p)

bind_param-fits : (m : ℕ) → m < 2 ^ 256 → process_bind_param (some m) ≡ ok (be_digits 32 m)
unfolding process_bind_param mask_to_bytes to_bytes
bind_param-fits m p = ground arith

result_value-from_bytes : (bs : Bytes) → process_result_value (some bs) ≡ from_bytes 0 bs
unfolding process_result_value bytes_to_mask
result_value-from_bytes [] = unfold from_bytes in refl
result_value-from_bytes (b ∷ bs) = refl

-- What the column type writes to the database for a mask of at most 256 bits, it reads back as the
-- same mask.
pub process_result_value-bind_param :
    (m : ℕ)
    → m < 2 ^ 256
    → (bs : Bytes) × (process_bind_param (some m) ≡ ok bs) × (process_result_value (some bs) ≡ m)
process_result_value-bind_param m p = (
  be_digits 32 m,
  bind_param-fits m p,
  result_value-from_bytes (be_digits 32 m) ∙ from_bytes-be_digits 32 m p,
)
