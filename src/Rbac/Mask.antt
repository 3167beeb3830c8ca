-- ===== src/Rbac/Mask.antt =====
-- app/core/rbac/mask.py: the mask as 32 big-endian bytes and as a hex text. Bytes and characters
-- are numbers. `int.to_bytes`, `int.from_bytes`, `bytes.hex` and `bytes.fromhex` are written out.
pub mod RoundTrip
use fastapi_template.Prelude.{
  ℕ, zero, suc, ◌+◌, ◌-◌, ◌*◌, ◌/◌, ◌%◌, ◌^◌, Bool, ◌&&◌, ◌||◌, true, false, Option, none, some,
  List, [], ◌∷◌, ◌++◌, ltb, leb, ◌==◌, nat_eq, if◌then◌else◌,
}
use fastapi_template.Error.{Result, ok, err, overflow_error, value_error, ◌>>=◌}

abbrev pub Bytes : Type 0
Bytes = List ℕ

-- The code points of an ASCII text.
abbrev pub Text : Type 0
Text = List ℕ

abbrev pub mask_bytes : ℕ
mask_bytes = 32

-- The last `n` base-256 digits, the highest first.
pub be_digits : ℕ → ℕ → Bytes
be_digits zero m = []
be_digits (suc n) m = be_digits n (m / 256) ++ (m % 256) ∷ []

-- `m.to_bytes(n, "big")`
pub to_bytes : ℕ → ℕ → Result Bytes
to_bytes n m = if ltb m (256 ^ n) then ok (be_digits n m) else err overflow_error

-- `int.from_bytes(data, "big")`, from an accumulator.
pub from_bytes : ℕ → Bytes → ℕ
from_bytes acc [] = acc
from_bytes acc (b ∷ bs) = from_bytes (acc * 256 + b) bs

-- `x or 0`
abbrev pub or_zero : Option ℕ → ℕ
or_zero none = 0
or_zero (some m) = m

unfoldable pub mask_to_bytes : Option ℕ → Result Bytes
mask_to_bytes mask = to_bytes mask_bytes (or_zero mask)

-- No data and empty data are both false in Python.
unfoldable pub bytes_to_mask : Option Bytes → ℕ
unfolding from_bytes
bytes_to_mask none = 0
bytes_to_mask (some []) = 0
bytes_to_mask (some (b ∷ bs)) = from_bytes 0 (b ∷ bs)

pub hex_digit : ℕ → ℕ
hex_digit d = if ltb d 10 then b'0' + d else b'a' + (d - 10)

-- `data.hex()`
pub hex : Bytes → Text
unfolding hex_digit
hex [] = []
hex (b ∷ bs) = hex_digit (b / 16) ∷ hex_digit (b % 16) ∷ hex bs

-- The value of a hex digit of either case.
pub digit_value : ℕ → Option ℕ
digit_value c =
    if leb b'0' c && leb c b'9'
    then some (c - b'0')
    else if leb b'a' c && leb c b'f'
    then some (c - b'a' + 10)
    else if leb b'A' c && leb c b'F'
    then some (c - b'A' + 10)
    else none

-- Blanks, which `bytes.fromhex` skips between bytes.
abbrev pub is_space : ℕ → Bool
is_space c = c == 32 || (leb 9 c && leb c 13)

abbrev pub join_digits : Option ℕ → Option ℕ → Result Bytes → Result Bytes
join_digits (some h) (some l) (ok bs) = ok ((h * 16 + l) ∷ bs)
join_digits _ _ _ = err value_error

-- `bytes.fromhex(s)`
pub fromhex : Text → Result Bytes
unfolding digit_value
fromhex [] = ok []
fromhex (c ∷ []) = if is_space c then ok [] else err value_error
fromhex (c ∷ d ∷ s) =
    let skip = fromhex (d ∷ s) in
    let byte = join_digits (digit_value c) (digit_value d) (fromhex s) in
    if is_space c then skip else byte

unfoldable pub mask_to_hex : Option ℕ → Result Text
mask_to_hex mask = do data_bytes ← mask_to_bytes mask; ok (hex data_bytes)

unfoldable pub hex_to_mask : Option Text → Result ℕ
hex_to_mask none = ok 0
hex_to_mask (some []) = ok 0
hex_to_mask (some (c ∷ s)) = do data_bytes ← fromhex (c ∷ s); ok (from_bytes 0 data_bytes)

-- `PermissionMaskType.process_bind_param` and `process_result_value`
unfoldable pub process_bind_param : Option ℕ → Result Bytes
unfolding mask_to_bytes
process_bind_param value = mask_to_bytes value

unfoldable pub process_result_value : Option Bytes → ℕ
unfolding bytes_to_mask
process_result_value value = bytes_to_mask value
