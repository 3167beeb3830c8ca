-- ===== src/Prelude/Bits.antt =====
-- The binary digits of a mask: what `&`, `|`, `^` and a single bit do to each of them, and that the
-- digits determine the number.
use Prim.Native.Nat.{
  ℕ, zero, suc, ◌+◌, ◌-◌, ◌*◌, ◌/◌, ◌%◌, ◌^◌, ◌≤◌, ◌<◌, min, max, bit_and, bit_or, bit_xor, digits,
  bitwise, differ, bit_and-bitwise, bit_or-bitwise, bit_xor-bitwise,
}
use mathlib.Core.Path.{◌≡◌, refl, sym, ◌∙◌, ap, ap₂}
use mathlib.Core.Logic.{◌≢◌, inl, inr}
use mathlib.Core.Bool.{Bool, true, false, ◌&&◌, ◌||◌, not}
use native.Mathlib.Omega.{arith}
use native.Mathlib.Nat.{pow-suc}
use mathlib.Core.Option.{Option, none, some}
use fastapi_template.Prelude.Tests.{nat_beq, Bool-cases}

-- Bit `i` of `m`.
unfoldable pub test_bit : ℕ → ℕ → Bool
test_bit m zero = nat_beq (m % 2) 1
test_bit m (suc i) = test_bit (m / 2) i

module _ (z : ℕ → ℕ) (f : ℕ → ℕ → ℕ) (done : (b : ℕ) → z b ≡ z (b / 2) * 2 + f 0 (b % 2)) where
  -- Fuel beyond the number changes nothing, one unit and then any amount of it.
  one_more : (a b fuel : ℕ) → a ≤ fuel → digits z f (suc fuel) a b ≡ digits z f fuel a b
  one_more zero b zero h = refl
  one_more zero b (suc fuel) h = refl
  one_more (suc a) b zero h = absurd (omega arith)
  one_more (suc a) b (suc fuel) h =
      ap (λ d. d * 2 + f (suc a % 2) (b % 2)) (one_more (suc a / 2) (b / 2) fuel (omega arith))

  any_more : (extra a b : ℕ) → digits z f (extra + a) a b ≡ digits z f a a b
  any_more zero a b = ap (λ fuel. digits z f fuel a b) (omega arith)
  any_more (suc extra) a b =
      let more : suc extra + a ≡ suc (extra + a) = omega arith in
      ap (λ fuel. digits z f fuel a b) more
      ∙ one_more a b (extra + a) (omega arith)
      ∙ any_more extra a b

  bitwise_step : (a b : ℕ) → bitwise z f a b ≡ bitwise z f (a / 2) (b / 2) * 2 + f (a % 2) (b % 2)
  bitwise_step zero b = done b
  bitwise_step (suc a) b =
      let half = suc a / 2 in
      let split : a ≡ a - half + half = omega arith in
      ap (λ d. d * 2 + f (suc a % 2) (b % 2))
        (ap (λ fuel. digits z f fuel half (b / 2)) split ∙ any_more (a - half) half (b / 2))

and_step : (a b : ℕ) → bit_and a b ≡ bit_and (a / 2) (b / 2) * 2 + min (a % 2) (b % 2)
and_step a b = omega (
  arith,
  bit_and-bitwise a b,
  bit_and-bitwise (a / 2) (b / 2),
  bitwise_step (λ b. zero) min (λ b. omega arith) a b,
)

or_step : (a b : ℕ) → bit_or a b ≡ bit_or (a / 2) (b / 2) * 2 + max (a % 2) (b % 2)
or_step a b = omega (
  arith,
  bit_or-bitwise a b,
  bit_or-bitwise (a / 2) (b / 2),
  bitwise_step (λ b. b) max (λ b. omega arith) a b,
)

-- Python's `a & ~b` on numbers that are not negative: the digits of `a` that `b` does not have.
unfoldable pub and_not : ℕ → ℕ → ℕ
and_not a b = bit_xor a (bit_and a b)

pub test_bit-zero : (i : ℕ) → test_bit 0 i ≡ false
unfolding test_bit
test_bit-zero zero = refl
test_bit-zero (suc i) = test_bit-zero i

pub test_bit-and : (i a b : ℕ) → test_bit (bit_and a b) i ≡ (test_bit a i && test_bit b i)
unfolding test_bit
test_bit-and zero a b = ground (arith, and_step a b)
test_bit-and (suc i) a b =
    let halved : bit_and a b / 2 ≡ bit_and (a / 2) (b / 2) = omega (arith, and_step a b) in
    ap (λ n. test_bit n i) halved ∙ test_bit-and i (a / 2) (b / 2)

pub test_bit-or : (i a b : ℕ) → test_bit (bit_or a b) i ≡ (test_bit a i || test_bit b i)
unfolding test_bit
test_bit-or zero a b = ground (arith, or_step a b)
test_bit-or (suc i) a b =
    let halved : bit_or a b / 2 ≡ bit_or (a / 2) (b / 2) = omega (arith, or_step a b) in
    ap (λ n. test_bit n i) halved ∙ test_bit-or i (a / 2) (b / 2)

differ-min : (x y : ℕ) → x < 2 → y < 2 → differ x (min x y) ≡ x - y
differ-min zero y p q = omega arith
differ-min (suc zero) zero p q = omega arith
differ-min (suc zero) (suc zero) p q = omega arith
differ-min (suc zero) (suc (suc y)) p q = absurd (omega arith)
differ-min (suc (suc x)) y p q = absurd (omega arith)

xor_step : (a b : ℕ) → bit_xor a b ≡ bit_xor (a / 2) (b / 2) * 2 + differ (a % 2) (b % 2)
xor_step a b = omega (
  arith,
  bit_xor-bitwise a b,
  bit_xor-bitwise (a / 2) (b / 2),
  bitwise_step (λ b. b) differ (λ b. omega arith) a b,
)

and_not_step : (a b : ℕ) → and_not a b ≡ and_not (a / 2) (b / 2) * 2 + (a % 2 - b % 2)
unfolding and_not
and_not_step a b =
    let halved : bit_and a b / 2 ≡ bit_and (a / 2) (b / 2) = omega (arith, and_step a b) in
    let last : bit_and a b % 2 ≡ min (a % 2) (b % 2) = omega (arith, and_step a b) in
    xor_step a (bit_and a b)
    ∙ rw (halved, last, differ-min (a % 2) (b % 2) (omega arith) (omega arith)) refl

pub test_bit-and_not : (i a b : ℕ) → test_bit (and_not a b) i ≡ (test_bit a i && not (test_bit b i))
unfolding test_bit
test_bit-and_not zero a b = ground (arith, and_not_step a b)
test_bit-and_not (suc i) a b =
    let halved : and_not a b / 2 ≡ and_not (a / 2) (b / 2) = omega (arith, and_not_step a b) in
    ap (λ n. test_bit n i) halved ∙ test_bit-and_not i (a / 2) (b / 2)

-- `1 << k` has the one bit `k`.
pub test_bit-pow : (i k : ℕ) → test_bit (2 ^ k) i ≡ nat_beq k i
unfolding test_bit
test_bit-pow zero zero = refl
test_bit-pow zero (suc k) = ground (arith, pow-suc 2 k)
test_bit-pow (suc i) zero = test_bit-zero i ∙ ground arith
test_bit-pow (suc i) (suc k) =
    let halved : 2 ^ suc k / 2 ≡ 2 ^ k = omega (arith, pow-suc 2 k) in
    ap (λ n. test_bit n i) halved ∙ test_bit-pow i k ∙ ground arith

eq_of_bits_fuel : (n a b : ℕ) → a ≤ n → b ≤ n → ((i : ℕ) → test_bit a i ≡ test_bit b i) → a ≡ b
unfolding test_bit
eq_of_bits_fuel zero a b p q h = omega arith
eq_of_bits_fuel (suc n) a b p q h =
    let halves : a / 2 ≡ b / 2 =
      eq_of_bits_fuel n (a / 2) (b / 2) (omega arith) (omega arith) (λ i. h (suc i)) in
    let last : a % 2 ≡ b % 2 = ground (arith, h 0) in omega arith

-- Two masks with the same bits are equal.
pub eq_of_bits : (a b : ℕ) → ((i : ℕ) → test_bit a i ≡ test_bit b i) → a ≡ b
eq_of_bits a b = eq_of_bits_fuel (max a b) a b (omega arith) (omega arith)

only_bit : (m k i : ℕ) → test_bit m k ≡ false → test_bit (bit_and m (2 ^ k)) i ≡ false
only_bit m k i clear = elim (Bool-cases (nat_beq k i)) [
  | inl same ↦ let at : i ≡ k = ground arith in rw at (ground (arith, test_bit-and k m (2 ^ k)))
  | inr other ↦ ground (arith, test_bit-and i m (2 ^ k), test_bit-pow i k)
]

and-pow_clear : (m k : ℕ) → test_bit m k ≡ false → bit_and m (2 ^ k) ≡ 0
and-pow_clear m k clear =
    eq_of_bits (bit_and m (2 ^ k)) 0 (λ i. only_bit m k i clear ∙ sym (test_bit-zero i))

and-pow_set : (m k : ℕ) → test_bit m k ≡ true → bit_and m (2 ^ k) ≢ 0
and-pow_set m k set e =
    ground
      (arith, test_bit-and k m (2 ^ k), test_bit-pow k k, test_bit-zero k, ap (λ n. test_bit n k) e)

-- The truth value that Python gives to `m & (1 << k)`.
unfoldable pub has_bit : ℕ → ℕ → Bool
has_bit m k = not (nat_beq (bit_and m (2 ^ k)) 0)

pub has_bit-eq-test_bit : (m k : ℕ) → has_bit m k ≡ test_bit m k
unfolding has_bit
has_bit-eq-test_bit m k = elim (Bool-cases (test_bit m k)) [
  | inl set ↦ ground (arith, and-pow_set m k set)
  | inr clear ↦ ground (arith, and-pow_clear m k clear)
]

pub subset_of_and_not : (a b i : ℕ) → and_not a b ≡ 0 → test_bit a i ≡ true → test_bit b i ≡ true
subset_of_and_not a b i e h =
    ground (arith, test_bit-and_not i a b, ap (λ n. test_bit n i) e, test_bit-zero i)

pub and_not_of_subset :
    (a b : ℕ) → ((i : ℕ) → test_bit a i ≡ true → test_bit b i ≡ true) → and_not a b ≡ 0
and_not_of_subset a b h =
    eq_of_bits (and_not a b) 0 (λ i. ground (arith, test_bit-and_not i a b, test_bit-zero i, h i))

lt_one : (a : ℕ) → a < 2 ^ 0 → a ≡ 0
lt_one a p = omega arith

-- `|` does not leave a width that both sides fit.
pub or-lt-pow : (n a b : ℕ) → a < 2 ^ n → b < 2 ^ n → bit_or a b < 2 ^ n
or-lt-pow zero a b p q = ground (arith, ap₂ bit_or (lt_one a p) (lt_one b q))
or-lt-pow (suc n) a b p q = omega (
  arith,
  or_step a b,
  pow-suc 2 n,
  or-lt-pow n (a / 2) (b / 2) (omega (arith, pow-suc 2 n)) (omega (arith, pow-suc 2 n)),
)

-- `bit is not None and m & (1 << bit)`
abbrev pub bit_in : ℕ → Option ℕ → Bool
bit_in m none = false
bit_in m (some bit) = has_bit m bit
