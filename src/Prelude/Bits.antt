-- ===== src/Prelude/Bits.antt =====
-- The bit operations of the wire format as arithmetic: masks on one byte, and `|` of a shifted group.
use Prim.Native.Nat.{
  ℕ, zero, suc, ◌+◌, ◌*◌, ◌/◌, ◌%◌, ◌^◌, ◌≤◌, ◌<◌, max, min, bit_and, bit_or, digits,
  bit_and-bitwise, bit_or-bitwise,
}
use mathlib.Core.Path.{◌≡◌, refl, ap}
use mathlib.Core.Bool.{Bool, true, ◌&&◌}
use native.Mathlib.Omega.{arith}
use native.Mathlib.Nat.{pow-suc}
use package.hymer_connect_ha.Prelude.Tests.{◌==◌, ==→eq}

-- `test` passes on 0, …, `count` - 1.
passes : (test : ℕ → Bool) (count : ℕ) → Bool
passes test zero = true
passes test (suc count) = passes test count && test count

passes_at : (test : ℕ → Bool) (b count : ℕ) → b < count → passes test count ≡ true → test b ≡ true
unfolding passes
passes_at test b zero small table = absurd (omega arith)
passes_at test b (suc count) small table = ground (arith, passes_at test b count)

top_table : passes (λ b. bit_and b 0x80 == b / 128 * 128) 256 ≡ true
unfolding passes
top_table = refl

set_table : passes (λ b. bit_or b 0x80 == b + 128) 128 ≡ true
unfolding passes
set_table = refl

pub top_bit : (b : ℕ) → b < 256 → bit_and b 0x80 ≡ b / 128 * 128
top_bit b h = ==→eq _ _ (passes_at _ b 256 h top_table)

pub set_top_bit : (b : ℕ) → b < 128 → bit_or b 0x80 ≡ b + 128
set_top_bit b h = ==→eq _ _ (passes_at _ b 128 h set_table)

-- The digits of `a | b`, lowest first, on a count of digits to go.
abbrev or_digits : ℕ → ℕ → ℕ → ℕ
or_digits n a b = digits (λ b. b) max n a b

or_digits_enough : (n m a b : ℕ) → a ≤ n → a ≤ m → or_digits n a b ≡ or_digits m a b
or_digits_enough zero zero a b p q = refl
or_digits_enough zero (suc m) zero b p q = refl
or_digits_enough zero (suc m) (suc a) b p q = absurd (omega arith)
or_digits_enough (suc n) zero zero b p q = refl
or_digits_enough (suc n) zero (suc a) b p q = absurd (omega arith)
or_digits_enough (suc n) (suc m) zero b p q = refl
or_digits_enough (suc n) (suc m) (suc a) b p q =
    omega (arith, or_digits_enough n m (suc a / 2) (b / 2) (omega arith) (omega arith))

zero-bit_or : (b : ℕ) → bit_or 0 b ≡ b
zero-bit_or b = bit_or-bitwise 0 b

bit_or_step : (n m : ℕ) → bit_or n m ≡ max (n % 2) (m % 2) + 2 * bit_or (n / 2) (m / 2)
bit_or_step zero m = let half = zero-bit_or (m / 2) in omega (arith, zero-bit_or m, half)
bit_or_step (suc n) m =
    let half = suc n / 2 in
    let fuel = or_digits_enough n half half (m / 2) (omega arith) (omega arith) in
    omega (arith, fuel, bit_or-bitwise half (m / 2), bit_or-bitwise (suc n) m)

shifted_half : (high s : ℕ) → high * 2 ^ suc s ≡ (high * 2 ^ s) * 2
shifted_half high s = omega (arith, ap (λ (t : ℕ). high * t) (pow-suc 2 s))

-- `low | (high << s)`, where `low` has at most `s` bits, is a sum.
pub bit_or_shifted : (s low high : ℕ) → low < 2 ^ s → bit_or low (high * 2 ^ s) ≡ low + high * 2 ^ s
bit_or_shifted zero low high h = ground (arith, zero-bit_or (high * 2 ^ 0))
bit_or_shifted (suc s) low high h = ground (
  arith,
  pow-suc 2 s,
  shifted_half high s,
  bit_or_step low (high * 2 ^ suc s),
  bit_or_shifted s (low / 2) high,
)

bit_or-zero_below : (n a : ℕ) → a ≤ n → bit_or a 0 ≡ a
bit_or-zero_below n zero h = zero-bit_or 0
bit_or-zero_below zero (suc a) h = absurd (omega arith)
bit_or-zero_below (suc n) (suc a) h =
    omega (arith, bit_or_step (suc a) 0, bit_or-zero_below n (suc a / 2) (omega arith))

-- `(high << 3) | low` of a field's key.
pub bit_or_key : (high low : ℕ) → low < 8 → bit_or (high * 8) low ≡ high * 8 + low
bit_or_key high low h =
    let last = bit_or-zero_below high high (omega arith) in
    let e1 = bit_or_step (high * 8) low in
    let e2 = bit_or_step (high * 4) (low / 2) in
    let e3 = bit_or_step (high * 2) (low / 2 / 2) in
    let h1 : high * 8 / 2 ≡ high * 4 = omega arith in
    let h2 : high * 4 / 2 ≡ high * 2 = omega arith in
    let h3 : high * 2 / 2 ≡ high = omega arith in
    let z : low / 2 / 2 / 2 ≡ 0 = omega arith in ground (arith, last, e1, e2, e3, h1, h2, h3, z)

-- The digits of `a & b`.
abbrev and_digits : ℕ → ℕ → ℕ → ℕ
and_digits n a b = digits (λ b. zero) min n a b

and_digits_enough : (n m a b : ℕ) → a ≤ n → a ≤ m → and_digits n a b ≡ and_digits m a b
and_digits_enough zero zero a b p q = refl
and_digits_enough zero (suc m) zero b p q = refl
and_digits_enough zero (suc m) (suc a) b p q = absurd (omega arith)
and_digits_enough (suc n) zero zero b p q = refl
and_digits_enough (suc n) zero (suc a) b p q = absurd (omega arith)
and_digits_enough (suc n) (suc m) zero b p q = refl
and_digits_enough (suc n) (suc m) (suc a) b p q =
    omega (arith, and_digits_enough n m (suc a / 2) (b / 2) (omega arith) (omega arith))

nothing-bit_and : (b : ℕ) → bit_and 0 b ≡ 0
nothing-bit_and b = bit_and-bitwise 0 b

bit_and_step : (n m : ℕ) → bit_and n m ≡ min (n % 2) (m % 2) + 2 * bit_and (n / 2) (m / 2)
bit_and_step zero m =
    let none_of = nothing-bit_and (m / 2) in omega (arith, nothing-bit_and m, none_of)
bit_and_step (suc n) m =
    let half = suc n / 2 in
    let fuel = and_digits_enough n half half (m / 2) (omega arith) (omega arith) in
    omega (arith, fuel, bit_and-bitwise half (m / 2), bit_and-bitwise (suc n) m)

bit_and-zero_below : (n a : ℕ) → a ≤ n → bit_and a 0 ≡ 0
bit_and-zero_below n zero h = nothing-bit_and 0
bit_and-zero_below zero (suc a) h = absurd (omega arith)
bit_and-zero_below (suc n) (suc a) h =
    omega (arith, bit_and_step (suc a) 0, bit_and-zero_below n (suc a / 2) (omega arith))

bit_and_one : (a : ℕ) → bit_and a 1 ≡ a % 2
bit_and_one a = omega (arith, bit_and_step a 1, bit_and-zero_below (a / 2) (a / 2) (omega arith))

bit_and_three : (a : ℕ) → bit_and a 3 ≡ a % 4
bit_and_three a = omega (arith, bit_and_step a 3, bit_and_one (a / 2))

-- `a & 0x07` and `a & 0x7F` of a number of any size.
pub bit_and_seven : (a : ℕ) → bit_and a 7 ≡ a % 8
bit_and_seven a = omega (arith, bit_and_step a 7, bit_and_three (a / 2))

bit_and_fifteen : (a : ℕ) → bit_and a 15 ≡ a % 16
bit_and_fifteen a = omega (arith, bit_and_step a 15, bit_and_seven (a / 2))

bit_and_31 : (a : ℕ) → bit_and a 31 ≡ a % 32
bit_and_31 a = omega (arith, bit_and_step a 31, bit_and_fifteen (a / 2))

bit_and_63 : (a : ℕ) → bit_and a 63 ≡ a % 64
bit_and_63 a = omega (arith, bit_and_step a 63, bit_and_31 (a / 2))

pub low_seven : (a : ℕ) → bit_and a 0x7f ≡ a % 128
low_seven a = omega (arith, bit_and_step a 127, bit_and_63 (a / 2))
