-- ===== src/Common/Bits/Masks.antt =====
-- The masks of the program as arithmetic: a field of a byte is a quotient and a remainder.
use mpegts_reader.Common.Bits.{
  agree_below, agree_below_sound, bit_and_byte, bit_or_cut, bit_or-zero, bit_or_step,
}
use Prim.Native.Nat.{ℕ, ◌+◌, ◌-◌, ◌*◌, ◌/◌, ◌%◌, ◌^◌, ◌<◌, bit_and, bit_or}
use mathlib.Core.Path.{◌≡◌, refl, ap}
use mathlib.Core.Bool.{true}
use native.Mathlib.Omega.{arith}

-- A mask given by its table on one byte, at every number.
masked :
    (v m : ℕ) (f : ℕ → ℕ)
    → m < 256
    → agree_below 256 (λ b. bit_and b m) f ≡ true
    → bit_and v m ≡ f (v % 256)
masked v m f h t = ground (arith, bit_and_byte v m h, agree_below_sound 256 _ f (v % 256) t)

pub and_0xff : (v : ℕ) → bit_and v 0xff ≡ v % 256
unfolding agree_below
and_0xff v = masked v 0xff (λ b. b) (omega arith) refl

pub and_0x1f : (v : ℕ) → bit_and v 0x1f ≡ v % 32
unfolding agree_below
and_0x1f v = omega (arith, masked v 0x1f (λ b. b % 32) (omega arith) refl)

pub and_0x0f : (v : ℕ) → bit_and v 0x0f ≡ v % 16
unfolding agree_below
and_0x0f v = omega (arith, masked v 0x0f (λ b. b % 16) (omega arith) refl)

pub and_0xc0 : (v : ℕ) → bit_and v 0xc0 ≡ v / 64 % 4 * 64
unfolding agree_below
and_0xc0 v = omega (arith, masked v 0xc0 (λ b. b / 64 * 64) (omega arith) refl)

pub and_0x30 : (v : ℕ) → bit_and v 0x30 ≡ v / 16 % 4 * 16
unfolding agree_below
and_0x30 v = omega (arith, masked v 0x30 (λ b. b / 16 % 4 * 16) (omega arith) refl)

pub and_0x80 : (v : ℕ) → bit_and v 0x80 ≡ v / 128 % 2 * 128
unfolding agree_below
and_0x80 v = omega (arith, masked v 0x80 (λ b. b / 128 * 128) (omega arith) refl)

pub and_0x40 : (v : ℕ) → bit_and v 0x40 ≡ v / 64 % 2 * 64
unfolding agree_below
and_0x40 v = omega (arith, masked v 0x40 (λ b. b / 64 % 2 * 64) (omega arith) refl)

pub and_0x20 : (v : ℕ) → bit_and v 0x20 ≡ v / 32 % 2 * 32
unfolding agree_below
and_0x20 v = omega (arith, masked v 0x20 (λ b. b / 32 % 2 * 32) (omega arith) refl)

pub and_0x10 : (v : ℕ) → bit_and v 0x10 ≡ v / 16 % 2 * 16
unfolding agree_below
and_0x10 v = omega (arith, masked v 0x10 (λ b. b / 16 % 2 * 16) (omega arith) refl)

pub and_0x02 : (v : ℕ) → bit_and v 0x02 ≡ v / 2 % 2 * 2
unfolding agree_below
and_0x02 v = omega (arith, masked v 0x02 (λ b. b / 2 % 2 * 2) (omega arith) refl)

pub and_0x01 : (v : ℕ) → bit_and v 0x01 ≡ v % 2
unfolding agree_below
and_0x01 v = omega (arith, masked v 0x01 (λ b. b % 2) (omega arith) refl)

-- Setting the bit `k` of a number in which it is clear.
pub set_bit :
    (k q r : ℕ) → r < 2 ^ k → bit_or (q * 2 * 2 ^ k + r) (2 ^ k) ≡ q * 2 * 2 ^ k + r + 2 ^ k
set_bit k q r h =
    let odd : bit_or (q * 2) 1 ≡ q * 2 + 1 = ground (arith, bit_or_step (q * 2) 1, bit_or-zero q) in
    ground (
      arith,
      bit_or_cut k (q * 2) r 1 0 h (omega arith),
      bit_or-zero r,
      ap (λ (t : ℕ). t * 2 ^ k) odd,
    )

-- Setting bit 7 of an even number below 512.
pub double_or_0x80 : (b : ℕ) → b < 256 → bit_or (b * 2) 0x80 ≡ b * 2 + (1 - b / 64 % 2) * 128
unfolding agree_below
double_or_0x80 b h =
    agree_below_sound 256 (λ b. bit_or (b * 2) 0x80) (λ b. b * 2 + (1 - b / 64 % 2) * 128) b refl h

-- Setting bit 7, and bit 0 of a byte that has it already.
pub byte_or_0x80 : (b : ℕ) → b < 256 → bit_or b 0x80 ≡ b % 128 + 128
unfolding agree_below
byte_or_0x80 b h = agree_below_sound 256 (λ b. bit_or b 0x80) (λ b. b % 128 + 128) b refl h

pub byte_or_own_bit : (b : ℕ) → b < 256 → bit_or b (b % 2) ≡ b
unfolding agree_below
byte_or_own_bit b h = agree_below_sound 256 (λ b. bit_or b (b % 2)) (λ b. b) b refl h

pub nibble_and_self : (b : ℕ) → b < 16 → bit_and b b ≡ b
unfolding agree_below
nibble_and_self b h = agree_below_sound 16 (λ b. bit_and b b) (λ b. b) b refl h

pub or_0x40_set : (b : ℕ) → b < 256 → bit_and b 0x40 ≡ 0x40 → bit_or b 0x40 ≡ b
unfolding agree_below
or_0x40_set b h e =
    let table =
      agree_below_sound 256 (λ b. bit_or b 0x40) (λ b. b / 128 * 128 + 64 + b % 64) b refl h in
    omega (arith, table, and_0x40 b)
