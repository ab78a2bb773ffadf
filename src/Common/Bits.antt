-- ===== src/Common/Bits.antt =====
-- `&` and `|` as arithmetic: both work digit by digit, so a number may be cut in two at any bit;
-- on one byte a mask is a table, checked by evaluation.
pub mod Masks
use Prim.Native.Nat.{
  ℕ, zero, suc, ◌+◌, ◌*◌, ◌/◌, ◌%◌, ◌^◌, ◌≤◌, ◌<◌, min, max, bit_and, bit_or, digits,
  bit_and-bitwise, bit_or-bitwise,
}
use mathlib.Core.Path.{◌≡◌, refl, ap}
use mathlib.Core.Bool.{Bool, true, ◌&&◌}
use native.Mathlib.Nat.{pow-suc}
use native.Mathlib.Omega.{arith}
use mpegts_reader.Common.Tests.{◌==◌, ==_iff}

-- Any operation on digits gives the same result on any two fuels that reach the first number.
module _ (rest : ℕ → ℕ) (op : ℕ → ℕ → ℕ) where
  digits_enough : (k l x y : ℕ) → x ≤ k → x ≤ l → digits rest op k x y ≡ digits rest op l x y
  digits_enough zero zero x y hk hl = refl
  digits_enough zero (suc l) zero y hk hl = refl
  digits_enough (suc k) zero zero y hk hl = refl
  digits_enough (suc k) (suc l) zero y hk hl = refl
  digits_enough zero l (suc x) y hk hl = absurd (omega arith)
  digits_enough (suc k) zero (suc x) y hk hl = absurd (omega arith)
  digits_enough (suc k) (suc l) (suc x) y hk hl =
      let halves = digits_enough k l (suc x / 2) (y / 2) (omega arith) (omega arith) in
      omega (arith, halves)

pub zero-bit_and : (b : ℕ) → bit_and 0 b ≡ 0
zero-bit_and b = bit_and-bitwise 0 b

pub zero-bit_or : (b : ℕ) → bit_or 0 b ≡ b
zero-bit_or b = bit_or-bitwise 0 b

-- The lowest digit of a result, and the result for the digits above it.
pub bit_and_step : (x y : ℕ) → bit_and x y ≡ bit_and (x / 2) (y / 2) * 2 + min (x % 2) (y % 2)
bit_and_step zero y = omega (arith, zero-bit_and y, zero-bit_and (y / 2))
bit_and_step (suc x) y =
    let high = digits_enough (λ d. zero) min x (suc x / 2) (suc x / 2) (y / 2) in
    let above = high (omega arith) (omega arith) in
    omega (arith, above, bit_and-bitwise (suc x / 2) (y / 2), bit_and-bitwise (suc x) y)

pub bit_or_step : (x y : ℕ) → bit_or x y ≡ bit_or (x / 2) (y / 2) * 2 + max (x % 2) (y % 2)
bit_or_step zero y = omega (arith, zero-bit_or y, zero-bit_or (y / 2))
bit_or_step (suc x) y =
    let high = digits_enough (λ d. d) max x (suc x / 2) (suc x / 2) (y / 2) in
    let above = high (omega arith) (omega arith) in
    omega (arith, above, bit_or-bitwise (suc x / 2) (y / 2), bit_or-bitwise (suc x) y)

-- Both at 0 on the right, by halving the number on the left.
bits_at_zero : (bound v : ℕ) → v ≤ bound → (bit_and v 0 ≡ 0) × (bit_or v 0 ≡ v)
bits_at_zero bound zero h = (refl, refl)
bits_at_zero zero (suc v) h = absurd (omega arith)
bits_at_zero (suc bound) (suc v) h =
    let (none_set, kept) = bits_at_zero bound (suc v / 2) (omega arith) in
    (omega (arith, none_set, bit_and_step (suc v) 0), omega (arith, kept, bit_or_step (suc v) 0))

pub bit_and-zero : (v : ℕ) → bit_and v 0 ≡ 0
bit_and-zero v = (bits_at_zero v v (omega arith)).0

pub bit_or-zero : (v : ℕ) → bit_or v 0 ≡ v
bit_or-zero v = (bits_at_zero v v (omega arith)).1

shifted_further : (x n : ℕ) → x * 2 ^ suc n ≡ x * 2 ^ n + x * 2 ^ n
shifted_further x n = let product = ap (λ (p : ℕ). x * p) (pow-suc 2 n) in omega (arith, product)

-- Cut both numbers at bit `k`: the operation works on the two halves.
pub bit_and_cut :
    (k a b c d : ℕ)
    → b < 2 ^ k
    → d < 2 ^ k
    → bit_and (a * 2 ^ k + b) (c * 2 ^ k + d) ≡ bit_and a c * 2 ^ k + bit_and b d
bit_and_cut zero a b c d hb hd = ground arith
bit_and_cut (suc k) a b c d hb hd = ground (
  arith,
  bit_and_step (a * 2 ^ suc k + b) (c * 2 ^ suc k + d),
  bit_and_step b d,
  shifted_further a k,
  shifted_further c k,
  shifted_further (bit_and a c) k,
  bit_and_cut k a (b / 2) c (d / 2) (omega (arith, pow-suc 2 k)) (omega (arith, pow-suc 2 k)),
)

pub bit_or_cut :
    (k a b c d : ℕ)
    → b < 2 ^ k
    → d < 2 ^ k
    → bit_or (a * 2 ^ k + b) (c * 2 ^ k + d) ≡ bit_or a c * 2 ^ k + bit_or b d
bit_or_cut zero a b c d hb hd = ground arith
bit_or_cut (suc k) a b c d hb hd = ground (
  arith,
  bit_or_step (a * 2 ^ suc k + b) (c * 2 ^ suc k + d),
  bit_or_step b d,
  shifted_further a k,
  shifted_further c k,
  shifted_further (bit_or a c) k,
  bit_or_cut k a (b / 2) c (d / 2) (omega (arith, pow-suc 2 k)) (omega (arith, pow-suc 2 k)),
)

-- `(q << k) | r` is a sum when `r` fits into `k` bits.
pub bit_or_fields : (k q r : ℕ) → r < 2 ^ k → bit_or (q * 2 ^ k) r ≡ q * 2 ^ k + r
bit_or_fields k q r fits =
    let cut = bit_or_cut k q 0 0 r (omega arith) fits in
    let high = ap (λ (t : ℕ). t * 2 ^ k) (bit_or-zero q) in ground (arith, cut, zero-bit_or r, high)

-- A mask of one byte sees the lowest byte only.
pub bit_and_byte : (v m : ℕ) → m < 256 → bit_and v m ≡ bit_and (v % 256) m
bit_and_byte v m h =
    let cut = bit_and_cut 8 (v / 256) (v % 256) 0 m (omega arith) (omega arith) in
    ground (arith, cut, bit_and-zero (v / 256))

-- Two functions that a run finds equal at every number below `n`.
unfoldable pub agree_below : ℕ → (ℕ → ℕ) → (ℕ → ℕ) → Bool
agree_below zero f g = true
agree_below (suc n) f g = f n == g n && agree_below n f g

pub agree_below_sound : (n : ℕ) (f g : ℕ → ℕ) (x : ℕ) → agree_below n f g ≡ true → x < n → f x ≡ g x
unfolding agree_below
agree_below_sound zero f g x found below = absurd (omega arith)
agree_below_sound (suc n) f g x found below =
    ground (arith, (==_iff (f n) (g n)).0, agree_below_sound n f g x)
