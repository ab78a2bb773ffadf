-- ===== src/Common/Words.antt =====
-- Machine words as native numbers: an unsigned integer is its value, and every operation that can
-- leave the width wraps. A signed `int` is its 32-bit pattern.
use Prim.Native.Nat.{ℕ, ◌+◌, ◌-◌, ◌*◌, ◌/◌, ◌%◌, ◌^◌, ◌<◌}
use mpegts_reader.Common.Tests.{ltb, if◌then◌else◌}

abbrev pub u8 : ℕ → ℕ
u8 x = x % 2 ^ 8

abbrev pub u16 : ℕ → ℕ
u16 x = x % 2 ^ 16

abbrev pub u32 : ℕ → ℕ
u32 x = x % 2 ^ 32

abbrev pub u64 : ℕ → ℕ
u64 x = x % 2 ^ 64

infixl 60 ◌<<◌ ◌>>◌
-- `x << k` in 32 bits. On an `int` whose result does not fit this is what the compiler's
-- two's complement shift gives.
abbrev pub ◌<<◌ : ℕ → ℕ → ℕ
x << k = u32 (x * 2 ^ k)

abbrev pub ◌>>◌ : ℕ → ℕ → ℕ
x >> k = x / 2 ^ k

-- An `int`, given as its 32-bit pattern, converted to `uint64_t`: the sign bit is extended.
abbrev pub int_to_u64 : ℕ → ℕ
int_to_u64 w = if ltb w (2 ^ 31) then w else w + (2 ^ 64 - 2 ^ 32)

abbrev pub IsByte : ℕ → Type 0
IsByte b = b < 256
