-- ===== src/Common/Integers.antt =====
-- Signed integers over the native numbers, for a C `int` or `long` whose sums stay within its range.
use mpegts_reader.Common.{ℕ, ◌+◌, ◌-◌, Bool, true, false, leb, if◌then◌else◌, suc, zero}

pub data ℤ : Type 0 where
  pos : ℕ → ℤ
  negsuc : ℕ → ℤ

-- `m - n` of two unsigned numbers that were promoted to `int`.
infixl 20 ◌⊖◌
abbrev pub ◌⊖◌ : ℕ → ℕ → ℤ
m ⊖ n = if leb n m then pos (m - n) else negsuc (n - m - 1)

infixl 20 ◌+ℤ◌
abbrev pub ◌+ℤ◌ : ℤ → ℤ → ℤ
pos m +ℤ pos n = pos (m + n)
pos m +ℤ negsuc n = m ⊖ suc n
negsuc m +ℤ pos n = n ⊖ suc m
negsuc m +ℤ negsuc n = negsuc (m + n + 1)

-- `i > 0`
abbrev pub is_positive : ℤ → Bool
is_positive (pos zero) = false
is_positive (pos (suc n)) = true
is_positive (negsuc n) = false
