-- ===== src/Ts/Pcr/Read.antt =====
-- What `parse_pcr` reads, against the layout of a PCR: a base of 33 bits, 6 bits that are not read,
-- and an extension of 9 bits.
use mpegts_reader.Common.{
  ℕ, ◌+◌, ◌-◌, ◌*◌, ◌/◌, ◌%◌, ◌^◌, ◌≤◌, ◌<◌, ◌≡◌, ◌↔◌, ◌⊎◌, arith, bit_and, bit_or, ltb,
  if◌then◌else◌,
}
use mpegts_reader.Common.Bits.{bit_or_fields, bit_or_cut, bit_or-zero}
use mpegts_reader.Common.Bits.Masks.{and_0x80, and_0x01, double_or_0x80}
use mpegts_reader.Common.Words.{◌<<◌}
use mpegts_reader.Ts.Pcr.{pcr_base, pcr_ext, pcr_value}

-- The value of the six bytes by the standard's layout.
abbrev pub standard_pcr : ℕ → ℕ → ℕ → ℕ → ℕ → ℕ → ℕ
standard_pcr b0 b1 b2 b3 b4 b5 =
    300 * (b0 * 2 ^ 25 + b1 * 2 ^ 17 + b2 * 2 ^ 9 + b3 * 2 + b4 / 128) + (b4 % 2 * 256 + b5)

-- The lowest nine bits of the base as read: bit 7 is the `or` of its own bit, in `b3`, and of the
-- top bit of `b4`, which belongs at bit 0.
abbrev pub low_part : ℕ → ℕ → ℕ
low_part b3 b4 = if ltb b4 128 then b3 * 2 else b3 * 2 + (1 - b3 / 64 % 2) * 128

low_part_or : (b3 b4 : ℕ) → b3 < 256 → b4 < 256 → bit_or (b3 * 2) (b4 / 128 * 128) ≡ low_part b3 b4
low_part_or b3 b4 h3 h4 =
    let clear : b4 < 128 → b4 / 128 * 128 ≡ 0 = λ h. omega arith in
    let there : 128 ≤ b4 → b4 / 128 * 128 ≡ 0x80 = λ h. omega arith in
    ground (arith, double_or_0x80 b3 h3, bit_or-zero (b3 * 2))

pub low_part_lt : (b3 b4 : ℕ) → b3 < 256 → low_part b3 b4 < 512
low_part_lt b3 b4 h3 = ground arith

low_part_even : (b3 b4 : ℕ) → low_part b3 b4 % 2 ≡ 0
low_part_even b3 b4 = ground arith

-- The 32-bit word that the shifts build.
word_value :
    (b0 b1 b2 b3 b4 : ℕ)
    → b0 < 256
    → b1 < 256
    → b2 < 256
    → b3 < 256
    → b4 < 256
    → bit_or (bit_or (bit_or (bit_or (b0 << 25) (b1 << 17)) (b2 << 9)) (b3 << 1)) (bit_and b4 0x80)
      ≡ b0 % 128 * 2 ^ 25 + b1 * 2 ^ 17 + b2 * 2 ^ 9 + low_part b3 b4
word_value b0 b1 b2 b3 b4 h0 h1 h2 h3 h4 =
    let q0 : ℕ = b0 % 128 in
    let q1 : ℕ = q0 * 2 ^ 8 + b1 in
    let q2 : ℕ = q1 * 2 ^ 8 + b2 in
    let e0 : b0 << 25 ≡ q0 * 2 ^ 25 = omega arith in
    let e1 : b1 << 17 ≡ b1 * 2 ^ 17 = omega arith in
    let e2 : b2 << 9 ≡ b2 * 2 ^ 9 = omega arith in
    let e3 : b3 << 1 ≡ b3 * 2 = omega arith in
    let e4 : bit_and b4 0x80 ≡ b4 / 128 * 128 = omega (arith, and_0x80 b4) in
    let s1 : bit_or (q0 * 2 ^ 25) (b1 * 2 ^ 17) ≡ q1 * 2 ^ 17 =
      omega (arith, bit_or_fields 25 q0 (b1 * 2 ^ 17) (omega arith)) in
    let s2 : bit_or (q1 * 2 ^ 17) (b2 * 2 ^ 9) ≡ q2 * 2 ^ 9 =
      omega (arith, bit_or_fields 17 q1 (b2 * 2 ^ 9) (omega arith)) in
    rw (e0, e1, e2, e3, e4, s1, s2, bit_or_fields 9 q2 (b3 * 2) (omega arith))
      (ground (
        arith,
        bit_or_cut 9 q2 (b3 * 2) 0 (b4 / 128 * 128) (omega arith) (omega arith),
        bit_or-zero q2,
        low_part_or b3 b4 h3 h4,
      ))

pub ext_value : (b4 b5 : ℕ) → b5 < 256 → pcr_ext b4 b5 ≡ b4 % 2 * 256 + b5
unfolding pcr_ext
ext_value b4 b5 h =
    let e : bit_and b4 1 << 8 ≡ b4 % 2 * 2 ^ 8 = omega (arith, and_0x01 b4) in
    rw e (bit_or_fields 8 (b4 % 2) b5 h)

module _ (b0 b1 b2 b3 b4 b5 : ℕ) (h0 : b0 < 256) (h1 : b1 < 256) (h2 : b2 < 256) (h3 : b3 < 256)
    (h4 : b4 < 256) (h5 : b5 < 256) where
  -- For a base below 2 ^ 31 no shift overflows.
  pub base_value :
      b0 < 64 → pcr_base b0 b1 b2 b3 b4 ≡ b0 * 2 ^ 25 + b1 * 2 ^ 17 + b2 * 2 ^ 9 + low_part b3 b4
  unfolding pcr_base
  base_value small =
      rw (word_value b0 b1 b2 b3 b4 h0 h1 h2 h3 h4) (ground (arith, low_part_lt b3 b4 h3))

  -- Otherwise the word loses its top bit or has its sign extended.
  base_large :
      64 ≤ b0
      → (pcr_base b0 b1 b2 b3 b4 + 2 ^ 32 ≡ b0 * 2 ^ 25 + b1 * 2 ^ 17 + b2 * 2 ^ 9 + low_part b3 b4)
        ⊎ ((2 ^ 64 ≤ pcr_base b0 b1 b2 b3 b4 + 2 ^ 31) × (pcr_base b0 b1 b2 b3 b4 < 2 ^ 64))
  unfolding pcr_base
  base_large large =
      rw (word_value b0 b1 b2 b3 b4 h0 h1 h2 h3 h4) (ground (arith, low_part_lt b3 b4 h3))

  small_of_standard : pcr_value b0 b1 b2 b3 b4 b5 ≡ standard_pcr b0 b1 b2 b3 b4 b5 → b0 < 64
  small_of_standard e = ground (arith, ext_value b4 b5 h5, base_large, low_part_lt b3 b4 h3)

  even_of_standard :
      b0 < 64 → pcr_value b0 b1 b2 b3 b4 b5 ≡ standard_pcr b0 b1 b2 b3 b4 b5 → b4 < 128
  even_of_standard small e =
      ground
        (arith, ext_value b4 b5 h5, base_value small, low_part_lt b3 b4 h3, low_part_even b3 b4)

  -- From six bytes `parse_pcr` computes the value of the standard exactly when the base of 33 bits is
  -- below 2 ^ 31 and even.
  pub pcr_value-standard_iff :
      (pcr_value b0 b1 b2 b3 b4 b5 ≡ standard_pcr b0 b1 b2 b3 b4 b5) ↔ ((b0 < 64) × (b4 < 128))
  pcr_value-standard_iff = (
    (λ e. let small = small_of_standard e in (small, even_of_standard small e)),
    λ (s, e). ground (arith, ext_value b4 b5 h5, base_value s),
  )
