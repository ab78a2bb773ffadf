-- ===== src/Ts/Pcr/Rewrite.antt =====
-- `write_pcr` over the bytes that `parse_pcr` read, as the program does when it writes a stream back.
use mpegts_reader.Common.{
  ℕ, zero, suc, ◌+◌, ◌*◌, ◌/◌, ◌%◌, ◌^◌, ◌<◌, ◌≡◌, ◌↔◌, refl, arith, bit_and, bit_or, List, ◌∷◌,
  ltb, if◌then◌else◌,
}
use mpegts_reader.Common.Bits.{bit_or-zero}
use mpegts_reader.Common.Bits.Masks.{and_0x80, and_0x01, byte_or_0x80, byte_or_own_bit}
use mpegts_reader.Common.Words.{◌>>◌, u8}
use mpegts_reader.Common.Outcome.{done}
use mpegts_reader.Ts.Pcr.{pcr_value, parse_pcr, write_pcr}
use mpegts_reader.Ts.Pcr.Read.{low_part, low_part_lt, base_value, ext_value}

-- The bytes that `write_pcr` stores over `b4`.
abbrev byte4 : ℕ → ℕ → ℕ
byte4 b4 pcr = u8 (bit_or (u8 (bit_or b4 (bit_and (pcr / 300) 0x80))) (bit_and (pcr % 300 >> 8) 1))

-- With two bytes in front, as in every adaptation field.
pub write_pcr_bytes :
    (l f b0 b1 b2 b3 b4 b5 pcr : ℕ) (rest : List ℕ)
    → write_pcr (l ∷ f ∷ b0 ∷ b1 ∷ b2 ∷ b3 ∷ b4 ∷ b5 ∷ rest) 2 pcr
      ≡ done (
          l
          ∷ f
          ∷ u8 (pcr / 300 >> 25)
          ∷ u8 (pcr / 300 >> 17)
          ∷ u8 (pcr / 300 >> 9)
          ∷ u8 (pcr / 300 >> 1)
          ∷ byte4 b4 pcr
          ∷ u8 (pcr % 300)
          ∷ rest)
unfolding write_pcr
write_pcr_bytes l f b0 b1 b2 b3 b4 b5 pcr rest = ground arith

pub parse_pcr_bytes :
    (l f b0 b1 b2 b3 b4 b5 : ℕ) (rest : List ℕ)
    → parse_pcr (l ∷ f ∷ b0 ∷ b1 ∷ b2 ∷ b3 ∷ b4 ∷ b5 ∷ rest) 2
      ≡ done (pcr_value b0 b1 b2 b3 b4 b5, 8)
unfolding parse_pcr
parse_pcr_bytes l f b0 b1 b2 b3 b4 b5 rest = refl

or_top_bit :
    (b4 d : ℕ) → b4 < 256 → d < 2 → bit_or b4 (d * 128) ≡ (if ltb 0 d then b4 % 128 + 128 else b4)
or_top_bit b4 zero h hd = ground (arith, bit_or-zero b4)
or_top_bit b4 (suc zero) h hd = ground (arith, byte_or_0x80 b4 h)
or_top_bit b4 (suc (suc d)) h hd = absurd (omega arith)

module _ (b0 b1 b2 b3 b4 b5 : ℕ) (h0 : b0 < 64) (h1 : b1 < 256) (h2 : b2 < 256) (h3 : b3 < 256)
    (h4 : b4 < 256) (h5 : b5 < 256) (hext : b4 % 2 * 256 + b5 < 300) where
  abbrev value : ℕ
  value = pcr_value b0 b1 b2 b3 b4 b5

  split_value :
      (value / 300 ≡ b0 * 2 ^ 25 + b1 * 2 ^ 17 + b2 * 2 ^ 9 + low_part b3 b4)
      × (value % 300 ≡ b4 % 2 * 256 + b5)
  split_value =
      let base = base_value b0 b1 b2 b3 b4 b5 (omega arith) h1 h2 h3 h4 h5 h0 in
      let ext = ext_value b4 b5 h5 in
      let low = low_part_lt b3 b4 h3 in omega (arith, base, ext, low)

  byte4-value : byte4 b4 value ≡ (if ltb (b3 / 64 % 2 + b4 / 128) 1 then b4 else b4 % 128 + 128)
  byte4-value =
      let (base, ext) = split_value in
      let d : ℕ = low_part b3 b4 / 128 % 2 in
      let x : ℕ = if ltb 0 d then b4 % 128 + 128 else b4 in
      let top : bit_and (value / 300) 0x80 ≡ d * 128 =
        omega (arith, and_0x80 (value / 300), base) in
      let bottom : bit_and (value % 300 >> 8) 1 ≡ x % 2 =
        ground (arith, and_0x01 (value % 300 >> 8), ext) in
      let small : x < 256 = ground arith in
      rw (top, or_top_bit b4 d h4 (omega arith))
        (let cut : u8 x ≡ x = omega arith in
          rw (cut, bottom, byte_or_own_bit x small) (ground arith))

  -- For the six bytes of a PCR at index 2, with a base below 2 ^ 31 and an extension below 300, writing
  -- the value that `parse_pcr` computes from them back over them leaves them as they were exactly when
  -- bit 7 of the base and bit 0 agree.
  pub write_pcr-parse_pcr_iff :
      (l f : ℕ) (rest : List ℕ)
      → (write_pcr (l ∷ f ∷ b0 ∷ b1 ∷ b2 ∷ b3 ∷ b4 ∷ b5 ∷ rest) 2 value
          ≡ done (l ∷ f ∷ b0 ∷ b1 ∷ b2 ∷ b3 ∷ b4 ∷ b5 ∷ rest))
        ↔ (b3 / 64 % 2 ≡ b4 / 128)
  write_pcr-parse_pcr_iff l f rest =
      let (base, ext) = split_value in
      let low = low_part_lt b3 b4 h3 in
      rw (write_pcr_bytes l f b0 b1 b2 b3 b4 b5 value rest, byte4-value, base, ext)
        (let k : ℕ = b0 * 2 ^ 25 + b1 * 2 ^ 17 + b2 * 2 ^ 9 + low_part b3 b4 in
          let e0 : k / 2 ^ 25 % 256 ≡ b0 = omega arith in
          let e1 : k / 2 ^ 17 % 256 ≡ b1 = omega arith in
          let e2 : k / 2 ^ 9 % 256 ≡ b2 = omega arith in
          let e3 : k / 2 % 256 ≡ low_part b3 b4 / 2 = omega arith in
          let e5 : (b4 % 2 * 256 + b5) % 256 ≡ b5 = omega arith in
          rw (e0, e1, e2, e3, e5) ((λ e. ground arith), λ e. ground arith))
