-- ===== src/Ts/Pts/Decode.antt =====
-- `get_pes_pts` against the encoding of a time stamp in the standard.
use mpegts_reader.Common.{
  ℕ, ◌+◌, ◌*◌, ◌/◌, ◌%◌, ◌^◌, ◌<◌, ◌≡◌, ◌↔◌, arith, bit_and, bit_or, List, ◌∷◌, ◌++◌, length,
  get_elem?-append_right, get_elem?-append_length, ==_refl, ap,
}
use mpegts_reader.Common.Bits.{bit_or_fields, bit_and_cut}
use mpegts_reader.Common.Bits.Masks.{and_0x0f, and_0x01, nibble_and_self}
use mpegts_reader.Common.Words.{◌<<◌, ◌>>◌, u64, int_to_u64}
use mpegts_reader.Common.Outcome.{done}
use mpegts_reader.Ts.Pts.{pts_value, get_pes_pts}

-- The five bytes of `pts` behind the four bits `prefix`; each group of bits ends in a marker bit 1.
abbrev pub encode_pts : ℕ → ℕ → List ℕ → List ℕ
encode_pts prefix pts rest =
    (prefix * 16 + pts / 2 ^ 30 * 2 + 1)
    ∷ (pts / 2 ^ 22 % 256)
    ∷ (pts / 2 ^ 15 % 128 * 2 + 1)
    ∷ (pts / 2 ^ 7 % 256)
    ∷ (pts % 128 * 2 + 1)
    ∷ rest

-- Two groups of bits, each in its byte, put together.
group_value : (hi lo : ℕ) → hi < 256 → lo < 128 → bit_or (hi << 7) (lo * 2 + 1 >> 1) ≡ hi * 128 + lo
group_value hi lo hh hl =
    let e : hi << 7 ≡ hi * 2 ^ 7 = omega arith in
    let f : lo * 2 + 1 >> 1 ≡ lo = omega arith in rw (e, f) (bit_or_fields 7 hi lo hl)

module _ (prefix pts : ℕ) (hp : prefix < 16) (h : pts < 2 ^ 33) where
  abbrev decoded : ℕ
  decoded =
      pts_value (prefix * 16 + pts / 2 ^ 30 * 2 + 1) (pts / 2 ^ 22 % 256)
        (pts / 2 ^ 15 % 128 * 2 + 1) (pts / 2 ^ 7 % 256) (pts % 128 * 2 + 1)

  decoded_value :
      decoded
      ≡ u64 (u64 (int_to_u64 (pts / 2 ^ 30 << 30) + pts / 2 ^ 15 % 2 ^ 15 * 2 ^ 15) + pts % 2 ^ 15)
  unfolding pts_value
  decoded_value =
      let top : bit_and (prefix * 16 + pts / 2 ^ 30 * 2 + 1) 0x0F >> 1 ≡ pts / 2 ^ 30 =
        omega (arith, and_0x0f (prefix * 16 + pts / 2 ^ 30 * 2 + 1)) in
      let m1 = group_value (pts / 2 ^ 22 % 256) (pts / 2 ^ 15 % 128) (omega arith) (omega arith) in
      let m2 = group_value (pts / 2 ^ 7 % 256) (pts % 128) (omega arith) (omega arith) in
      rw (top, m1, m2) (ground arith)

  decoded_iff : (decoded ≡ pts) ↔ (pts < 2 ^ 31)
  decoded_iff = rw decoded_value (λ e. ground arith, λ e. ground arith)

  marker_found : bit_and (prefix * 16 + pts / 2 ^ 30 * 2 + 1) (prefix * 16 + 1) ≡ prefix * 16 + 1
  marker_found = ground (
    arith,
    bit_and_cut 4 prefix (pts / 2 ^ 30 * 2 + 1) prefix 1 (omega arith) (omega arith),
    nibble_and_self prefix hp,
    and_0x01 (pts / 2 ^ 30 * 2 + 1),
  )

  -- A time stamp below 2 ^ 33, encoded as the standard says behind any bytes and read by the marker of its
  -- prefix of four bits, comes back exactly when it is below 2 ^ 31.
  pub get_pes_pts-encode_pts_iff :
      (front rest : List ℕ)
      → (get_pes_pts (prefix * 16 + 1) (front ++ encode_pts prefix pts rest) (length front)
          ≡ done pts)
        ↔ (pts < 2 ^ 31)
  unfolding get_pes_pts
  get_pes_pts-encode_pts_iff front rest =
      let coded : List ℕ = encode_pts prefix pts rest in
      rw
        (
          get_elem?-append_length front coded,
          marker_found,
          ==_refl (prefix * 16 + 1),
          get_elem?-append_right front coded 1,
          get_elem?-append_right front coded 2,
          get_elem?-append_right front coded 3,
          get_elem?-append_right front coded 4,
        )
        (λ e. decoded_iff.0 (ground arith), λ e. ap done (decoded_iff.1 e))
