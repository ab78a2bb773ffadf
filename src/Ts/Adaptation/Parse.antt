-- ===== src/Ts/Adaptation/Parse.antt =====
-- `parse_adaptation_field` on any payload.
use mpegts_reader.Common.{
  ℕ, ◌+◌, ◌≤◌, ◌<◌, ◌≡◌, ◌⊎◌, inl, inr, refl, Bool, true, false, List, length, arith, ◌==◌, ◌||◌,
  get_elem?, some, Bool-cases, get_elem?_lt, get_elem?-All,
}
use mpegts_reader.Common.Words.{IsByte}
use mpegts_reader.Common.Outcome.{done}
use mpegts_reader.Ts.{AdaptField, Segment, field, IsPayload}
use mpegts_reader.Ts.Array.Safe.{load_lt}
use mpegts_reader.Ts.Pcr.{parse_pcr, pcr_value}
use mpegts_reader.Ts.Adaptation.{
  has_bits, adaptation_of, optional_pcr, optional_byte, read_adaptation, parse_adaptation_field,
}

parse_pcr_lt :
    (payload : List ℕ) (i : ℕ)
    → i + 5 < length payload
    → (v : ℕ) × (parse_pcr payload i ≡ done (v, i + 6))
unfolding parse_pcr
parse_pcr_lt payload i h =
    let (b0, e0) = load_lt payload i (omega arith) in
    let (b1, e1) = load_lt payload (i + 1) (omega arith) in
    let (b2, e2) = load_lt payload (i + 2) (omega arith) in
    let (b3, e3) = load_lt payload (i + 3) (omega arith) in
    let (b4, e4) = load_lt payload (i + 4) (omega arith) in
    let (b5, e5) = load_lt payload (i + 5) (omega arith) in
    (pcr_value b0 b1 b2 b3 b4 b5, rw (e0, e1, e2, e3, e4, e5) refl)

-- The optional parts move the cursor by their size at most.
optional_pcr_lt :
    (flag : Bool) (payload : List ℕ) (i old : ℕ)
    → i + 5 < length payload
    → (v : ℕ) × (j : ℕ) × (optional_pcr flag payload i old ≡ done (v, j))
      × (j ≤ i + 6)
      × (flag ≡ true → parse_pcr payload i ≡ done (v, i + 6))
unfolding optional_pcr
optional_pcr_lt true payload i old h =
    let (v, e) = parse_pcr_lt payload i h in (v, i + 6, e, omega arith, λ t. e)
optional_pcr_lt false payload i old h = (old, i, refl, omega arith, λ t. cc)

optional_byte_lt :
    (flag : Bool) (payload : List ℕ) (i old : ℕ)
    → i < length payload
    → (v : ℕ) × (j : ℕ) × (optional_byte flag payload i old ≡ done (v, j))
      × (j ≤ i + 1)
      × (flag ≡ false → v ≡ old)
unfolding optional_byte
optional_byte_lt true payload i old h =
    let (v, e) = load_lt payload i h in (v, i + 1, rw e refl, omega arith, λ t. cc)
optional_byte_lt false payload i old h = (old, i, refl, omega arith, λ t. refl)

-- What a parsed adaptation field holds of the payload and of the memory `dest`.
pub record IsRead (payload : List ℕ) (dest adp : AdaptField) (first flags : ℕ) : Type 0 where
  pub second : get_elem? payload 1 ≡ some flags
  pub len : adp.len ≡ first
  pub rand_acc : adp.rand_acc ≡ has_bits flags 0x40
  pub has_pcr : adp.has_pcr ≡ has_bits flags 0x10
  pub pcr : has_bits flags 0x10 ≡ true → parse_pcr payload 2 ≡ done (adp.pcr, 8)
  pub priv_len : has_bits flags 0x02 ≡ false → adp.priv_len ≡ dest.priv_len

read_adaptation_lt :
    (payload : List ℕ) (dest : AdaptField) (len : ℕ)
    → 15 < length payload
    → get_elem? payload 0 ≡ some len
    → len < 256
    → (adp : AdaptField) × (flags : ℕ) × (read_adaptation payload dest ≡ done (adp, 1 + len))
      × IsRead payload dest adp len flags
unfolding read_adaptation
read_adaptation_lt payload dest len h e0 small =
    let (flags, e1) = get_elem?_lt payload 1 (omega arith) in
    let same : field 8 len ≡ len = omega arith in
    let (pcr, i, e2, hi, is_pcr) =
      optional_pcr_lt (has_bits flags 0x10) payload 2 dest.pcr (omega arith) in
    let (opcr, j, e3, hj, is_opcr) =
      optional_pcr_lt (has_bits flags 0x08) payload i dest.opcr (omega arith) in
    let (splice_count, k, e4, hk, no_splice) =
      optional_byte_lt (has_bits flags 0x04) payload j dest.splice_count (omega arith) in
    let (priv_len, m, e5, hm, no_private) =
      optional_byte_lt (has_bits flags 0x02) payload k dest.priv_len (omega arith) in
    (
      adaptation_of len flags pcr opcr splice_count priv_len,
      flags,
      rw (e0, e1, e2, e3, e4, e5, same) refl,
      record {
        second = e1;
        len = same;
        rand_acc = refl;
        has_pcr = refl;
        pcr = is_pcr;
        priv_len = no_private;
      },
    )

-- On every payload of 184 bytes `parse_adaptation_field` ends without an access outside of it. With a
-- control of 2 or 3 it stores the first byte as the field's length, takes the flags from the second, the
-- PCR from the six bytes behind where its flag is set, and keeps `priv_len` from the memory where its
-- flag is clear; it changes nothing of the segment but the adaptation field, and moves the cursor by the
-- length and one. With any other control it leaves the segment as it is, the adaptation field included,
-- and the cursor at 0.
pub parse_adaptation_field_cases :
    (s : Segment)
    → IsPayload s.payload
    → (((s.header.adaptation_field_ctrl == 2 || s.header.adaptation_field_ctrl == 3) ≡ true)
        × ((len : ℕ) × (adp : AdaptField) × (flags : ℕ) × (get_elem? s.payload 0 ≡ some len)
            × IsRead s.payload s.adaptation_field adp len flags
            × (parse_adaptation_field s ≡ done (record s { adaptation_field = adp }, 1 + len))))
      ⊎ (((s.header.adaptation_field_ctrl == 2 || s.header.adaptation_field_ctrl == 3) ≡ false)
          × (parse_adaptation_field s ≡ done (s, 0)))
unfolding parse_adaptation_field
parse_adaptation_field_cases s p =
    elim (Bool-cases (s.header.adaptation_field_ctrl == 2 || s.header.adaptation_field_ctrl == 3)) [
      | inl there ↦
          let (len, e0) = get_elem?_lt s.payload 0 (omega (arith, p.size)) in
          let small : len < 256 = get_elem?-All IsByte s.payload 0 p.bytes e0 in
          let (adp, flags, e, is) =
            read_adaptation_lt s.payload s.adaptation_field len (omega (arith, p.size)) e0 small in
          inl (there, (len, adp, flags, e0, is, rw (there, e) refl))
      | inr absent ↦ inr (absent, rw absent refl)
    ]
