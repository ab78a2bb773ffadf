-- ===== src/Ts/Header/RoundTrip.antt =====
-- `parse_header` and `write_header` against each other.
use mpegts_reader.Common.{
  ℕ, ◌/◌, ◌%◌, ◌^◌, ◌<◌, ◌≡◌, ◌≢◌, refl, arith, ◌==◌, ap, sym, subst, ◌∙◌, ◌⊎◌, inl, inr,
  Bool-cases, ==_iff,
}
use mpegts_reader.Common.Bits.Masks.{and_0xff}
use mpegts_reader.Common.Outcome.{done, exited}
use mpegts_reader.Ts.{TsHeader, Segment}
use mpegts_reader.Ts.Header.{parse_header, write_header, ts_sync, einval}
use mpegts_reader.Ts.Header.Value.{
  bit, IsHeader, header_word, header_of, parse_header-header_of, write_header-header_word,
}

bit-== : (d : ℕ) → d < 2 → bit (d == 1) ≡ d
bit-== d h = ground arith

pub header_of-IsHeader : (v : ℕ) → IsHeader (header_of v)
header_of-IsHeader v = omega arith

header_word-header_of :
    (v : ℕ) → v < 2 ^ 32 → v % 256 ≡ ts_sync → header_word (header_of v) ≡ v % 2 ^ 30
header_word-header_of v h sync =
    let tei = bit-== (v / 2 ^ 15 % 2) (omega arith) in
    let pusi = bit-== (v / 2 ^ 14 % 2) (omega arith) in
    let prior = bit-== (v / 2 ^ 13 % 2) (omega arith) in omega (arith, tei, pusi, prior)

header_of-header_word :
    (h : TsHeader)
    → IsHeader h
    → h.sync ≡ ts_sync
    → header_of (header_word h) ≡ record h { tscramble_control = 0 }
header_of-header_word h w sync = ground arith

pub write_header-header_of :
    (v : ℕ) (s : Segment)
    → v < 2 ^ 32
    → v % 256 ≡ ts_sync
    → s.header ≡ header_of v
    → write_header s ≡ v % 2 ^ 30
write_header-header_of v s h sync is =
    let w : IsHeader s.header = subst IsHeader (sym is) (header_of-IsHeader v) in
    write_header-header_word s w ∙ ap header_word is ∙ header_word-header_of v h sync

-- A 32-bit word whose lowest byte is the sync byte is parsed, and writing the parsed header gives the word back
-- but for its two highest bits, the scrambling control, which become 0.
pub write_header-parse_header :
    (v : ℕ) (s : Segment)
    → v < 2 ^ 32
    → v % 256 ≡ ts_sync
    → (t : Segment) × (parse_header v s ≡ done t) × (write_header t ≡ v % 2 ^ 30)
write_header-parse_header v s h sync =
    let t : Segment = record s { header = header_of v } in
    (t, parse_header-header_of v s sync, write_header-header_of v t h sync refl)

-- For a header within the widths of its fields and with the sync byte, parsing what `write_header` wrote
-- gives every field back but the scrambling control, which becomes 0, and touches nothing else of the
-- segment that is parsed into.
pub parse_header-write_header :
    (s t : Segment)
    → IsHeader s.header
    → s.header.sync ≡ ts_sync
    → parse_header (write_header s) t
      ≡ done (record t { header = record s.header { tscramble_control = 0 } })
parse_header-write_header s t w sync =
    rw (write_header-header_word s w, parse_header-header_of (header_word s.header) t (omega arith))
      (ap (λ h. done (record t { header = h })) (header_of-header_word s.header w sync))

-- A word whose first byte is not the sync byte ends the program with EINVAL. Any other is parsed: the
-- fields are within their widths, the scrambling control is 0 whatever the word says, and the payload
-- is left alone.
pub parse_header_cases :
    (v : ℕ) (s : Segment)
    → ((v % 256 ≢ ts_sync) × (parse_header v s ≡ exited einval))
      ⊎ ((v % 256 ≡ ts_sync)
          × (t : Segment) × (parse_header v s ≡ done t)
          × IsHeader t.header
          × (t.header.tscramble_control ≡ 0)
          × (t.payload ≡ s.payload))
unfolding parse_header
parse_header_cases v s = elim (Bool-cases (v % 256 == ts_sync)) [
  | inl sync ↦
      let e = (==_iff (v % 256) ts_sync).0 sync in
      inr (
        e,
        record s { header = header_of v },
        parse_header-header_of v s e,
        header_of-IsHeader v,
        refl,
        refl,
      )
  | inr other ↦
      let n : v % 256 ≢ ts_sync = λ e. ground (arith, other, e) in
      inl (n, ground (arith, and_0xff v, n))
]
