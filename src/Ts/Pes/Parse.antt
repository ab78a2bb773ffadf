-- ===== src/Ts/Pes/Parse.antt =====
-- `parse_pes_header` where the fixed part of the header lies within the payload, and where not; and
-- `write_pes_header` over the bytes that were parsed.
use mpegts_reader.Common.{
  ℕ, ◌+◌, ◌*◌, ◌^◌, ◌≤◌, ◌<◌, ◌≡◌, inl, inr, refl, ap, ◌∙◌, bit_and, bit_or, List, length, arith,
  ◌==◌, ==_iff, get_elem?, get_elem?_lt, get_elem?-All, Option, some, none, Bool-cases,
}
use mpegts_reader.Common.Bits.{bit_or_fields}
use mpegts_reader.Common.Bits.Masks.{and_0xff}
use mpegts_reader.Common.Words.{◌<<◌, ◌>>◌, u8, u16, IsByte}
use mpegts_reader.Common.Outcome.{done, fault}
use mpegts_reader.Ts.{PesHeader, Segment, IsPayload}
use mpegts_reader.Ts.Array.Safe.{load_lt, load_ge, load_cases, store_same}
use mpegts_reader.Ts.Pts.{get_pes_pts, pts_value}
use mpegts_reader.Ts.Pes.{
  read_pts, read_dts, read_optional_header, read_pes_header, parse_pes_header, write_pes_header,
  optional_header_of, pts_ind_of, pts_mask, dts_mask, pts_only_mask,
}

get_pes_pts_lt :
    (marker : ℕ) (payload : List ℕ) (i : ℕ)
    → i + 4 < length payload
    → (v : ℕ) × (get_pes_pts marker payload i ≡ done v)
unfolding get_pes_pts
get_pes_pts_lt marker payload i h =
    let (s0, e0) = load_lt payload i (omega arith) in
    let (s1, e1) = load_lt payload (i + 1) (omega arith) in
    let (s2, e2) = load_lt payload (i + 2) (omega arith) in
    let (s3, e3) = load_lt payload (i + 3) (omega arith) in
    let (s4, e4) = load_lt payload (i + 4) (omega arith) in
    elim (Bool-cases (bit_and s0 marker == marker)) [
      | inl found ↦ (pts_value s0 s1 s2 s3 s4, rw (e0, found, e1, e2, e3, e4) refl)
      | inr missing ↦ (0, rw (e0, missing) refl)
    ]

read_pts_lt :
    (pts_ind : ℕ) (payload : List ℕ) (i old : ℕ)
    → i + 4 < length payload
    → (v : ℕ) × (read_pts pts_ind payload i old ≡ done v)
unfolding read_pts
read_pts_lt pts_ind payload i old h = elim (Bool-cases (pts_ind == 2)) [
  | inl only ↦ let (v, e) = get_pes_pts_lt pts_only_mask payload i h in (v, rw only e)
  | inr other ↦ elim (Bool-cases (pts_ind == 3)) [
    | inl both ↦ let (v, e) = get_pes_pts_lt pts_mask payload i h in (v, rw (other, both) e)
    | inr neither ↦ (old, rw (other, neither) refl)
  ]
]

read_dts_lt :
    (pts_ind : ℕ) (payload : List ℕ) (i old : ℕ)
    → i + 4 < length payload
    → (v : ℕ) × (read_dts pts_ind payload i old ≡ done v)
unfolding read_dts
read_dts_lt pts_ind payload i old h = elim (Bool-cases (pts_ind == 3)) [
  | inl both ↦ let (v, e) = get_pes_pts_lt dts_mask payload i h in (v, rw both e)
  | inr neither ↦ (old, rw neither refl)
]

read_optional_header_lt :
    (pes_header : PesHeader) (payload : List ℕ) (c : ℕ)
    → c + 18 < length payload
    → (h : PesHeader) × (n : ℕ) × (read_optional_header pes_header payload c ≡ done (h, n))
      × (h.stream_id ≡ pes_header.stream_id)
      × (h.len ≡ pes_header.len)
unfolding read_optional_header
read_optional_header_lt pes_header payload c h =
    let (d6, e6) = load_lt payload (c + 6) (omega arith) in
    let (d7, e7) = load_lt payload (c + 7) (omega arith) in
    let (d8, e8) = load_lt payload (c + 8) (omega arith) in
    let (pts, ep) = read_pts_lt (pts_ind_of d7) payload (c + 9) pes_header.pts (omega arith) in
    let (dts, ed) = read_dts_lt (pts_ind_of d7) payload (c + 14) pes_header.dts (omega arith) in
    (
      optional_header_of pes_header d6 d7 d8 pts dts,
      c + 9 + d8,
      rw (e6, e7, e8, ep, ed) refl,
      refl,
      refl,
    )

len_value : (d4 d5 : ℕ) → d4 < 256 → d5 < 256 → u16 (bit_or (d4 << 8) d5) ≡ d4 * 256 + d5
len_value d4 d5 h4 h5 =
    let e : d4 << 8 ≡ d4 * 2 ^ 8 = omega arith in
    omega (arith, ap (λ (t : ℕ). bit_or t d5) e, bit_or_fields 8 d4 d5 h5)

read_pes_header_lt :
    (raw : PesHeader) (payload : List ℕ) (c d3 d4 d5 : ℕ)
    → c + 18 < length payload
    → d4 < 256
    → d5 < 256
    → get_elem? payload (c + 3) ≡ some d3
    → get_elem? payload (c + 4) ≡ some d4
    → get_elem? payload (c + 5) ≡ some d5
    → (h : PesHeader) × (n : ℕ) × (read_pes_header (some raw) payload c ≡ done (h, n))
      × (h.stream_id ≡ d3)
      × (h.len ≡ d4 * 256 + d5)
unfolding read_pes_header
read_pes_header_lt raw payload c d3 d4 d5 h h4 h5 e3 e4 e5 =
    let len : ℕ = d4 * 256 + d5 in
    let begun : PesHeader = record raw { stream_id = d3; len = len } in
    elim (Bool-cases (len == 0)) [
      | inl empty ↦ (begun, c + 6, rw (e3, e4, e5, len_value d4 d5 h4 h5, empty) refl, refl, refl)
      | inr more ↦
          let (header, n, e, es, el) = read_optional_header_lt begun payload c h in
          (header, n, rw (e3, e4, e5, len_value d4 d5 h4 h5, more) e, es, el)
    ]

-- The test for the start code 00 00 01.
start_code_value :
    (d0 d1 d2 : ℕ)
    → d0 < 256
    → d1 < 256
    → d2 < 256
    → bit_or (bit_or (d0 << 16) (d1 << 8)) d2 ≡ d0 * 65536 + d1 * 256 + d2
start_code_value d0 d1 d2 h0 h1 h2 =
    let e0 : d0 << 16 ≡ d0 * 2 ^ 16 = omega arith in
    let e1 : d1 << 8 ≡ d1 * 2 ^ 8 = omega arith in
    let s : bit_or (d0 * 2 ^ 16) (d1 * 2 ^ 8) ≡ (d0 * 2 ^ 8 + d1) * 2 ^ 8 =
      omega (arith, bit_or_fields 16 d0 (d1 * 2 ^ 8) (omega arith)) in
    rw (e0, e1, s) (omega (arith, bit_or_fields 8 (d0 * 2 ^ 8 + d1) d2 h2))

write_back :
    (s : Segment) (c : ℕ) (header : PesHeader) (d3 d4 d5 : ℕ)
    → s.pes_header ≡ some header
    → d4 < 256
    → d5 < 256
    → get_elem? s.payload (c + 2) ≡ some 1
    → get_elem? s.payload (c + 3) ≡ some d3
    → get_elem? s.payload (c + 4) ≡ some d4
    → get_elem? s.payload (c + 5) ≡ some d5
    → header.stream_id ≡ d3
    → header.len ≡ d4 * 256 + d5
    → write_pes_header s c ≡ done (s, c + 6 + header.pes_header_len)
unfolding write_pes_header
write_back s c header d3 d4 d5 is h4 h5 e2 e3 e4 e5 es el =
    let high : u8 (header.len >> 8) ≡ d4 = omega arith in
    let low : bit_and header.len 0xff ≡ d5 = omega (arith, and_0xff header.len) in
    rw
      (
        is,
        store_same s.payload (c + 2) 1 e2,
        es,
        store_same s.payload (c + 3) d3 e3,
        high,
        store_same s.payload (c + 4) d4 e4,
        low,
        store_same s.payload (c + 5) d5 e5,
      )
      refl

no_write_back : (s : Segment) (c : ℕ) → s.pes_header ≡ none → write_pes_header s c ≡ done (s, c)
unfolding write_pes_header
no_write_back s c is = ground arith

-- What `parse_pes_header` stores, `write_pes_header` finds in the payload already.
pub write_pes_header-parse_pes_header :
    (raw : PesHeader) (s : Segment) (c : ℕ)
    → IsPayload s.payload
    → c + 18 < length s.payload
    → (header : Option PesHeader) × (n : ℕ) × (m : ℕ) × (parse_pes_header (some raw) s c
        ≡ done (record s { pes_header = header }, n))
      × ((t : Segment)
          → t.payload ≡ s.payload
          → t.pes_header ≡ header
          → write_pes_header t c ≡ done (t, m))
unfolding parse_pes_header write_pes_header
write_pes_header-parse_pes_header raw s c p h =
    let (d0, e0) = get_elem?_lt s.payload c (omega arith) in
    let (d1, e1) = get_elem?_lt s.payload (c + 1) (omega arith) in
    let (d2, e2) = get_elem?_lt s.payload (c + 2) (omega arith) in
    let (d3, e3) = get_elem?_lt s.payload (c + 3) (omega arith) in
    let (d4, e4) = get_elem?_lt s.payload (c + 4) (omega arith) in
    let (d5, e5) = get_elem?_lt s.payload (c + 5) (omega arith) in
    let h0 = get_elem?-All IsByte s.payload c p.bytes e0 in
    let h1 = get_elem?-All IsByte s.payload (c + 1) p.bytes e1 in
    let h2 = get_elem?-All IsByte s.payload (c + 2) p.bytes e2 in
    let h4 = get_elem?-All IsByte s.payload (c + 4) p.bytes e4 in
    let h5 = get_elem?-All IsByte s.payload (c + 5) p.bytes e5 in
    let code = start_code_value d0 d1 d2 h0 h1 h2 in
    elim (Bool-cases (d0 * 65536 + d1 * 256 + d2 == 1)) [
      | inl start ↦
          let (header, n, e, es, el) =
            read_pes_header_lt raw s.payload c d3 d4 d5 h h4 h5 e3 e4 e5 in
          let one : d2 ≡ 1 = omega (arith, (==_iff (d0 * 65536 + d1 * 256 + d2) 1).0 start) in
          (
            some header,
            n,
            c + 6 + header.pes_header_len,
            rw (e0, e1, e2, code, start, e) refl,
            (λ t same is.
                write_back t c header d3 d4 d5 is h4 h5 (rw same (e2 ∙ ap some one)) (rw same e3)
                  (rw same e4) (rw same e5) es el),
          )
      | inr absent ↦
          (none, c, c, rw (e0, e1, e2, code, absent) refl, λ t same is. no_write_back t c is)
    ]

-- Where the fixed part of a PES header fits behind the cursor and its memory is there, `parse_pes_header`
-- returns, changes nothing of the segment but `pes_header`, and `write_pes_header` at the same cursor
-- leaves the segment that it parsed as it is.
pub parse_pes_header_lem :
    (raw : PesHeader) (s : Segment) (c : ℕ)
    → IsPayload s.payload
    → c + 18 < length s.payload
    → (header : Option PesHeader) × (n : ℕ) × (m : ℕ) × (parse_pes_header (some raw) s c
        ≡ done (record s { pes_header = header }, n))
      × (write_pes_header (record s { pes_header = header }) c
          ≡ done (record s { pes_header = header }, m))
parse_pes_header_lem raw s c p h =
    let (header, n, m, parses, writes) = write_pes_header-parse_pes_header raw s c p h in
    (header, n, m, parses, writes (record s { pes_header = header }) refl refl)

-- With less than three bytes behind the cursor the test for the start code leaves the payload.
pub parse_pes_header_beyond :
    (memory : Option PesHeader) (s : Segment) (c : ℕ)
    → length s.payload ≤ c + 2
    → parse_pes_header memory s c ≡ fault
unfolding parse_pes_header
parse_pes_header_beyond memory s c h = elim (load_cases s.payload c) [
  | inl (d0, e0) ↦ elim (load_cases s.payload (c + 1)) [
    | inl (d1, e1) ↦ rw (e0, e1, load_ge s.payload (c + 2) h) refl
    | inr e1 ↦ rw (e0, e1) refl
  ]
  | inr e0 ↦ rw e0 refl
]
