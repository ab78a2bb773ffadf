-- ===== src/Ts/Packet/Bounds.antt =====
-- Which packets `parse_ts_segment` reads within the payload, and which not.
use mpegts_reader.Common.{
  ℕ, ◌+◌, ◌/◌, ◌%◌, ◌≤◌, ◌<◌, ◌≡◌, inl, inr, refl, true, List, ◌∷◌, ◌++◌, length, get_elem?, arith,
  ◌==◌, ◌||◌, Option, some, subst,
}
use mpegts_reader.Common.Outcome.{done, fault}
use mpegts_reader.Ts.{PesHeader, AdaptField, Segment, IsPayload}
use mpegts_reader.Ts.Adaptation.Parse.{IsRead, parse_adaptation_field_cases}
use mpegts_reader.Ts.Adaptation.{parse_adaptation_field}
use mpegts_reader.Ts.Pes.{write_pes_header}
use mpegts_reader.Ts.Header.Value.{header_of}
use mpegts_reader.Ts.Pes.Parse.{write_pes_header-parse_pes_header, parse_pes_header_beyond}
use mpegts_reader.Ts.Packet.{parse_body, parse_ts_segment}
use mpegts_reader.Ts.Packet.Parse.{
  IsStart, start_word, has_field, field_says, parse_ts_segment_step,
}

module _ (body : List ℕ) (s : Segment) (p : IsPayload body) where
  abbrev filled : Segment
  filled = record s { payload = body }

  -- The adaptation field is there, with its length.
  pub adaptation_there :
      (len : ℕ)
      → (s.header.adaptation_field_ctrl == 2 || s.header.adaptation_field_ctrl == 3) ≡ true
      → get_elem? body 0 ≡ some len
      → (adp : AdaptField) × (flags : ℕ) × (parse_adaptation_field filled
          ≡ done (record filled { adaptation_field = adp }, 1 + len))
        × IsRead body s.adaptation_field adp len flags
  adaptation_there len there at = elim (parse_adaptation_field_cases filled p) [
    | inl (t, (l, adp, flags, e0, is, e)) ↦
        let same : l ≡ len = ground (arith, at, e0) in
        (adp, flags, rw (← same) e, subst (λ x. IsRead body s.adaptation_field adp x flags) same is)
    | inr (f, e) ↦ cc
  ]

  parse_body_beyond :
      (memory : Option PesHeader) (len : ℕ)
      → (s.header.adaptation_field_ctrl == 2 || s.header.adaptation_field_ctrl == 3) ≡ true
      → get_elem? body 0 ≡ some len
      → 181 ≤ len
      → parse_body memory body s ≡ fault
  unfolding parse_body
  parse_body_beyond memory len there at long =
      let (adp, flags, e, is) = adaptation_there len there at in
      rw
        (
          e,
          parse_pes_header_beyond memory (record filled { adaptation_field = adp }) (1 + len)
              (omega (arith, p.size)),
        )
        refl

  -- With the cursor at `c` and 19 bytes behind it the parse ends, and the PES header that it stores
  -- writes back as it was read.
  pub parse_body_at :
      (raw : PesHeader) (adp : AdaptField) (c : ℕ)
      → parse_adaptation_field filled ≡ done (record filled { adaptation_field = adp }, c)
      → c + 18 < length body
      → (header : Option PesHeader) × (n : ℕ) × (m : ℕ) × (parse_body (some raw) body s
          ≡ done (record filled { adaptation_field = adp; pes_header = header; payload_start = n }))
        × ((t : Segment)
            → t.payload ≡ body
            → t.pes_header ≡ header
            → write_pes_header t c ≡ done (t, m))
  unfolding parse_body
  parse_body_at raw adp c e room =
      let (header, n, m, ep, ew) =
        write_pes_header-parse_pes_header raw (record filled { adaptation_field = adp }) c p room in
      (header, n, m, rw (e, ep) refl, ew)

  parse_body_ends :
      (raw : PesHeader) (len : ℕ)
      → get_elem? body 0 ≡ some len
      → ((s.header.adaptation_field_ctrl == 2 || s.header.adaptation_field_ctrl == 3) ≡ true
          → len ≤ 164)
      → (t : Segment) × (parse_body (some raw) body s ≡ done t)
        × (t.header ≡ s.header)
        × (t.payload ≡ body)
  parse_body_ends raw len at fits = elim (parse_adaptation_field_cases filled p) [
    | inl (there, x) ↦
        let (adp, flags, e, is) = adaptation_there len there at in
        let room : 1 + len + 18 < length body = omega (arith, fits there, p.size) in
        let (header, n, m, eb, ew) = parse_body_at raw adp (1 + len) e room in
        (
          record filled { adaptation_field = adp; pes_header = header; payload_start = n },
          eb,
          refl,
          refl,
        )
    | inr (absent, e) ↦
        let (header, n, m, eb, ew) =
          parse_body_at raw s.adaptation_field 0 e (omega (arith, p.size)) in
        (record filled { pes_header = header; payload_start = n }, eb, refl, refl)
  ]

module _ {h0 h1 h2 h3 : ℕ} (start : IsStart h0 h1 h2 h3) (body rest : List ℕ)
    (p : IsPayload body) where
  -- A packet that starts with the sync byte and has an adaptation field of 181 bytes or more makes
  -- `parse_ts_segment` look for a start code behind the payload, whatever the memory holds.
  pub parse_ts_segment_beyond :
      (memory : Option PesHeader) (s : Segment) (len : ℕ)
      → 2 ≤ h3 / 16 % 4
      → get_elem? body 0 ≡ some len
      → 181 ≤ len
      → parse_ts_segment memory (h0 ∷ h1 ∷ h2 ∷ h3 ∷ (body ++ rest)) s ≡ fault
  parse_ts_segment_beyond memory s len there at long =
      rw
        (
          parse_ts_segment_step memory start body rest s p,
          parse_body_beyond body _ p memory len (has_field memory start there) at long,
        )
        refl

  -- A packet that starts with the sync byte and has no adaptation field, or one of at most 164 bytes, is
  -- read without an access outside the payload: the reader answers TRUE, with the file behind the packet,
  -- the header's fields and the payload's bytes; if the memory of a PES header can be allocated.
  pub parse_ts_segment_reads :
      (raw : PesHeader) (s : Segment) (len : ℕ)
      → get_elem? body 0 ≡ some len
      → (2 ≤ h3 / 16 % 4 → len ≤ 164)
      → (t : Segment) × (parse_ts_segment (some raw) (h0 ∷ h1 ∷ h2 ∷ h3 ∷ (body ++ rest)) s
          ≡ done (true, rest, t))
        × (t.header ≡ header_of (start_word h0 h1 h2 h3))
        × (t.payload ≡ body)
  parse_ts_segment_reads raw s len at fits =
      let begun : Segment = record s { header = header_of (start_word h0 h1 h2 h3) } in
      let (t, e, eh, eb) =
        parse_body_ends body begun p raw len at
          (λ there. fits (field_says (some raw) start there)) in
      (t, rw (parse_ts_segment_step (some raw) start body rest s p, e) refl, eh, eb)
