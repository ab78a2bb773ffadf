-- ===== src/Stream/Packets.antt =====
-- What every segment of a stream has: the sync byte, fields of the header within their widths, and the
-- 184 bytes of a payload. `parse_ts_segment` gives it.
use mpegts_reader.Common.{
  ℕ, ◌+◌, ◌≡◌, refl, sym, ap, ◌∙◌, subst, bit_or, Bool, true, false, Bool-cases, ==_iff, inl, inr,
  ◌||◌, ◌==◌, List, [], ◌∷◌, length, take, drop, Option, none, some,
}
use mpegts_reader.Common.Outcome.{done}
use mpegts_reader.Common.Outcome.Ends.{Ends, if-Ends, >>=-Ends, >>=-Ends_then}
use mpegts_reader.Common.Words.{◌<<◌}
use mpegts_reader.Ts.{PesHeader, Segment, payload_size}
use mpegts_reader.Ts.Array.{load}
use mpegts_reader.Ts.Header.{parse_header, ts_sync}
use mpegts_reader.Ts.Header.Value.{IsHeader, parse_header-header_of}
use mpegts_reader.Ts.Header.RoundTrip.{header_of-IsHeader, parse_header_cases}
use mpegts_reader.Ts.Adaptation.{read_adaptation, parse_adaptation_field}
use mpegts_reader.Ts.Pes.{read_pes_header, parse_pes_header}
use mpegts_reader.Ts.Packet.{word_of_bytes, parse_body, parse_ts_segment}
use mpegts_reader.Stream.{answer, segment_init, parse_into}

pub record IsPacket (s : Segment) : Type 0 where
  pub header : IsHeader s.header
  pub sync : s.header.sync ≡ ts_sync
  pub size : length s.payload ≡ payload_size

-- A segment with the header and a payload of the length of another.
pub record Keeps (s t : Segment) : Type 0 where
  pub header : t.header ≡ s.header
  pub size : length t.payload ≡ length s.payload

pub Keeps-IsPacket : {s t : Segment} → Keeps s t → IsPacket s → IsPacket t
Keeps-IsPacket {s} {t} k p = record {
  header = subst IsHeader (sym k.header) p.header;
  sync = ap (λ h. h.sync) k.header ∙ p.sync;
  size = k.size ∙ p.size;
}

pub Keeps-trans : {r s t : Segment} → Keeps r s → Keeps s t → Keeps r t
Keeps-trans k l = record { header = l.header ∙ k.header; size = l.size ∙ k.size }

parse_header-Ends :
    (v : ℕ) (s : Segment)
    → Ends (λ t. IsHeader t.header × (t.header.sync ≡ ts_sync)) (parse_header v s)
parse_header-Ends v s = elim (parse_header_cases v s) [
  | inl (other, e) ↦ rw e tt
  | inr x ↦ rw (parse_header-header_of v s x.0) (header_of-IsHeader v, x.0)
]

parse_adaptation_field-Ends : (s : Segment) → Ends (λ r. Keeps s r.0) (parse_adaptation_field s)
unfolding parse_adaptation_field
parse_adaptation_field-Ends s =
    let ctrl = s.header.adaptation_field_ctrl in
    if-Ends (λ r. Keeps s r.0) (ctrl == 2 || ctrl == 3) _ (done (s, 0))
      (>>=-Ends (λ r. Keeps s r.0) (read_adaptation s.payload s.adaptation_field) _
        λ read. record { header = refl; size = refl })
      (record { header = refl; size = refl })

parse_pes_header-Ends :
    (memory : Option PesHeader) (s : Segment) (c : ℕ)
    → Ends (λ r. Keeps s r.0) (parse_pes_header memory s c)
unfolding parse_pes_header
parse_pes_header-Ends memory s c =
    let Kept = λ (r : Segment × ℕ). Keeps s r.0 in
    >>=-Ends Kept (load s.payload c) _ λ d0. >>=-Ends Kept (load s.payload (c + 1)) _ λ d1.
      >>=-Ends Kept (load s.payload (c + 2)) _ λ d2.
        let kept : (header : Option PesHeader) → Keeps s (record s { pes_header = header }) =
          λ header. record { header = refl; size = refl } in
        if-Ends Kept (bit_or (bit_or (d0 << 16) (d1 << 8)) d2 == 1) _
          (done (record s { pes_header = none }, c))
          (>>=-Ends Kept (read_pes_header memory s.payload c)
            (λ read. done (record s { pes_header = some read.0 }, read.1))
            λ read. kept (some read.0))
          (kept none)

parse_body-Ends :
    (memory : Option PesHeader) (body : List ℕ) (s : Segment)
    → Ends (Keeps (record s { payload = body })) (parse_body memory body s)
unfolding parse_body
parse_body-Ends memory body s =
    let filled : Segment = record s { payload = body } in
    >>=-Ends_then (Keeps filled) (λ (r : Segment × ℕ). Keeps filled r.0)
      (parse_adaptation_field filled) _ (parse_adaptation_field-Ends filled)
      λ field k.
        >>=-Ends_then (Keeps filled) (λ (r : Segment × ℕ). Keeps field.0 r.0)
          (parse_pes_header memory field.0 field.1) _ (parse_pes_header-Ends memory field.0 field.1)
          λ pes k'. Keeps-trans k (record { header = k'.header; size = k'.size })

parse_ts_segment-Ends :
    (memory : Option PesHeader) (fd : List ℕ) (s : Segment)
    → Ends (λ r. r.0 ≡ true → IsPacket r.2) (parse_ts_segment memory fd s)
unfolding parse_ts_segment
parse_ts_segment-Ends memory [] s = λ e. cc
parse_ts_segment-Ends memory (b ∷ bs) s =
    let Read = λ (r : Bool × List ℕ × Segment). r.0 ≡ true → IsPacket r.2 in
    let body = take payload_size (drop 4 (b ∷ bs)) in
    >>=-Ends_then Read (λ (t : Segment). IsHeader t.header × (t.header.sync ≡ ts_sync))
      (parse_header (word_of_bytes (take 4 (b ∷ bs))) s) _
      (parse_header-Ends (word_of_bytes (take 4 (b ∷ bs))) s)
      λ t (is, sync). elim (Bool-cases (length body == payload_size)) [
        | inl whole ↦ rw whole (
            >>=-Ends_then Read (Keeps (record t { payload = body })) (parse_body memory body t)
              (λ u. done (true, drop payload_size (drop 4 (b ∷ bs)), u))
              (parse_body-Ends memory body t)
              λ u k e. Keeps-IsPacket k (record {
                header = is;
                sync = sync;
                size = (==_iff (length body) payload_size).0 whole;
              }))
        | inr short ↦ rw short tt
      ]

-- What a round of the loop of `mpegts_stream_read_segment` puts into the list.
abbrev pub IsRound : Option (List ℕ × Segment) → Type 0
IsRound none = Unit
IsRound (some (rest, s)) = IsPacket s

answer-Ends : (r : Bool × List ℕ × Segment) → (r.0 ≡ true → IsPacket r.2) → Ends IsRound (answer r)
answer-Ends (true, rest, s) h = h refl
answer-Ends (false, rest, s) h = tt

pub parse_into-Ends :
    (raw : Option Segment) (memory : Option PesHeader) (fd : List ℕ)
    → Ends IsRound (parse_into raw memory fd)
unfolding parse_into
parse_into-Ends none memory [] = tt
parse_into-Ends none memory (b ∷ bs) = tt
parse_into-Ends (some raw) memory fd =
    >>=-Ends_then IsRound (λ r. r.0 ≡ true → IsPacket r.2)
      (parse_ts_segment memory fd (segment_init raw)) answer
      (parse_ts_segment-Ends memory fd (segment_init raw)) answer-Ends
