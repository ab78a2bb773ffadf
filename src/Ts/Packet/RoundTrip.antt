-- ===== src/Ts/Packet/RoundTrip.antt =====
-- A packet read and written back, as the program does with every packet of a stream.
use mpegts_reader.Common.{
  ℕ, ◌/◌, ◌%◌, ◌≤◌, ◌<◌, ◌≡◌, refl, true, false, List, ◌∷◌, ◌++◌, some, ◌∙◌, ap,
}
use mpegts_reader.Common.Outcome.{done}
use mpegts_reader.Ts.{PesHeader, Segment, IsPayload}
use mpegts_reader.Ts.Header.Value.{header_of}
use mpegts_reader.Ts.Adaptation.{has_bits}
use mpegts_reader.Ts.Packet.{parse_ts_segment, write_ts_segment}
use mpegts_reader.Ts.Packet.Parse.{IsStart, start_word}
use mpegts_reader.Ts.Packet.Settled.{
  start_bytes, IsStablePcr, IsSettled, parse_ts_segment-IsSettled, parse_ts_segment_field-IsSettled,
}

module _ {h0 h1 h2 h3 : ℕ} (start : IsStart h0 h1 h2 h3) (clear : h3 < 64) where
  -- A settled segment with the packet's header.
  pub written_back :
      (t : Segment) (body : List ℕ)
      → t.header ≡ header_of (start_word h0 h1 h2 h3)
      → t.payload ≡ body
      → IsSettled t
      → write_ts_segment t ≡ done (t, h0 ∷ h1 ∷ h2 ∷ h3 ∷ body)
  written_back t body eh eb is =
      is.written t.header refl
      ∙ ap (λ bs. done (t, bs ++ t.payload)) (start_bytes start clear t eh)
      ∙ ap (λ bs. done (t, h0 ∷ h1 ∷ h2 ∷ h3 ∷ bs)) eb

module _ {h0 h1 h2 h3 : ℕ} (start : IsStart h0 h1 h2 h3) (clear : h3 < 64) (raw : PesHeader) where
  -- A packet with clear scrambling bits and no adaptation field is written back byte for byte, if the
  -- memory of the segment says neither `has_pcr` nor `rand_acc`.
  pub write_ts_segment-parse_ts_segment :
      (body rest : List ℕ) (s : Segment)
      → IsPayload body
      → h3 / 16 % 4 < 2
      → s.adaptation_field.has_pcr ≡ false
      → s.adaptation_field.rand_acc ≡ false
      → (t : Segment) × (parse_ts_segment (some raw) (h0 ∷ h1 ∷ h2 ∷ h3 ∷ (body ++ rest)) s
          ≡ done (true, rest, t))
        × (write_ts_segment t ≡ done (t, h0 ∷ h1 ∷ h2 ∷ h3 ∷ body))
  write_ts_segment-parse_ts_segment body rest s p plain no_pcr no_acc =
      let (t, e, eh, eb, is, flag) =
        parse_ts_segment-IsSettled start raw body rest s p plain no_pcr no_acc in
      (t, e, written_back start clear t body eh eb is)

  -- A packet with clear scrambling bits and an adaptation field of 1 to 164 bytes is written back byte
  -- for byte, if the field has no private data, the memory of the segment has 0 for its length, and a PCR,
  -- where there is one, is stable.
  pub write_ts_segment-parse_ts_segment_field :
      (l f b0 b1 b2 b3 b4 b5 : ℕ) (more rest : List ℕ) (s : Segment)
      → let body = l ∷ f ∷ b0 ∷ b1 ∷ b2 ∷ b3 ∷ b4 ∷ b5 ∷ more in
        IsPayload body
        → 2 ≤ h3 / 16 % 4
        → 1 ≤ l
        → l ≤ 164
        → has_bits f 0x02 ≡ false
        → s.adaptation_field.priv_len ≡ 0
        → (has_bits f 0x10 ≡ true → IsStablePcr b0 b1 b2 b3 b4 b5)
        → (t : Segment) × (parse_ts_segment (some raw) (h0 ∷ h1 ∷ h2 ∷ h3 ∷ (body ++ rest)) s
            ≡ done (true, rest, t))
          × (write_ts_segment t ≡ done (t, h0 ∷ h1 ∷ h2 ∷ h3 ∷ body))
  write_ts_segment-parse_ts_segment_field l f b0 b1 b2 b3 b4 b5 more rest s p there low high
        open_data zeroed stable =
      let (t, e, eh, eb, is, flag) =
        parse_ts_segment_field-IsSettled start raw l f b0 b1 b2 b3 b4 b5 more rest s p there low
          high open_data zeroed stable in
      (t, e, written_back start clear t (l ∷ f ∷ b0 ∷ b1 ∷ b2 ∷ b3 ∷ b4 ∷ b5 ∷ more) eh eb is)
