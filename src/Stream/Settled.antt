-- ===== src/Stream/Settled.antt =====
-- A file of packets and the segments that `mpegts_stream_read_segment` makes of it.
use mpegts_reader.Common.{
  Bool, not, ltb, ◌&&◌, true, ℕ, zero, suc, ◌+◌, ◌/◌, ◌%◌, ◌≤◌, ◌<◌, ◌≡◌, refl, sym, ap, ◌∙◌, subst,
  ◌⊎◌, inl, inr, true, false, List, [], ◌∷◌, ◌++◌, length, length-append, All, none, some, arith,
}
use mathlib.Core.List.{append-nil, append_assoc}
use mpegts_reader.Common.Outcome.{done}
use mpegts_reader.Dlist.{Dlist, IsDlist}
use mpegts_reader.Ts.{PesHeader, Segment, IsPayload}
use mpegts_reader.Ts.Header.Value.{header_of}
use mpegts_reader.Ts.Adaptation.{has_bits}
use mpegts_reader.Ts.Packet.{parse_ts_segment}
use mpegts_reader.Ts.Packet.Parse.{IsStart, start_word}
use mpegts_reader.Ts.Packet.Settled.{
  IsStablePcr, IsSettled, parse_ts_segment-IsSettled, parse_ts_segment_field-IsSettled,
}
use mpegts_reader.Ts.Packet.RoundTrip.{written_back}
use mpegts_reader.Stream.{Memory, segment_init, parse_into, read_opened, write_all, read_loop}
use mpegts_reader.Stream.ReadWrite.{Packet, file_of}

-- An adaptation field of 1 to 164 bytes without private data, whose PCR, where there is one, is stable.
pub record IsStableField (body : List ℕ) : Type 0 where
  pub len : ℕ
  pub flags : ℕ
  pub b0 : ℕ
  pub b1 : ℕ
  pub b2 : ℕ
  pub b3 : ℕ
  pub b4 : ℕ
  pub b5 : ℕ
  pub more : List ℕ
  pub is : body ≡ len ∷ flags ∷ b0 ∷ b1 ∷ b2 ∷ b3 ∷ b4 ∷ b5 ∷ more
  pub low : 1 ≤ len
  pub high : len ≤ 164
  pub open_data : has_bits flags 0x02 ≡ false
  pub pcr : has_bits flags 0x10 ≡ true → IsStablePcr b0 b1 b2 b3 b4 b5

-- A packet with clear scrambling bits, and no adaptation field or such a one.
pub record IsStable (p : Packet) : Type 0 where
  pub start : IsStart p.byte0 p.byte1 p.byte2 p.byte3
  pub clear : p.byte3 < 64
  pub body : IsPayload p.body
  pub adaptation : (p.byte3 / 16 % 4 < 2) ⊎ ((2 ≤ p.byte3 / 16 % 4) × IsStableField p.body)

-- Every allocation succeeds, and the memory of a segment says neither `has_pcr` nor `rand_acc`, and no
-- length of private data.
pub record IsBlank (memory : Memory) : Type 0 where
  pub segment :
      (k : ℕ)
      → (s : Segment) × (memory.segment k ≡ some s)
        × (s.adaptation_field.has_pcr ≡ false)
        × (s.adaptation_field.rand_acc ≡ false)
        × (s.adaptation_field.priv_len ≡ 0)
  pub pes_header : (k : ℕ) → (raw : PesHeader) × (memory.pes_header k ≡ some raw)

abbrev pub packet_word : Packet → ℕ
packet_word p = start_word p.byte0 p.byte1 p.byte2 p.byte3

abbrev pub packet_bytes : Packet → List ℕ → List ℕ
packet_bytes p rest = p.byte0 ∷ p.byte1 ∷ p.byte2 ∷ p.byte3 ∷ (p.body ++ rest)

-- The packet has an adaptation field with a PCR.
abbrev pub second : List ℕ → ℕ
second [] = 0
second (a ∷ []) = 0
second (a ∷ b ∷ bytes) = b

abbrev pub packet_has_pcr : Packet → Bool
packet_has_pcr p = not (ltb (p.byte3 / 16 % 4) 2) && has_bits (second p.body) 0x10

-- The segment of a packet: it is written as that packet.
pub record IsSegmentOf (p : Packet) (t : Segment) : Type 0 where
  pub start : IsStart p.byte0 p.byte1 p.byte2 p.byte3
  pub clear : p.byte3 < 64
  pub header : t.header ≡ header_of (packet_word p)
  pub payload : t.payload ≡ p.body
  pub settled : IsSettled t
  pub pcr : t.adaptation_field.has_pcr ≡ packet_has_pcr p

abbrev pub AreSegments : List Packet → List Segment → Type 0
AreSegments [] [] = Unit
AreSegments [] (t ∷ ts) = ⊥
AreSegments (p ∷ ps) [] = ⊥
AreSegments (p ∷ ps) (t ∷ ts) = IsSegmentOf p t × AreSegments ps ts

-- What a packet is read as.
abbrev ReadAs : Packet → List ℕ → Segment → PesHeader → Type 0
ReadAs p rest s raw =
    (t : Segment) × (parse_ts_segment (some raw) (packet_bytes p rest) s ≡ done (true, rest, t))
    × IsSegmentOf p t

parse_field :
    (p : Packet) (stable : IsStable p) (rest : List ℕ) (raw : PesHeader) (s : Segment)
    → 2 ≤ p.byte3 / 16 % 4
    → IsStableField p.body
    → s.adaptation_field.priv_len ≡ 0
    → ReadAs p rest s raw
parse_field p stable rest raw s there f zeroed =
    let (t, e, eh, eb, is, flag) =
      parse_ts_segment_field-IsSettled stable.start raw f.len f.flags f.b0 f.b1 f.b2 f.b3 f.b4 f.b5
        f.more rest s (subst IsPayload f.is stable.body) there f.low f.high f.open_data zeroed
        f.pcr in
    let there' : ltb (p.byte3 / 16 % 4) 2 ≡ false = ground (arith, there) in
    let has_pcr_field : has_bits f.flags 0x10 ≡ packet_has_pcr p =
      rw there' (ap (λ body. has_bits (second body) 0x10) (sym f.is)) in
    (
      t,
      ap
            (λ body.
              parse_ts_segment (some raw) (p.byte0 ∷ p.byte1 ∷ p.byte2 ∷ p.byte3 ∷ (body ++ rest))
                s)
            f.is
          ∙ e,
      record {
        start = stable.start;
        clear = stable.clear;
        header = eh;
        payload = eb ∙ sym f.is;
        settled = is;
        pcr = flag ∙ has_pcr_field;
      },
    )

parse_stable :
    (p : Packet) (rest : List ℕ) (raw : PesHeader) (s : Segment)
    → IsStable p
    → s.adaptation_field.has_pcr ≡ false
    → s.adaptation_field.rand_acc ≡ false
    → s.adaptation_field.priv_len ≡ 0
    → ReadAs p rest s raw
parse_stable p rest raw s stable no_pcr no_acc zeroed = elim stable.adaptation [
  | inl plain ↦
      let (t, e, eh, eb, is, flag) =
        parse_ts_segment-IsSettled stable.start raw p.body rest s stable.body plain no_pcr no_acc in
      let plain' : ltb (p.byte3 / 16 % 4) 2 ≡ true = ground (arith, plain) in
      let plain_has_pcr : false ≡ packet_has_pcr p = rw plain' refl in
      (
        t,
        e,
        record {
          start = stable.start;
          clear = stable.clear;
          header = eh;
          payload = eb;
          settled = is;
          pcr = flag ∙ plain_has_pcr;
        },
      )
  | inr (there, f) ↦ parse_field p stable rest raw s there f zeroed
]

parse_into_stable :
    (memory : Memory) (k : ℕ) (p : Packet) (rest : List ℕ)
    → IsBlank memory
    → IsStable p
    → (t : Segment) × (parse_into (memory.segment k) (memory.pes_header k) (packet_bytes p rest)
        ≡ done (some (rest, t)))
      × IsSegmentOf p t
unfolding parse_into
parse_into_stable memory k p rest blank stable =
    let (s, es, no_pcr, no_acc, zeroed) = blank.segment k in
    let (raw, er) = blank.pes_header k in
    let (t, e, is) = parse_stable p rest raw (segment_init s) stable no_pcr no_acc zeroed in
    (t, rw (es, er, parse_into, e) refl, is)

parse_into-nil :
    (memory : Memory) (k : ℕ)
    → IsBlank memory
    → parse_into (memory.segment k) (memory.pes_header k) [] ≡ done none
unfolding parse_into parse_ts_segment
parse_into-nil memory k blank =
    let (s, es, no_pcr, no_acc, zeroed) = blank.segment k in rw (es, parse_into) refl

-- Segments of packets are written as these packets.
pub write_all-AreSegments :
    (ps : List Packet) (ts : List Segment)
    → AreSegments ps ts
    → write_all ts ≡ done (ts, file_of ps)
unfolding write_all
write_all-AreSegments [] [] h = refl
write_all-AreSegments [] (t ∷ ts) h = absurd h
write_all-AreSegments (p ∷ ps) [] h = absurd h
write_all-AreSegments (p ∷ ps) (t ∷ ts) (is, h) =
    rw
      (
        written_back is.start is.clear t p.body is.header is.payload is.settled,
        write_all-AreSegments ps ts h,
      )
      refl

module _ {E : Type 0} (l : Dlist E Segment) (laws : IsDlist l) (memory : Memory)
    (blank : IsBlank memory) where
  read_loop-AreSegments :
      (ps : List Packet) (fuel k : ℕ) (entry : E)
      → All IsStable ps
      → length (file_of ps) < fuel
      → (entry' : E) × (segments : List Segment) × (read_loop l fuel memory k (file_of ps) entry
          ≡ done entry')
        × (l.nodes entry' ≡ l.nodes entry ++ segments)
        × AreSegments ps segments
  unfolding read_loop
  read_loop-AreSegments ps zero k entry stable h = absurd (omega arith)
  read_loop-AreSegments [] (suc fuel) k entry stable h =
      (entry, [], rw (parse_into-nil memory k blank) refl, sym (append-nil (l.nodes entry)), tt)
  read_loop-AreSegments (p ∷ ps) (suc fuel) k entry stable h =
      let (t, ep, is) = parse_into_stable memory k p (file_of ps) blank stable.0 in
      let (entry', segments, er, en, all) =
        read_loop-AreSegments ps fuel (k + 1) (l.put_tail entry t) stable.1
          (omega (arith, length-append p.body (file_of ps))) in
      (
        entry',
        t ∷ segments,
        rw ep er,
        en
            ∙ ap (λ xs. xs ++ segments) (laws.nodes-put_tail entry t)
            ∙ append_assoc (l.nodes entry) (t ∷ []) segments,
        (is, all),
      )

  -- A file of stable packets that is opened and read.
  pub read_opened-AreSegments :
      (ps : List Packet)
      → All IsStable ps
      → (entry : E) × (read_opened l memory (some (file_of ps)) ≡ done entry)
        × AreSegments ps (l.nodes entry)
  unfolding read_opened
  read_opened-AreSegments ps stable =
      let (entry, segments, er, en, all) =
        read_loop-AreSegments ps (length (file_of ps) + 1) 0 l.entry_init stable (omega arith) in
      let there : segments ≡ l.nodes entry =
        sym (en ∙ ap (λ ss. ss ++ segments) laws.nodes-entry_init) in
      (entry, er, subst (AreSegments ps) there all)
