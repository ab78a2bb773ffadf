-- ===== src/Stream/ReadWrite.antt =====
-- `mpegts_stream_read_segment` ends on every file, and `mpegts_stream_write` writes back what it read.
use mpegts_reader.Common.{
  ℕ, zero, suc, ◌+◌, ◌/◌, ◌%◌, ◌<◌, ◌≡◌, ◌≢◌, refl, sym, ap, ◌∙◌, length-append, Bool, true, false,
  List, [], ◌∷◌, ◌++◌, length, drop, drop-length, All, Option, none, some, arith,
}
use mathlib.Core.List.{append-nil, append_assoc}
use mpegts_reader.Common.Outcome.{Outcome, done, stuck, >>=-eq-done}
use mpegts_reader.Common.Outcome.Runs.{
  Runs, runs, Runs-ne-stuck, returns, exits, >>=-Runs, >>=-Runs_done,
}
use mpegts_reader.Dlist.{Dlist, IsDlist}
use mpegts_reader.Ts.{PesHeader, Segment, IsPayload}
use mpegts_reader.Ts.Packet.{write_ts_segment, parse_ts_segment}
use mpegts_reader.Ts.Packet.Parse.{IsStart}
use mpegts_reader.Ts.Packet.Runs.{parse_ts_segment-Runs, parse_ts_segment_takes}
use mpegts_reader.Ts.Packet.RoundTrip.{write_ts_segment-parse_ts_segment}
use mpegts_reader.Stream.{
  Stream, Memory, answer, round, segment_init, parse_into, read_opened, read_from, write_all,
  read_loop, read_segment, stream_write,
}

parse_into-Runs :
    (segment : Option Segment) (pes_memory : Option PesHeader) (fd : List ℕ)
    → Runs (parse_into segment pes_memory fd)
unfolding parse_into
parse_into-Runs none pes_memory [] = returns
parse_into-Runs none pes_memory (b ∷ bs) = exits
parse_into-Runs (some raw) pes_memory fd = search (runs, parse_ts_segment-Runs)

answer-some :
    (result : Bool × List ℕ × Segment) {rest : List ℕ} {t : Segment}
    → answer result ≡ done (some (rest, t))
    → result ≡ (true, rest, t)
answer-some (true, left, segment) e = ground arith
answer-some (false, left, segment) e = cc

parse_into_takes :
    (segment : Option Segment) (pes_memory : Option PesHeader) (fd : List ℕ) (rest : List ℕ)
    (t : Segment)
    → parse_into segment pes_memory fd ≡ done (some (rest, t))
    → length rest < length fd
unfolding parse_into
parse_into_takes none pes_memory [] rest t e = cc
parse_into_takes none pes_memory (b ∷ bs) rest t e = cc
parse_into_takes (some raw) pes_memory fd rest t e =
    let (result, e1, e2) =
      >>=-eq-done (parse_ts_segment pes_memory fd (segment_init raw)) answer e in
    parse_ts_segment_takes pes_memory fd (segment_init raw) (e1 ∙ ap done (answer-some result e2))

-- A packet as it stands in a file.
pub record Packet : Type 0 where
  pub byte0 : ℕ
  pub byte1 : ℕ
  pub byte2 : ℕ
  pub byte3 : ℕ
  pub body : List ℕ

abbrev pub file_of : List Packet → List ℕ
file_of [] = []
file_of (p ∷ ps) = p.byte0 ∷ p.byte1 ∷ p.byte2 ∷ p.byte3 ∷ (p.body ++ file_of ps)

-- A packet with clear scrambling bits and no adaptation field.
pub record IsPlain (p : Packet) : Type 0 where
  pub start : IsStart p.byte0 p.byte1 p.byte2 p.byte3
  pub clear : p.byte3 < 64
  pub no_field : p.byte3 / 16 % 4 < 2
  pub body : IsPayload p.body

-- Every allocation succeeds, and the memory of a segment says neither `has_pcr` nor `rand_acc`.
pub record IsClean (memory : Memory) : Type 0 where
  pub segment :
      (k : ℕ)
      → (s : Segment) × (memory.segment k ≡ some s)
        × (s.adaptation_field.has_pcr ≡ false)
        × (s.adaptation_field.rand_acc ≡ false)
  pub pes_header : (k : ℕ) → (raw : PesHeader) × (memory.pes_header k ≡ some raw)

parse_into_plain :
    (memory : Memory) (k : ℕ) (p : Packet) (rest : List ℕ)
    → IsClean memory
    → IsPlain p
    → (t : Segment) × (parse_into
          (memory.segment k)
          (memory.pes_header k)
          (p.byte0 ∷ p.byte1 ∷ p.byte2 ∷ p.byte3 ∷ (p.body ++ rest))
        ≡ done (some (rest, t)))
      × (write_ts_segment t ≡ done (t, p.byte0 ∷ p.byte1 ∷ p.byte2 ∷ p.byte3 ∷ p.body))
unfolding parse_into
parse_into_plain memory k p rest c plain =
    let (s, es, no_pcr, no_acc) = c.segment k in
    let (raw, er) = c.pes_header k in
    let (t, ep, ew) =
      write_ts_segment-parse_ts_segment plain.start plain.clear raw p.body rest (segment_init s)
        plain.body plain.no_field no_pcr no_acc in
    (t, rw (es, er, parse_into, ep) refl, ew)

parse_into-nil :
    (memory : Memory) (k : ℕ)
    → IsClean memory
    → parse_into (memory.segment k) (memory.pes_header k) [] ≡ done none
unfolding parse_into parse_ts_segment
parse_into-nil memory k c = let (s, es, no_pcr, no_acc) = c.segment k in rw (es, parse_into) refl

module _ {E : Type 0} (l : Dlist E Segment) where
  round-Runs :
      (entry : E) (next_rounds : List ℕ → E → Outcome E) (parsed : Option (List ℕ × Segment))
      → ((rest : List ℕ) (t : Segment)
          → parsed ≡ some (rest, t)
          → Runs (next_rounds rest (l.put_tail entry t)))
      → Runs (round l entry next_rounds parsed)
  round-Runs entry next_rounds none h = returns
  round-Runs entry next_rounds (some (rest, t)) h = h rest t refl

  read_loop-Runs :
      (fuel : ℕ) (memory : Memory) (k : ℕ) (fd : List ℕ) (entry : E)
      → length fd < fuel
      → Runs (read_loop l fuel memory k fd entry)
  unfolding read_loop
  read_loop-Runs zero memory k fd entry h = absurd (omega arith)
  read_loop-Runs (suc fuel) memory k fd entry h =
      >>=-Runs_done (round l entry (read_loop l fuel memory (k + 1)))
        (parse_into-Runs (memory.segment k) (memory.pes_header k) fd)
        λ parsed is. round-Runs entry (read_loop l fuel memory (k + 1)) parsed λ rest t e.
          let taken =
            parse_into_takes (memory.segment k) (memory.pes_header k) fd rest t (is ∙ ap done e) in
          read_loop-Runs fuel memory (k + 1) rest (l.put_tail entry t) (omega (arith, taken))

  read_opened-Runs : (memory : Memory) (fd : Option (List ℕ)) → Runs (read_opened l memory fd)
  unfolding read_opened
  read_opened-Runs memory none = exits
  read_opened-Runs memory (some fd) =
      read_loop-Runs (length fd + 1) memory 0 fd l.entry_init (omega arith)

  read_from-Runs :
      (file : List ℕ → Option (List ℕ)) (memory : Memory) (stream : Stream E)
      (url : Option (List ℕ))
      → Runs (read_from l file memory stream url)
  unfolding read_from
  read_from-Runs file memory stream none = returns
  read_from-Runs file memory stream (some url) =
      >>=-Runs _ (read_opened-Runs memory (file url)) λ entry. returns

  pub read_segment-Runs :
      (file : List ℕ → Option (List ℕ)) (memory : Memory) (stream : Stream E)
      → Runs (read_segment l file memory stream)
  unfolding read_segment
  read_segment-Runs file memory stream = read_from-Runs file memory stream stream.url

  -- The reader ends on every file, whatever the file and the memory hold: its loop takes a packet from the
  -- file in each round, and is never out of fuel.
  pub read_segment-ne-stuck :
      (file : List ℕ → Option (List ℕ)) (memory : Memory) (stream : Stream E)
      → read_segment l file memory stream ≢ stuck
  read_segment-ne-stuck file memory stream = Runs-ne-stuck (read_segment-Runs file memory stream)

  module _ (laws : IsDlist l) (memory : Memory) (clean : IsClean memory) where
    pub read_loop-file_of :
        (ps : List Packet) (fuel k : ℕ) (entry : E)
        → All IsPlain ps
        → length (file_of ps) < fuel
        → (entry' : E) × (segments : List Segment) × (read_loop l fuel memory k (file_of ps) entry
            ≡ done entry')
          × (l.nodes entry' ≡ l.nodes entry ++ segments)
          × (write_all segments ≡ done (segments, file_of ps))
    unfolding read_loop write_all
    read_loop-file_of ps zero k entry plain h = absurd (omega arith)
    read_loop-file_of [] (suc fuel) k entry plain h =
        (entry, [], rw (parse_into-nil memory k clean) refl, sym (append-nil (l.nodes entry)), refl)
    read_loop-file_of (p ∷ ps) (suc fuel) k entry plain h =
        let (t, ep, ew) = parse_into_plain memory k p (file_of ps) clean plain.0 in
        let (entry', segments, er, en, eb) =
          read_loop-file_of ps fuel (k + 1) (l.put_tail entry t) plain.1
            (omega (arith, length-append p.body (file_of ps))) in
        (
          entry',
          t ∷ segments,
          rw ep er,
          en
              ∙ ap (λ xs. xs ++ segments) (laws.nodes-put_tail entry t)
              ∙ append_assoc (l.nodes entry) (t ∷ []) segments,
          rw (ew, eb) refl,
        )

    -- A file of packets with clear scrambling bits and no adaptation field, read into a stream and written
    -- back over itself, is the same file: if every allocation succeeds and the memory of the segments
    -- says neither `has_pcr` nor `rand_acc`.
    pub stream_write-read_segment :
        (file : List ℕ → Option (List ℕ)) (stream : Stream E) (url : List ℕ) (ps : List Packet)
        → stream.url ≡ some url
        → file url ≡ some (file_of ps)
        → All IsPlain ps
        → (read written : Stream E) × (read_segment l file memory stream ≡ done read)
          × (stream_write l (some (file_of ps)) read ≡ done (written, some (file_of ps)))
          × (l.nodes written.segment_list ≡ l.nodes read.segment_list)
          × (read.url ≡ some url)
    unfolding read_segment read_from read_opened stream_write
    stream_write-read_segment file stream url ps named found plain =
        let (entry, segments, er, en, eb) =
          read_loop-file_of ps (length (file_of ps) + 1) 0 l.entry_init plain (omega arith) in
        let held : l.nodes entry ≡ segments =
          en ∙ ap (λ xs. xs ++ segments) laws.nodes-entry_init in
        let whole : file_of ps ++ drop (length (file_of ps)) (file_of ps) ≡ file_of ps =
          ap (λ xs. file_of ps ++ xs) (drop-length (file_of ps)) ∙ append-nil (file_of ps) in
        let read : Stream E = record stream { segment_list = entry } in
        (
          read,
          record read { segment_list = l.with_nodes entry segments },
          ap (read_from l file memory stream) named ∙ rw (found, er) refl,
          rw (held, eb, whole) refl,
          laws.nodes-with_nodes entry segments (ap length (sym held)) ∙ sym held,
          named,
        )
