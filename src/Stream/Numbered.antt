-- ===== src/Stream/Numbered.antt =====
-- `mpegts_stream_update_cc` between `mpegts_stream_read_segment` and `mpegts_stream_write`: what becomes
-- of the bytes of the file.
use mpegts_reader.Common.{
  not, ltb, ◌&&◌, ℕ, ◌+◌, ◌*◌, ◌/◌, ◌%◌, ◌^◌, ◌<◌, ◌≡◌, refl, sym, ap, ◌∙◌, subst, Bool-cases, inl,
  inr, ◌==◌, if◌then◌else◌, List, [], ◌∷◌, ◌++◌, length, All, Option, some, arith, drop,
  drop-length, length-append,
}
use mathlib.Core.List.{append-nil}
use mpegts_reader.Common.Outcome.{done}
use mpegts_reader.Dlist.{Dlist, IsDlist}
use mpegts_reader.Ts.{TsHeader, Segment, field}
use mpegts_reader.Ts.Header.Value.{header_of}
use mpegts_reader.Ts.Packet.Parse.{start_word}
use mpegts_reader.Stream.{
  Stream, Memory, has_pid, set_cc, next_cc, update_cc_loop, read_from, read_segment, update_cc,
  stream_write,
}
use mpegts_reader.Stream.Counters.{next_cc_value, next_cc_lt, nodes-update_cc}
use mpegts_reader.Stream.ReadWrite.{Packet, file_of}
use mpegts_reader.Ts.Adaptation.{has_bits}
use mpegts_reader.Stream.Settled.{
  second, IsStable, IsBlank, IsSegmentOf, AreSegments, write_all-AreSegments,
  read_opened-AreSegments,
}

-- The PID of a packet, and a packet with another counter: the low half of its fourth byte.
abbrev pub packet_pid : Packet → ℕ
packet_pid p = p.byte1 % 32 * 256 + p.byte2

abbrev pub with_counter : ℕ → Packet → Packet
with_counter c p = record p { byte3 = p.byte3 / 16 * 16 + c }

-- The packets of `pid` numbered on from `c`, modulo 16, and the others as they are.
unfoldable pub number_packets : ℕ → ℕ → List Packet → List Packet
number_packets pid c [] = []
number_packets pid c (p ∷ ps) =
    (if packet_pid p == pid then with_counter (c % 16) p else p)
    ∷ number_packets pid (if packet_pid p == pid then c + 1 else c) ps

-- The number of packets of `pid`.
unfoldable pub count_packets : ℕ → List Packet → ℕ
count_packets pid [] = 0
count_packets pid (p ∷ ps) = (if packet_pid p == pid then 1 else 0) + count_packets pid ps

pub number_packets_mod :
    (pid c d : ℕ) (ps : List Packet)
    → c % 16 ≡ d % 16
    → number_packets pid c ps ≡ number_packets pid d ps
unfolding number_packets
number_packets_mod pid c d [] e = refl
number_packets_mod pid c d (p ∷ ps) e = ground (
  arith,
  e,
  number_packets_mod pid (c + 1) (d + 1) ps (omega (arith, e)),
  number_packets_mod pid c d ps e,
)

pub has_pid-packet_pid :
    (pid : ℕ) (p : Packet) (t : Segment) → IsSegmentOf p t → has_pid pid t ≡ (packet_pid p == pid)
has_pid-packet_pid pid p t is =
    let same : t.header.pid ≡ packet_pid p =
      ap (λ (h : TsHeader). h.pid) is.header
      ∙ omega (arith, is.start.sync, is.start.byte1, is.start.byte2, is.start.byte3) in
    ap (λ n. n == pid) same

-- The header with another counter is read from the word with another fourth byte.
counted_header :
    (h0 h1 h2 h3 c : ℕ)
    → h0 < 256
    → h1 < 256
    → h2 < 256
    → record (header_of (start_word h0 h1 h2 h3)) { continuity_counter = field 4 c }
      ≡ header_of (start_word h0 h1 h2 (h3 / 16 * 16 + c % 16))
counted_header h0 h1 h2 h3 c b0 b1 b2 =
    let v : ℕ = start_word h0 h1 h2 h3 in
    let w : ℕ = start_word h0 h1 h2 (h3 / 16 * 16 + c % 16) in
    let sync : w % 256 ≡ v % 256 = omega (arith, b0) in
    let flags : w / 2 ^ 8 % 256 ≡ v / 2 ^ 8 % 256 = omega (arith, b0, b1) in
    let low : w / 2 ^ 16 % 256 ≡ v / 2 ^ 16 % 256 = omega (arith, b0, b1, b2) in
    let ctrl : w / 2 ^ 28 % 4 ≡ v / 2 ^ 28 % 4 = omega (arith, b0, b1, b2) in
    let counter : w / 2 ^ 24 % 16 ≡ field 4 c = omega (arith, b0, b1, b2) in
    let tei : w / 2 ^ 15 % 2 ≡ v / 2 ^ 15 % 2 = omega (arith, flags) in
    let pusi : w / 2 ^ 14 % 2 ≡ v / 2 ^ 14 % 2 = omega (arith, flags) in
    let prior : w / 2 ^ 13 % 2 ≡ v / 2 ^ 13 % 2 = omega (arith, flags) in
    let high : w / 2 ^ 8 % 32 ≡ v / 2 ^ 8 % 32 = omega (arith, flags) in
    rw (sync, low, ctrl, counter, tei, pusi, prior, high) refl

-- A segment with another counter is that of the packet with this counter.
counted_segment-IsSegmentOf :
    (p : Packet) (t : Segment) (c : ℕ)
    → IsSegmentOf p t
    → IsSegmentOf
        (with_counter (c % 16) p)
        (record t { header = record t.header { continuity_counter = field 4 c } })
counted_segment-IsSegmentOf p t c is =
    let start = is.start in
    let below : p.byte3 / 16 * 16 + c % 16 < 64 = omega (arith, is.clear) in
    let same_ctrl : p.byte3 / 16 % 4 ≡ (p.byte3 / 16 * 16 + c % 16) / 16 % 4 = omega arith in
    let counted = record t.header { continuity_counter = field 4 c } in
    record {
      start = record {
        sync = start.sync;
        byte1 = start.byte1;
        byte2 = start.byte2;
        byte3 = omega (arith, below);
      };
      clear = below;
      header =
          ap (λ (x : TsHeader). record x { continuity_counter = field 4 c }) is.header
          ∙ counted_header p.byte0 p.byte1 p.byte2 p.byte3 c (omega (arith, start.sync)) start.byte1
              start.byte2;
      payload = is.payload;
      settled = record {
        written = λ x e. is.settled.written x e;
        marked = λ x e yes. is.settled.marked x e yes;
      };
      pcr = is.pcr ∙ ap (λ n. not (ltb n 2) && has_bits (second p.body) 0x10) same_ctrl;
    }

set_cc-IsSegmentOf :
    (pid c : ℕ) (p : Packet) (t : Segment)
    → IsSegmentOf p t
    → IsSegmentOf (if packet_pid p == pid then with_counter (c % 16) p else p) (set_cc pid c t)
unfolding set_cc
set_cc-IsSegmentOf pid c p t is = elim (Bool-cases (packet_pid p == pid)) [
  | inl same ↦ rw (has_pid-packet_pid pid p t is, same) (counted_segment-IsSegmentOf p t c is)
  | inr other ↦ rw (has_pid-packet_pid pid p t is, other) is
]

-- The loop of `mpegts_stream_update_cc` numbers the packets of a file.
pub update_cc_loop-AreSegments :
    (pid c : ℕ) (ps : List Packet) (ts : List Segment)
    → c < 16
    → AreSegments ps ts
    → AreSegments (number_packets pid c ps) (update_cc_loop pid c ts).0
      × ((update_cc_loop pid c ts).1 ≡ (c + count_packets pid ps) % 16)
unfolding update_cc_loop number_packets count_packets
update_cc_loop-AreSegments pid c [] [] h all = (tt, omega (arith, h))
update_cc_loop-AreSegments pid c [] (t ∷ ts) h all = absurd all
update_cc_loop-AreSegments pid c (p ∷ ps) [] h all = absurd all
update_cc_loop-AreSegments pid c (p ∷ ps) (t ∷ ts) h (is, all) =
    let next : next_cc pid c t ≡ (if packet_pid p == pid then (c + 1) % 16 else c) =
      next_cc_value pid c t h
      ∙ ap (λ b. if b then (c + 1) % 16 else c) (has_pid-packet_pid pid p t is) in
    let n : ℕ = next_cc pid c t in
    let (rest, last) = update_cc_loop-AreSegments pid n ps ts (next_cc_lt pid c t) all in
    let m : ℕ = if packet_pid p == pid then c + 1 else c in
    let same : n % 16 ≡ m % 16 = ground (arith, next) in
    let numbered = number_packets_mod pid n m ps same in
    (
      (
        set_cc-IsSegmentOf pid c p t is,
        subst (λ qs. AreSegments qs (update_cc_loop pid n ts).0) numbered rest,
      ),
      last ∙ ground (arith, same),
    )

module _ {E : Type 0} (l : Dlist E Segment) (laws : IsDlist l) where
  -- A stream that holds the segments of such packets.
  abbrev pub Holds : List Packet → Stream E → Type 0
  Holds ps stream = AreSegments ps (l.nodes stream.segment_list)

  pub update_cc-Holds :
      (pid c : ℕ) (ps : List Packet) (stream : Stream E)
      → c < 16
      → Holds ps stream
      → Holds (number_packets pid c ps) (update_cc l stream pid c).0
        × ((update_cc l stream pid c).1 ≡ (c + count_packets pid ps) % 16)
  unfolding update_cc
  update_cc-Holds pid c ps stream h all =
      let ss = l.nodes stream.segment_list in
      let (numbered, last) = update_cc_loop-AreSegments pid c ps ss h all in
      (
        subst (AreSegments (number_packets pid c ps)) (sym (nodes-update_cc l laws stream pid c))
            numbered,
        last,
      )

  stream_write-Holds :
      (ps : List Packet) (stream : Stream E) (old : List ℕ)
      → Holds ps stream
      → (written : Stream E) × (stream_write l (some old) stream
          ≡ done (written, some (file_of ps ++ drop (length (file_of ps)) old)))
  unfolding stream_write
  stream_write-Holds ps stream old all =
      let ss = l.nodes stream.segment_list in
      (
        record stream { segment_list = l.with_nodes stream.segment_list ss },
        rw (stream_write, write_all-AreSegments ps ss all) refl,
      )

  pub length-number_packets :
      (pid c : ℕ) (ps : List Packet)
      → length (file_of (number_packets pid c ps)) ≡ length (file_of ps)
  unfolding number_packets
  length-number_packets pid c [] = refl
  length-number_packets pid c (p ∷ ps) =
      let one = length-append p.body (file_of ps) in
      elim (Bool-cases (packet_pid p == pid)) [
        | inl same ↦
            let rest = number_packets pid (c + 1) ps in
            rw same (
              omega (
                arith,
                one,
                length-append p.body (file_of rest),
                length-number_packets pid (c + 1) ps,
              ))
        | inr other ↦
            let rest = number_packets pid c ps in
            rw other (
              omega
                (arith, one, length-append p.body (file_of rest), length-number_packets pid c ps))
      ]

  -- A file of the same length is overwritten as a whole.
  pub write_over :
      (ps : List Packet) (stream : Stream E) (old : List ℕ)
      → length (file_of ps) ≡ length old
      → Holds ps stream
      → (written : Stream E) × (stream_write l (some old) stream
          ≡ done (written, some (file_of ps)))
  write_over ps stream old e all =
      let (written, ew) = stream_write-Holds ps stream old all in
      let all_gone : drop (length (file_of ps)) old ≡ [] =
        ap (λ n. drop n old) e ∙ drop-length old in
      (
        written,
        ew
            ∙ ap (λ bs. done (written, some (file_of ps ++ bs))) all_gone
            ∙ ap (λ bs. done (written, some bs)) (append-nil (file_of ps)),
      )

  -- A file of stable packets that is read, numbered from a counter below 16 and written back over itself
  -- holds the same packets, of which those of `pid` are numbered on from the counter, modulo 16; nothing
  -- else in it has changed; and the next counter is returned: if every allocation succeeds and the memory
  -- of the segments is blank, so that it says neither `has_pcr` nor `rand_acc` and no length of private
  -- data.
  pub stream_write-update_cc :
      (memory : Memory) (file : List ℕ → Option (List ℕ)) (stream : Stream E) (url : List ℕ)
      (ps : List Packet) (pid c : ℕ)
      → IsBlank memory
      → stream.url ≡ some url
      → file url ≡ some (file_of ps)
      → All IsStable ps
      → c < 16
      → (read written : Stream E) × (read_segment l file memory stream ≡ done read)
        × (stream_write l (some (file_of ps)) (update_cc l read pid c).0
            ≡ done (written, some (file_of (number_packets pid c ps))))
        × ((update_cc l read pid c).1 ≡ (c + count_packets pid ps) % 16)
  unfolding read_segment read_from
  stream_write-update_cc memory file stream url ps pid c blank named found stable h =
      let (entry, er, all) = read_opened-AreSegments l laws memory blank ps stable in
      let read : Stream E = record stream { segment_list = entry } in
      let (numbered, last) = update_cc-Holds pid c ps read h all in
      let qs = number_packets pid c ps in
      let (written, ew) =
        write_over qs (update_cc l read pid c).0 (file_of ps) (length-number_packets pid c ps)
          numbered in
      (read, written, ap (read_from l file memory stream) named ∙ rw (found, er) refl, ew, last)
