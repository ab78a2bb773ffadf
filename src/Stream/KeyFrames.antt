-- ===== src/Stream/KeyFrames.antt =====
-- `mpegts_stream_fix_keyframe` between `mpegts_stream_read_segment` and `mpegts_stream_write`: what becomes
-- of the bytes of the file.
use mpegts_reader.Common.{
  ℕ, ◌/◌, ◌%◌, ◌≡◌, refl, sym, ap, ◌∙◌, Bool, true, Bool-cases, inl, inr, ◌==◌, ◌&&◌, if◌then◌else◌,
  List, [], ◌∷◌, ◌++◌, length, length-append, map, length-map, All, drop, drop-length, Option, some,
  arith,
}
use mathlib.Core.List.{append-nil}
use mpegts_reader.Common.Outcome.{done}
use mpegts_reader.Dlist.{Dlist, IsDlist}
use mpegts_reader.Ts.{TsHeader, Segment}
use mpegts_reader.Ts.Packet.{write_ts_segment}
use mpegts_reader.Ts.Packet.Marks.{mark_bytes, with_rand_acc}
use mpegts_reader.Ts.Packet.Settled.{start_bytes}
use mpegts_reader.Ts.Packet.RoundTrip.{written_back}
use mpegts_reader.Stream.{
  Stream, Memory, has_pid, fix_segment, write_all, read_from, read_segment, fix_keyframe,
  stream_write,
}
use mpegts_reader.Stream.ReadWrite.{Packet, file_of}
use mpegts_reader.Stream.Settled.{
  IsStable, IsBlank, IsSegmentOf, AreSegments, packet_has_pcr, packet_bytes,
  read_opened-AreSegments,
}
use mpegts_reader.Stream.Numbered.{packet_pid, has_pid-packet_pid}

-- The bit `payload_unit_start_indicator`.
abbrev pub packet_pusi : Packet → Bool
packet_pusi p = p.byte1 / 64 % 2 == 1

-- The packet starts a unit of the PID, and has a PCR.
abbrev pub is_key : ℕ → Packet → Bool
is_key pid p = packet_pusi p && packet_pid p == pid && packet_has_pcr p

-- A packet with the random access bit set, if it is such a one.
unfoldable pub mark_packet : ℕ → Packet → Packet
mark_packet pid p = if is_key pid p then record p { body = mark_bytes p.body } else p

is_key_segment :
    (pid : ℕ) (p : Packet) (t : Segment)
    → IsSegmentOf p t
    → (t.header.pusi && has_pid pid t && t.adaptation_field.has_pcr) ≡ is_key pid p
is_key_segment pid p t is =
    let pusi : t.header.pusi ≡ packet_pusi p =
      ap (λ (h : TsHeader). h.pusi) is.header
      ∙ ap (λ n. n == 1)
          (omega (arith, is.start.sync, is.start.byte1, is.start.byte2, is.start.byte3)) in
    ap (λ b. b && has_pid pid t && t.adaptation_field.has_pcr) pusi
    ∙ ap (λ b. packet_pusi p && b && t.adaptation_field.has_pcr) (has_pid-packet_pid pid p t is)
    ∙ ap (λ b. packet_pusi p && (packet_pid p == pid) && b) is.pcr

key-packet_has_pcr : (a b c : Bool) → (a && b && c) ≡ true → c ≡ true
key-packet_has_pcr a b c e = ground (arith, e)

-- What `write_ts_segment` writes for a segment that was fixed.
fix_segment-IsSegmentOf :
    (pid : ℕ) (p : Packet) (t : Segment)
    → IsSegmentOf p t
    → (t' : Segment) × (write_ts_segment (fix_segment pid t)
        ≡ done (t', packet_bytes (mark_packet pid p) []))
unfolding fix_segment mark_packet
fix_segment-IsSegmentOf pid p t is = elim (Bool-cases (is_key pid p)) [
  | inl key ↦
      let has : t.adaptation_field.has_pcr ≡ true =
        is.pcr ∙ key-packet_has_pcr (packet_pusi p) (packet_pid p == pid) (packet_has_pcr p) key in
      let written : write_ts_segment (with_rand_acc t)
          ≡ done (
            record (with_rand_acc t) { payload = mark_bytes t.payload },
            p.byte0 ∷ p.byte1 ∷ p.byte2 ∷ p.byte3 ∷ (mark_bytes p.body ++ []),
          ) =
        is.settled.marked t.header refl has
        ∙ ap
            (λ bs. done (
              record (with_rand_acc t) { payload = mark_bytes t.payload },
              bs ++ mark_bytes t.payload,
            ))
            (start_bytes is.start is.clear t is.header)
        ∙ ap
            (λ bs. done (
              record (with_rand_acc t) { payload = mark_bytes t.payload },
              p.byte0 ∷ p.byte1 ∷ p.byte2 ∷ p.byte3 ∷ bs,
            ))
            (ap mark_bytes is.payload ∙ sym (append-nil (mark_bytes p.body))) in
      (
        record (with_rand_acc t) { payload = mark_bytes t.payload },
        rw (is_key_segment pid p t is, key) written,
      )
  | inr other ↦ (
    t,
    rw (is_key_segment pid p t is, other)
        (written_back is.start is.clear t p.body is.header is.payload is.settled
          ∙ ap (λ bs. done (t, p.byte0 ∷ p.byte1 ∷ p.byte2 ∷ p.byte3 ∷ bs))
              (sym (append-nil p.body))),
  )
]

write_all-fix_segment :
    (pid : ℕ) (ps : List Packet) (ts : List Segment)
    → AreSegments ps ts
    → (ts' : List Segment) × (write_all (map (fix_segment pid) ts)
        ≡ done (ts', file_of (map (mark_packet pid) ps)))
unfolding write_all
write_all-fix_segment pid [] [] h = ([], refl)
write_all-fix_segment pid [] (t ∷ ts) h = absurd h
write_all-fix_segment pid (p ∷ ps) [] h = absurd h
write_all-fix_segment pid (p ∷ ps) (t ∷ ts) (is, h) =
    let (t', e) = fix_segment-IsSegmentOf pid p t is in
    let (ts', es) = write_all-fix_segment pid ps ts h in
    let q = mark_packet pid p in
    let whole : packet_bytes q [] ++ file_of (map (mark_packet pid) ps)
        ≡ file_of (map (mark_packet pid) (p ∷ ps)) =
      ap (λ bs. q.byte0 ∷ q.byte1 ∷ q.byte2 ∷ q.byte3 ∷ (bs ++ file_of (map (mark_packet pid) ps)))
        (append-nil q.body) in
    (t' ∷ ts', rw (write_all, e, es) (ap (λ bs. done (t' ∷ ts', bs)) whole))

length-mark_bytes : (bytes : List ℕ) → length (mark_bytes bytes) ≡ length bytes
unfolding mark_bytes
length-mark_bytes [] = refl
length-mark_bytes (a ∷ []) = refl
length-mark_bytes (a ∷ b ∷ bytes) = refl

length-mark_packet :
    (pid : ℕ) (ps : List Packet) → length (file_of (map (mark_packet pid) ps)) ≡ length (file_of ps)
unfolding mark_packet
length-mark_packet pid [] = refl
length-mark_packet pid (p ∷ ps) =
    let rest = map (mark_packet pid) ps in
    let tail = length-mark_packet pid ps in
    elim (Bool-cases (is_key pid p)) [
      | inl key ↦ rw key (
          omega (
            arith,
            length-append (mark_bytes p.body) (file_of rest),
            length-append p.body (file_of ps),
            length-mark_bytes p.body,
            tail,
          ))
      | inr other ↦ rw other (
          omega
            (arith, length-append p.body (file_of rest), length-append p.body (file_of ps), tail))
    ]

module _ {E : Type 0} (l : Dlist E Segment) (laws : IsDlist l) where
  nodes-fix_keyframe :
      (stream : Stream E) (pid : ℕ)
      → l.nodes (fix_keyframe l stream pid).segment_list
        ≡ map (fix_segment pid) (l.nodes stream.segment_list)
  unfolding fix_keyframe
  nodes-fix_keyframe stream pid =
      laws.nodes-with_nodes _ _ (length-map (fix_segment pid) (l.nodes stream.segment_list))

  -- A file of stable packets that is read, passed to `mpegts_stream_fix_keyframe` and written back over
  -- itself holds the same packets, but that the random access bit is set in the adaptation field of each
  -- packet of `pid` that starts a unit and has a PCR: if the memory of the segments is blank.
  pub stream_write-fix_keyframe :
      (memory : Memory) (file : List ℕ → Option (List ℕ)) (stream : Stream E) (url : List ℕ)
      (ps : List Packet) (pid : ℕ)
      → IsBlank memory
      → stream.url ≡ some url
      → file url ≡ some (file_of ps)
      → All IsStable ps
      → (read written : Stream E) × (read_segment l file memory stream ≡ done read)
        × (stream_write l (some (file_of ps)) (fix_keyframe l read pid)
            ≡ done (written, some (file_of (map (mark_packet pid) ps))))
  unfolding read_segment read_from stream_write
  stream_write-fix_keyframe memory file stream url ps pid blank named found stable =
      let (entry, er, all) = read_opened-AreSegments l laws memory blank ps stable in
      let read : Stream E = record stream { segment_list = entry } in
      let fixed = fix_keyframe l read pid in
      let qs = map (mark_packet pid) ps in
      let (ts, ew) = write_all-fix_segment pid ps (l.nodes entry) all in
      let writes : write_all (l.nodes fixed.segment_list) ≡ done (ts, file_of qs) =
        ap write_all (nodes-fix_keyframe read pid) ∙ ew in
      let all_gone : drop (length (file_of qs)) (file_of ps) ≡ [] =
        ap (λ n. drop n (file_of ps)) (length-mark_packet pid ps) ∙ drop-length (file_of ps) in
      (
        read,
        record fixed { segment_list = l.with_nodes fixed.segment_list ts },
        ap (read_from l file memory stream) named ∙ rw (found, er) refl,
        rw (stream_write, writes, all_gone, append-nil (file_of qs)) refl,
      )
