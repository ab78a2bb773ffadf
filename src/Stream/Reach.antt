-- ===== src/Stream/Reach.antt =====
-- The states of a stream that the operations of mpegts_parser.h bring about, and what they have in
-- common.
use mpegts_reader.Common.{
  ℕ, zero, suc, drop, ◌+◌, ◌*◌, ◌≡◌, ap, sym, ◌∙◌, subst, List, ◌++◌, length, map, length-map, All,
  All-append_one, Option, none, some,
}
use mpegts_reader.Common.Outcome.{Outcome, done, >>=-eq-done, done-injective}
use mpegts_reader.Common.Outcome.Ends.{Ends, Ends-done, >>=-Ends, >>=-Ends_then}
use mpegts_reader.Dlist.{Dlist, IsDlist}
use mpegts_reader.Ts.{Segment}
use mpegts_reader.Stream.{
  Stream, Memory, round, parse_into, reset_len, fix_segment, pcr_by_pts, update_cc_loop, write_all,
  copy_url, stream_init, read_loop, read_opened, read_from, read_segment, pes_reset_len,
  fix_keyframe, update_pcr_by_pts, update_cc, stream_write,
}
use mpegts_reader.Stream.Packets.{IsPacket, IsRound, parse_into-Ends}
use mpegts_reader.Stream.Loops.{
  All-map, reset_len-IsPacket, fix_segment-IsPacket, pcr_by_pts-IsPacket, update_cc_loop-IsPacket,
}
use mpegts_reader.Stream.Written.{AreWritten, write_all-Ends}

-- The operations of mpegts_parser.h on a stream that is there, but for `mpegts_stream_free`; those that
-- only look at it leave it as it is.
pub data Step {E : Type 0} (l : Dlist E Segment) : Stream E → Stream E → Type 0 where
  reads :
      {old stream : Stream E} (file : List ℕ → Option (List ℕ)) (memory : Memory)
      → read_segment l file memory old ≡ done stream
      → Step l old stream
  resets : {old : Stream E} → Step l old (pes_reset_len l old)
  marks : {old : Stream E} (pid : ℕ) → Step l old (fix_keyframe l old pid)
  clocks : {old : Stream E} (pid : ℕ) → Step l old (update_pcr_by_pts l old pid)
  counts : {old : Stream E} (pid init_cc : ℕ) → Step l old (update_cc l old pid init_cc).0
  writes :
      {old stream : Stream E} (content new : Option (List ℕ))
      → stream_write l content old ≡ done (stream, new)
      → Step l old stream

pub data Reach {E : Type 0} (l : Dlist E Segment) : Stream E → Type 0 where
  init :
      {stream : Stream E} (usable : ℕ → Option ℕ) (url : List ℕ)
      → stream_init l usable url ≡ done stream
      → Reach l stream
  step : {old stream : Stream E} → Reach l old → Step l old stream → Reach l stream

-- Every segment of a stream is a packet.
abbrev pub IsStream : {E : Type 0} (l : Dlist E Segment) → Stream E → Type 0
IsStream l stream = All IsPacket (l.nodes stream.segment_list)

module _ {E : Type 0} (l : Dlist E Segment) (laws : IsDlist l) where
  init-IsStream :
      (usable : ℕ → Option ℕ) (url : List ℕ) → Ends (IsStream l) (stream_init l usable url)
  unfolding stream_init
  init-IsStream usable url =
      >>=-Ends (IsStream l) (copy_url usable url) _
        λ copy. subst (All IsPacket) (sym laws.nodes-entry_init) tt

  round-Ends :
      (entry : E) (next_rounds : List ℕ → E → Outcome E) (parsed : Option (List ℕ × Segment))
      → All IsPacket (l.nodes entry)
      → IsRound parsed
      → ((rest : List ℕ) (next : E)
          → All IsPacket (l.nodes next)
          → Ends (λ last. All IsPacket (l.nodes last)) (next_rounds rest next))
      → Ends (λ last. All IsPacket (l.nodes last)) (round l entry next_rounds parsed)
  round-Ends entry next_rounds none h is rounds = h
  round-Ends entry next_rounds (some (rest, s)) h is rounds = rounds rest (l.put_tail entry s) (
      subst (All IsPacket) (sym (laws.nodes-put_tail entry s))
        (All-append_one IsPacket (l.nodes entry) s h is))

  read_loop-Ends :
      (fuel : ℕ) (memory : Memory) (k : ℕ) (fd : List ℕ) (entry : E)
      → All IsPacket (l.nodes entry)
      → Ends (λ last. All IsPacket (l.nodes last)) (read_loop l fuel memory k fd entry)
  unfolding read_loop
  read_loop-Ends zero memory k fd entry h = tt
  read_loop-Ends (suc fuel) memory k fd entry h =
      >>=-Ends_then (λ last. All IsPacket (l.nodes last)) IsRound
        (parse_into (memory.segment k) (memory.pes_header k) fd)
        (round l entry (read_loop l fuel memory (k + 1)))
        (parse_into-Ends (memory.segment k) (memory.pes_header k) fd)
        λ parsed is.
          round-Ends entry (read_loop l fuel memory (k + 1)) parsed h is
            λ rest next all. read_loop-Ends fuel memory (k + 1) rest next all

  read_opened-Ends :
      (memory : Memory) (fd : Option (List ℕ))
      → Ends (λ last. All IsPacket (l.nodes last)) (read_opened l memory fd)
  unfolding read_opened
  read_opened-Ends memory none = tt
  read_opened-Ends memory (some fd) =
      read_loop-Ends (length fd + 1) memory 0 fd l.entry_init
        (subst (All IsPacket) (sym laws.nodes-entry_init) tt)

  read_from-Ends :
      (file : List ℕ → Option (List ℕ)) (memory : Memory) (stream : Stream E)
      (url : Option (List ℕ))
      → IsStream l stream
      → Ends (IsStream l) (read_from l file memory stream url)
  unfolding read_from
  read_from-Ends file memory stream none h = h
  read_from-Ends file memory stream (some url) h =
      >>=-Ends_then (IsStream l) (λ last. All IsPacket (l.nodes last))
        (read_opened l memory (file url)) (λ entry. done (record stream { segment_list = entry }))
        (read_opened-Ends memory (file url)) λ entry all. all

  -- The segments that an operation leaves, in their list.
  with_nodes-All :
      (e : E) (ss : List Segment)
      → length ss ≡ length (l.nodes e)
      → All IsPacket ss
      → All IsPacket (l.nodes (l.with_nodes e ss))
  with_nodes-All e ss count all = subst (All IsPacket) (sym (laws.nodes-with_nodes e ss count)) all

  mapped :
      (stream : Stream E) (f : Segment → Segment)
      → ((s : Segment) → IsPacket s → IsPacket (f s))
      → IsStream l stream
      → All IsPacket
          (l.nodes (l.with_nodes stream.segment_list (map f (l.nodes stream.segment_list))))
  mapped stream f keeps h =
      let ss = l.nodes stream.segment_list in
      with_nodes-All stream.segment_list (map f ss) (length-map f ss) (All-map f ss keeps h)

  write-Ends :
      (content : Option (List ℕ)) (stream : Stream E)
      → IsStream l stream
      → Ends (λ r. IsStream l r.0) (stream_write l content stream)
  unfolding stream_write
  write-Ends none stream h = h
  write-Ends (some old) stream h =
      >>=-Ends_then (λ (r : Stream E × Option (List ℕ)). IsStream l r.0)
        (AreWritten (l.nodes stream.segment_list)) (write_all (l.nodes stream.segment_list)) _
        (write_all-Ends (l.nodes stream.segment_list) h)
        λ (written, bytes) (all, count, size). with_nodes-All stream.segment_list written count all

  Step-IsStream : {old stream : Stream E} → Step l old stream → IsStream l old → IsStream l stream
  unfolding pes_reset_len fix_keyframe update_pcr_by_pts update_cc read_segment
  Step-IsStream {old} (reads file memory e) h =
      Ends-done (IsStream l) (read_segment l file memory old)
        (read_from-Ends file memory old old.url h) e
  Step-IsStream {old} resets h = mapped old reset_len reset_len-IsPacket h
  Step-IsStream {old} (marks pid) h = mapped old (fix_segment pid) (fix_segment-IsPacket pid) h
  Step-IsStream {old} (clocks pid) h = mapped old pcr_by_pts pcr_by_pts-IsPacket h
  Step-IsStream {old} (counts pid init_cc) h =
      let (all, count) = update_cc_loop-IsPacket pid init_cc (l.nodes old.segment_list) h in
      with_nodes-All old.segment_list (update_cc_loop pid init_cc (l.nodes old.segment_list)).0
        count all
  Step-IsStream {old} (writes content new e) h =
      Ends-done (λ r. IsStream l r.0) (stream_write l content old) (write-Ends content old h) e

  -- In every state that the operations bring a new stream to, in any order, with any files and whatever
  -- the memory holds, each segment has the sync byte, the fields of its header are within their widths, and
  -- its payload is 184 bytes long.
  pub Reach-IsStream : {stream : Stream E} → Reach l stream → IsStream l stream
  Reach-IsStream (init usable url e) =
      Ends-done (IsStream l) (stream_init l usable url) (init-IsStream usable url) e
  Reach-IsStream (step r s) = Step-IsStream s (Reach-IsStream r)

  -- What `mpegts_stream_write` puts over the start of a file that can be opened is 188 bytes for every
  -- segment of the stream, if the stream is one that the operations bring about and the call returns.
  pub stream_write_size :
      {stream after : Stream E} (old : List ℕ) {content : Option (List ℕ)}
      → Reach l stream
      → stream_write l (some old) stream ≡ done (after, content)
      → (bytes : List ℕ) × (content ≡ some (bytes ++ drop (length bytes) old))
        × (length bytes ≡ 188 * l.size stream.segment_list)
        × (l.size after.segment_list ≡ l.size stream.segment_list)
  unfolding stream_write
  stream_write_size {stream} old r e =
      let ((written, bytes), e1, e2) = >>=-eq-done (write_all (l.nodes stream.segment_list)) _ e in
      let all = Reach-IsStream r in
      let (kept, count, size) =
        Ends-done (AreWritten (l.nodes stream.segment_list)) _
          (write_all-Ends (l.nodes stream.segment_list) all) e1 in
      let same = done-injective _ _ (sym e2) in
      let nodes_count : (entry : E) → l.size entry ≡ length (l.nodes entry) = laws.size-nodes in
      let entry = stream.segment_list in
      (
        bytes,
        ap (λ r. r.1) same,
        size ∙ ap (λ n. 188 * n) (sym (nodes_count entry)),
        ap (λ r. l.size r.0.segment_list) same
            ∙ nodes_count (l.with_nodes entry written)
            ∙ ap length (laws.nodes-with_nodes entry written count)
            ∙ count
            ∙ sym (nodes_count entry),
      )
