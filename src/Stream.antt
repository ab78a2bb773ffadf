-- ===== src/Stream.antt =====
-- The `mpegts_stream_*` operations of mpegts_parser.c on a stream: its segments, and the path of its file.
pub mod ReadWrite
pub mod Counters
pub mod Edits
pub mod Settled
pub mod Numbered
pub mod KeyFrames
pub mod Packets
pub mod Written
pub mod Loops
pub mod Reach
use mpegts_reader.Common.{
  ℕ, zero, suc, ◌+◌, ◌*◌, ◌≡◌, Bool, true, false, ◌==◌, leb, if◌then◌else◌, ◌&&◌, List, [], ◌∷◌,
  ◌++◌, length, drop, map, Option, none, some, bit_and, not,
}
use mpegts_reader.Common.Words.{u8, u64}
use mpegts_reader.Common.Outcome.{Outcome, done, exited, fault, stuck, ◌>>=◌}
use mpegts_reader.Dlist.{Dlist}
use mpegts_reader.Ts.{TsHeader, AdaptField, PesHeader, Segment, field}
use mpegts_reader.Ts.Header.{einval}
use mpegts_reader.Ts.Packet.{parse_ts_segment, write_ts_segment, ebadfd}

-- `mpegts_stream_t`; `url` holds the bytes in front of the NUL, and is `none` for NULL.
pub record Stream (E : Type 0) : Type 0 where
  pub segment_list : E
  pub url : Option (List ℕ)

-- ENOMEM
abbrev pub enomem : ℕ
enomem = 12

-- `strcpy` into a block of `capacity` bytes: it writes the bytes and a NUL.
abbrev pub strcpy : ℕ → List ℕ → Outcome (List ℕ)
strcpy capacity src = if leb (length src + 1) capacity then done src else fault

-- `p = malloc(len * sizeof(char)); strcpy(p, url)` with `len` the length of `url`. `usable n` is the
-- size of the block that `malloc(n)` gives, and `none` is NULL.
unfoldable pub copy_url : (ℕ → Option ℕ) → List ℕ → Outcome (List ℕ)
copy_url usable url = elim (usable (length url)) [
  | none ↦ exited enomem
  | some capacity ↦ strcpy capacity url
]

-- `mpegts_segment_init`: the `memset` clears the eight bytes of a pointer, the link `ln.next`.
unfoldable pub segment_init : Segment → Segment
segment_init segment = record segment { payload_start = 0 }

-- What `malloc` gives for the segments and the PES headers of a stream, by number: NULL or a block with
-- whatever it holds.
pub record Memory : Type 0 where
  pub segment : ℕ → Option Segment
  pub pes_header : ℕ → Option PesHeader

-- What the answer of `parse_ts_segment` means for the loop: `none` ends it.
abbrev pub answer : Bool × List ℕ × Segment → Outcome (Option (List ℕ × Segment))
answer (more, rest, segment) = if more then done (some (rest, segment)) else done none

-- The loop's condition, on a new segment that may be NULL: `parse_header` is the first to look at it.
unfoldable pub parse_into :
    Option Segment → Option PesHeader → List ℕ → Outcome (Option (List ℕ × Segment))
unfolding segment_init
parse_into none pes_memory [] = done none
parse_into none pes_memory (b ∷ bs) = exited einval
parse_into (some raw) pes_memory fd = do
  result ← parse_ts_segment pes_memory fd (segment_init raw)
  answer result

-- `segment->header.pid == pid`
abbrev pub has_pid : ℕ → Segment → Bool
has_pid pid segment = segment.header.pid == pid

-- The loop of `mpegts_stream_get_last_cc`.
unfoldable pub last_cc : ℕ → ℕ → List Segment → ℕ
last_cc pid cc [] = cc
last_cc pid cc (segment ∷ segments) =
    last_cc pid (if has_pid pid segment then segment.header.continuity_counter else cc) segments

-- One round of the loop of `mpegts_stream_update_cc`.
unfoldable pub set_cc : ℕ → ℕ → Segment → Segment
set_cc pid cc segment =
    if has_pid pid segment
    then record segment { header = record segment.header { continuity_counter = field 4 cc } }
    else segment

unfoldable pub next_cc : ℕ → ℕ → Segment → ℕ
next_cc pid cc segment = bit_and (if has_pid pid segment then u8 (cc + 1) else cc) 0xF

-- The loop: the segments after it, and `init_cc`.
unfoldable pub update_cc_loop : ℕ → ℕ → List Segment → List Segment × ℕ
unfolding set_cc next_cc
update_cc_loop pid cc [] = ([], cc)
update_cc_loop pid cc (segment ∷ segments) =
    let (rest, last) = update_cc_loop pid (next_cc pid cc segment) segments in
    (set_cc pid cc segment ∷ rest, last)

-- The body of the loop of `mpegts_stream_pes_reset_len`.
unfoldable pub reset_len : Segment → Segment
reset_len segment = elim segment.pes_header [
  | none ↦ segment
  | some header ↦ record segment { pes_header = some (record header { len = 0 }) }
]

-- The body of the loop of `mpegts_stream_fix_keyframe`.
unfoldable pub fix_segment : ℕ → Segment → Segment
fix_segment pid segment =
    if segment.header.pusi && has_pid pid segment && segment.adaptation_field.has_pcr
    then record segment { adaptation_field = record segment.adaptation_field { rand_acc = true } }
    else segment

-- The body of the loop of `mpegts_stream_update_pcr_by_pts`.
unfoldable pub pcr_by_pts : Segment → Segment
pcr_by_pts segment = elim segment.pes_header [
  | none ↦ segment
  | some header ↦
      if segment.adaptation_field.has_pcr && not (header.pts == 0)
      then record segment {
        adaptation_field = record segment.adaptation_field { pcr = u64 (header.pts * 300) };
      }
      else segment
]

-- The loop of `mpegts_stream_write`: the segments after it, and the bytes that went to the file.
unfoldable pub write_all : List Segment → Outcome (List Segment × List ℕ)
write_all [] = done ([], [])
write_all (segment ∷ segments) = do
  (segment, bytes) ← write_ts_segment segment
  (rest, more) ← write_all segments
  done (segment ∷ rest, bytes ++ more)

-- The operations, over the list library.
module _ {E : Type 0} (l : Dlist E Segment) where
  -- `mpegts_stream_init`
  unfoldable pub stream_init : (ℕ → Option ℕ) → List ℕ → Outcome (Stream E)
  unfolding copy_url
  stream_init usable url = do
    copy ← copy_url usable url
    done (record { segment_list = l.entry_init; url = some copy })

  -- The body of the loop, with the rounds that follow.
  abbrev pub round : E → (List ℕ → E → Outcome E) → Option (List ℕ × Segment) → Outcome E
  round entry next_rounds none = done entry
  round entry next_rounds (some (rest, segment)) = next_rounds rest (l.put_tail entry segment)

  -- The loop of `mpegts_stream_read_segment`, from the `k`-th allocation on.
  unfoldable pub read_loop : ℕ → Memory → ℕ → List ℕ → E → Outcome E
  unfolding parse_into
  read_loop zero memory k fd entry = stuck
  read_loop (suc fuel) memory k fd entry = do
    parsed ← parse_into (memory.segment k) (memory.pes_header k) fd
    round entry (read_loop fuel memory (k + 1)) parsed

  -- The list of the packets in an open file; `none` where `open` fails.
  unfoldable pub read_opened : Memory → Option (List ℕ) → Outcome E
  unfolding read_loop
  read_opened memory none = exited ebadfd
  read_opened memory (some fd) = read_loop (length fd + 1) memory 0 fd l.entry_init

  -- `mpegts_stream_read_segment` by the stream's `url`; `file` gives the content of the file at a path.
  unfoldable pub read_from :
      (List ℕ → Option (List ℕ)) → Memory → Stream E → Option (List ℕ) → Outcome (Stream E)
  unfolding read_opened
  read_from file memory stream none = done stream
  read_from file memory stream (some url) = do
    entry ← read_opened memory (file url)
    done (record stream { segment_list = entry })

  unfoldable pub read_segment : (List ℕ → Option (List ℕ)) → Memory → Stream E → Outcome (Stream E)
  unfolding read_from
  read_segment file memory stream = read_from file memory stream stream.url

  -- `mpegts_stream_write` into a file that holds `old`: the stream, and the file's new content, which
  -- keeps what lies behind the bytes written; `none` where `open` fails.
  unfoldable pub stream_write : Option (List ℕ) → Stream E → Outcome (Stream E × Option (List ℕ))
  unfolding write_all
  stream_write none stream = done (stream, none)
  stream_write (some old) stream = do
    (segments, bytes) ← write_all (l.nodes stream.segment_list)
    done (
      record stream { segment_list = l.with_nodes stream.segment_list segments },
      some (bytes ++ drop (length bytes) old),
    )

  unfoldable pub pes_reset_len : Stream E → Stream E
  unfolding reset_len
  pes_reset_len stream = record stream {
    segment_list = l.with_nodes stream.segment_list (map reset_len (l.nodes stream.segment_list));
  }

  unfoldable pub get_last_cc : Stream E → ℕ → ℕ
  unfolding last_cc
  get_last_cc stream pid = last_cc pid 0 (l.nodes stream.segment_list)

  unfoldable pub update_cc : Stream E → ℕ → ℕ → Stream E × ℕ
  unfolding update_cc_loop
  update_cc stream pid init_cc =
      let (segments, cc) = update_cc_loop pid init_cc (l.nodes stream.segment_list) in
      (record stream { segment_list = l.with_nodes stream.segment_list segments }, cc)

  unfoldable pub fix_keyframe : Stream E → ℕ → Stream E
  unfolding fix_segment
  fix_keyframe stream pid = record stream {
    segment_list =
        l.with_nodes stream.segment_list (map (fix_segment pid) (l.nodes stream.segment_list));
  }

  -- The argument `pid` is not used.
  unfoldable pub update_pcr_by_pts : Stream E → ℕ → Stream E
  unfolding pcr_by_pts
  update_pcr_by_pts stream pid = record stream {
    segment_list = l.with_nodes stream.segment_list (map pcr_by_pts (l.nodes stream.segment_list));
  }

  -- The loop of `mpegts_stream_free`: the entry behind it, and the segments that were freed.
  unfoldable pub free_loop : ℕ → E → Outcome (E × List Segment)
  free_loop zero entry = stuck
  free_loop (suc fuel) entry =
      if l.is_empty entry then done (entry, []) else elim (l.dequeue entry) [
        | none ↦ fault
        | some (segment, rest) ↦ do
          (last, freed) ← free_loop fuel rest
          done (last, segment ∷ freed)
      ]
