-- ===== src/Ts/Packet.antt =====
-- `parse_ts_segment` and `write_ts_segment` of mpegts_parser.c. An open file is the list of the bytes
-- behind its position: `read` takes what it is asked for, or what is left.
pub mod Parse
pub mod Marks
pub mod Settled
pub mod RoundTrip
pub mod Runs
pub mod Bounds
use mpegts_reader.Common.{
  ℕ, ◌+◌, ◌*◌, ◌/◌, ◌%◌, Bool, true, false, ◌==◌, if◌then◌else◌, List, [], ◌∷◌, ◌++◌, length, take,
  drop, Option,
}
use mpegts_reader.Common.Outcome.{Outcome, done, exited, ◌>>=◌}
use mpegts_reader.Ts.{PesHeader, Segment, payload_size}
use mpegts_reader.Ts.Header.{parse_header, write_header}
use mpegts_reader.Ts.Adaptation.{parse_adaptation_field, write_adaptation_field}
use mpegts_reader.Ts.Pes.{parse_pes_header, write_pes_header}

-- EBADFD
abbrev pub ebadfd : ℕ
ebadfd = 77

-- The bytes of a `uint32_t` in memory, lowest first; bytes that were not read stay 0.
abbrev pub word_of_bytes : List ℕ → ℕ
word_of_bytes [] = 0
word_of_bytes (b ∷ bs) = b + 256 * word_of_bytes bs

abbrev pub bytes_of_word : ℕ → List ℕ
bytes_of_word w = (w % 256) ∷ (w / 256 % 256) ∷ (w / 65536 % 256) ∷ (w / 16777216 % 256) ∷ []

-- The segment behind a header that was read, from the payload's bytes.
unfoldable pub parse_body : Option PesHeader → List ℕ → Segment → Outcome Segment
parse_body memory body segment = do
  (segment, cursor) ← parse_adaptation_field (record segment { payload = body })
  (segment, start) ← parse_pes_header memory segment cursor
  done (record segment { payload_start = start })

-- `parse_ts_segment`: its result, the file behind what was read, and the segment. `memory` is what
-- `malloc` gives for the PES header.
unfoldable pub parse_ts_segment :
    Option PesHeader → List ℕ → Segment → Outcome (Bool × List ℕ × Segment)
unfolding parse_body
parse_ts_segment memory [] segment = done (false, [], segment)
parse_ts_segment memory (b ∷ bs) segment = do
  segment ← parse_header (word_of_bytes (take 4 (b ∷ bs))) segment
  let body = take payload_size (drop 4 (b ∷ bs))
  if length body == payload_size
      then (do
        segment ← parse_body memory body segment
        done (true, drop payload_size (drop 4 (b ∷ bs)), segment))
      else exited ebadfd

-- `write_ts_segment`: the segment, whose payload is written into, and the bytes that go to the file.
unfoldable pub write_ts_segment : Segment → Outcome (Segment × List ℕ)
write_ts_segment segment = do
  let header = bytes_of_word (write_header segment)
  (segment, cursor) ← write_adaptation_field segment
  (segment, cursor) ← write_pes_header segment cursor
  done (segment, header ++ segment.payload)
