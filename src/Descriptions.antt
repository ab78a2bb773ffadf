-- ===== src/Descriptions.antt =====
-- The tables of mpegts_parser.c that give names to the values of a packet, and what the functions
-- `print_*` show: the arguments of a line rather than its text.
pub mod Streams
pub mod Printed
use Prim.Native.String.{String}
use mpegts_reader.Common.{
  ℕ, zero, suc, ◌+◌, ◌-◌, ◌^◌, ◌%◌, Bool, true, false, ◌==◌, ltb, leb, if◌then◌else◌, List, [], ◌∷◌,
  ◌++◌, Option, none, some, ◌&&◌,
}
use mpegts_reader.Common.Outcome.{Outcome, done, exited, ◌>>=◌}
use mpegts_reader.Ts.{TsHeader, AdaptField, PesHeader, Segment, payload_size}
use mpegts_reader.Ts.Header.{ts_sync, einval}
use mpegts_reader.Dlist.{Dlist}
use mpegts_reader.Stream.{Stream, has_pid}

unfoldable pub get_tsc_value : ℕ → String
get_tsc_value tsc =
    if tsc == 0
    then "NOT SCRAMBLED"
    else if tsc == 1
    then "RESV"
    else if tsc == 2
    then "Even Key"
    else if tsc == 3
    then "Odd Key"
    else "UNKOWN"

unfoldable pub get_stream_type_name : ℕ → String
get_stream_type_name stream_id =
    if stream_id == 0xBD
    then "Private Stream1"
    else if stream_id == 0xBE
    then "Padding Stream"
    else if stream_id == 0xBF
    then "Private Stream2"
    else if ltb stream_id 0xDF
    then "Audio"
    else if ltb stream_id 0xEF
    then "Video"
    else "Unknown"

-- `none` where the function ends without a `return`.
unfoldable pub get_pts_value : ℕ → Option String
get_pts_value pts_ind =
    if pts_ind == 0
    then some "NO PTS/DTS"
    else if pts_ind == 1
    then some "FORBIDDEN!!!"
    else if pts_ind == 2
    then some "PTS"
    else if pts_ind == 3
    then some "PTS | DTS"
    else none

unfoldable pub get_pid_description : ℕ → String
get_pid_description pid =
    if pid == 0x00
    then "PAT"
    else if pid == 0x01
    then "CAT"
    else if pid == 0x02
    then "TSDT"
    else if pid == 0x03
    then "IPMP"
    else if pid == 0xfff
    then "PMT"
    else if pid == 0x1ffb
    then "ATSC MGT meta"
    else if pid == 0x1fff
    then "NULL Packet"
    else if leb pid 15
    then "RESV"
    else if leb pid 31
    then "DVB Meta"
    else if leb pid 8190
    then "Elementary Stream"
    else "UNKNOWN"

-- `none` for NULL.
unfoldable pub get_adpt_field_value : ℕ → Option String
get_adpt_field_value adp =
    if adp == 0
    then some "RESV"
    else if adp == 1
    then some "(Payload)"
    else if adp == 2
    then some "(Ad Field)"
    else if adp == 3
    then some "(Ad Field | Payload)"
    else none

-- What is printed: the lines of `print_ts_haeder`, `print_adaptation_field` and `print_payload`, each by
-- its arguments.
pub data Line : Type 0 where
  ts_header : TsHeader → String → String → String → String → Line
  adaptation : AdaptField → Line
  adaptation_pcr : ℕ → Line
  payload_line : ℕ → Line
  pes_line : PesHeader → String → Option String → Line

-- The line of `print_ts_haeder` behind the test for NULL.
abbrev pub header_line : TsHeader → String → Option String → Outcome (List Line)
header_line header scv none = exited einval
header_line header scv (some adv) = done (
    ts_header header (get_pid_description header.pid) scv adv (if header.pusi then "YES" else "NO")
    ∷ [])

unfoldable pub print_ts_haeder : Segment → Outcome (List Line)
print_ts_haeder segment =
    let header = segment.header in
    if header.sync == ts_sync
    then (if header.tei
        then done []
        else header_line header (get_tsc_value header.tscramble_control)
            (get_adpt_field_value header.adaptation_field_ctrl))
    else exited einval

unfoldable pub print_adaptation_field : Segment → List Line
print_adaptation_field segment =
    let adf = segment.adaptation_field in
    adaptation adf ∷ (if adf.has_pcr then adaptation_pcr adf.pcr ∷ [] else [])

-- `psize`, an unsigned number of 32 bits.
abbrev pub psize : Segment → ℕ
psize segment = (2 ^ 32 + payload_size - segment.payload_start % 2 ^ 32) % 2 ^ 32

-- The lines for the PES header.
abbrev pub pes_lines : Option PesHeader → List Line
pes_lines none = []
pes_lines (some header) =
    pes_line header (get_stream_type_name header.stream_id) (get_pts_value header.pts_ind) ∷ []

unfoldable pub print_payload : Segment → List Line
print_payload segment = payload_line (psize segment) ∷ pes_lines segment.pes_header

-- The body of the loops of `mpegts_stream_print` and `mpegts_stream_print_pes_header`.
unfoldable pub print_segment : Segment → Outcome (List Line)
unfolding print_ts_haeder print_adaptation_field print_payload
print_segment segment = do
  header ← print_ts_haeder segment
  done (header ++ (print_adaptation_field segment ++ print_payload segment))

unfoldable pub print_all : (Segment → Bool) → List Segment → Outcome (List Line)
unfolding print_segment
print_all chosen [] = done []
print_all chosen (segment ∷ segments) = do
  lines ← if chosen segment then print_segment segment else done []
  more ← print_all chosen segments
  done (lines ++ more)

module _ {E : Type 0} (l : Dlist E Segment) where
  unfoldable pub mpegts_stream_print : Stream E → Outcome (List Line)
  unfolding print_all
  mpegts_stream_print stream = print_all (λ segment. true) (l.nodes stream.segment_list)

  unfoldable pub mpegts_stream_print_pes_header : Stream E → ℕ → Outcome (List Line)
  unfolding print_all
  mpegts_stream_print_pes_header stream pid =
      print_all (λ segment. segment.header.pusi && has_pid pid segment)
        (l.nodes stream.segment_list)

  -- The loop of `hls_print_timestamp`, in the playlist's order.
  unfoldable pub print_timestamps : ℕ → List (Stream E) → Outcome (List Line)
  unfolding mpegts_stream_print_pes_header
  print_timestamps pid [] = done []
  print_timestamps pid (stream ∷ streams) = do
    lines ← mpegts_stream_print_pes_header stream pid
    more ← print_timestamps pid streams
    done (lines ++ more)
