-- ===== src/Examples/Commands.antt =====
-- The theorems of CommandLine, Descriptions and Stream.Reach on concrete arguments and streams.
use mpegts_reader.Common.{
  ℕ, ltb, ◌+◌, ◌≡◌, ◌≢◌, ◌<◌, ◌*◌, ◌↔◌, ◌++◌, refl, List, [], ◌∷◌, length, drop, Option, none, some,
  arith,
}
use mpegts_reader.Common.Outcome.{Outcome, done}
use mpegts_reader.Ts.Header.{ts_sync, parse_header, write_header}
use mpegts_reader.Ts.Adaptation.{parse_adaptation_field, write_adaptation_field}
use mpegts_reader.Ts.Pes.{parse_pes_header, write_pes_header}
use mpegts_reader.Ts.Packet.{parse_ts_segment, write_ts_segment}
use mpegts_reader.Ts.{Segment}
use mpegts_reader.Stream.{Stream, stream_init, read_segment, stream_write, fix_keyframe}
use mpegts_reader.Stream.Reach.{
  Reach, init, step, reads, marks, IsStream, Reach-IsStream, stream_write_size,
}
use mpegts_reader.Descriptions.{
  get_stream_type_name, Line, mpegts_stream_print, mpegts_stream_print_pes_header,
}
use mpegts_reader.Descriptions.Streams.{
  is_audio, is_video, is_called, get_stream_type_name-is_audio_iff,
}
use mpegts_reader.Descriptions.Printed.{mpegts_stream_print-done}
use mpegts_reader.CommandLine.{Options, no_options, parse_args, main, exits}
use mpegts_reader.CommandLine.Seeks.{bytes_of, played, main_lem}
use mpegts_reader.Player.{returns}
use mpegts_reader.Player.Calls.{parse_launch}
use mpegts_reader.Common.Integers.{pos}
use mpegts_reader.CommandLine.Settings.{
  Setting, args_of, default_input, last_of, parse_args-args_of,
}
use mpegts_reader.Examples.{zeros, zero_memory, list_dlist, list_dlist-IsDlist}

-- mpegts -o out -i 1.ts
abbrev program : List ℕ
program = 109 ∷ 112 ∷ []

abbrev settings : List Setting
settings =
    record { letter = b'o'; value = 111 ∷ 117 ∷ 116 ∷ [] }
    ∷ record { letter = b'i'; value = 49 ∷ [] }
    ∷ []

parse_args-args_of_example :
    (parsed : Options) × (parse_args (program ∷ args_of settings) no_options ≡ done parsed)
    × (parsed.output_path ≡ last_of b'o' b'O' settings none)
    × (some parsed.input_path ≡ last_of b'i' b'I' settings (some default_input))
parse_args-args_of_example =
    parse_args-args_of program settings (λ e. omega (arith, e)) (omega arith)
      (
        record { plain = λ e. omega (arith, e); short = omega arith },
        (record { plain = λ e. omega (arith, e); short = omega arith }, tt),
      )

abbrev parsed : Options
parsed = record { output_path = some (111 ∷ 117 ∷ 116 ∷ []); input_path = 49 ∷ []; ctx = b'i' }

parse_args-parsed : parse_args (program ∷ args_of settings) no_options ≡ done parsed
unfolding parse_args
parse_args-parsed = refl

-- Nobody else touches the player, and GStreamer does not seek in the third round.
main_lem_example :
    main 7 8 9 (λ k player. player) (λ k. ltb k 2) 4 (program ∷ args_of settings)
    ≡ done
        (some (111 ∷ 117 ∷ 116 ∷ []), returns (parse_launch (bytes_of played) ∷ [], pos 0, exits))
main_lem_example =
    main_lem (λ k player. player) (λ k. ltb k 2) (λ k player free. free) 7 8 9 4
      (program ∷ args_of settings) parsed parse_args-parsed

abbrev last_audio : ℕ
last_audio = 0xDF

get_stream_type_name-is_audio_iff_example :
    ((is_called "Audio" last_audio ≡ is_audio last_audio)
      ↔ ((0xBC < last_audio) × (last_audio ≢ 0xDF)))
    × ((is_called "Video" last_audio ≡ is_video last_audio)
        ↔ ((last_audio ≢ 0xDF) × (last_audio ≢ 0xEF)))
    × (get_stream_type_name 0xBD ≡ "Private Stream1")
    × (get_stream_type_name 0xBE ≡ "Padding Stream")
    × (get_stream_type_name 0xBF ≡ "Private Stream2")
get_stream_type_name-is_audio_iff_example =
    get_stream_type_name-is_audio_iff last_audio (omega arith)

-- A stream with the path "3", whose file holds one packet, read and then numbered.
abbrev usable : ℕ → Option ℕ
usable n = some (n + 1)

abbrev packet : List ℕ
packet = ts_sync ∷ 0x41 ∷ 0 ∷ 0x15 ∷ zeros

abbrev file : List ℕ → Option (List ℕ)
file path = some packet

abbrev unread : Stream (List Segment)
unread = record { segment_list = []; url = some (51 ∷ []) }

abbrev stream_of : Outcome (Stream (List Segment)) → Stream (List Segment)
stream_of (done stream) = stream
stream_of other = unread

abbrev loaded : Stream (List Segment)
loaded = stream_of (read_segment list_dlist file zero_memory unread)

abbrev marked : Stream (List Segment)
marked = fix_keyframe list_dlist loaded 0x100

loads : read_segment list_dlist file zero_memory unread ≡ done loaded
unfolding read_segment parse_ts_segment parse_header parse_adaptation_field parse_pes_header
loads = refl

marked-Reach : Reach list_dlist marked
unfolding stream_init
marked-Reach = step (step (init usable (51 ∷ []) refl) (reads file zero_memory loads)) (marks 0x100)

Reach-IsStream_example : IsStream list_dlist marked
Reach-IsStream_example = Reach-IsStream list_dlist list_dlist-IsDlist marked-Reach

mpegts_stream_print-done_example :
    ((lines : List Line) × (mpegts_stream_print list_dlist marked ≡ done lines))
    × ((lines : List Line) × (mpegts_stream_print_pes_header list_dlist marked 0x100 ≡ done lines))
mpegts_stream_print-done_example =
    mpegts_stream_print-done list_dlist list_dlist-IsDlist 0x100 marked-Reach

writes_back : stream_write list_dlist (some packet) marked ≡ done (marked, some packet)
unfolding read_segment fix_keyframe stream_write parse_ts_segment parse_header
    parse_adaptation_field parse_pes_header write_ts_segment write_adaptation_field write_pes_header
    write_header
writes_back = refl

stream_write_size_example :
    (bytes : List ℕ) × (some packet ≡ some (bytes ++ drop (length bytes) packet))
    × (length bytes ≡ 188 * length marked.segment_list)
    × (length marked.segment_list ≡ length marked.segment_list)
stream_write_size_example =
    stream_write_size list_dlist list_dlist-IsDlist packet marked-Reach writes_back
