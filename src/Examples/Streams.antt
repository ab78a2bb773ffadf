-- ===== src/Examples/Streams.antt =====
-- The theorems of Stream and Hls on concrete streams and playlists.
use mpegts_reader.Common.{
  ℕ, ◌+◌, ◌≡◌, ◌≢◌, ◌==◌, true, false, refl, List, [], ◌∷◌, length, map, Option, none, some, arith,
}
use mpegts_reader.Common.Outcome.{done, stuck}
use mpegts_reader.Ts.{Segment}
use mpegts_reader.Ts.Header.{ts_sync}
use mpegts_reader.Ts.Packet.{parse_ts_segment}
use mpegts_reader.Stream.{Stream, read_opened, read_segment}
use mpegts_reader.Stream.ReadWrite.{Packet, IsPlain, IsClean, file_of, read_segment-ne-stuck}
use mpegts_reader.Stream.Counters.{count_from, counters_of}
use mpegts_reader.Hls.{Playlist, Machine, hls_parse, hls_update, hls_fix_discontinuity}
use mpegts_reader.Hls.Parse.{hls_parse-ne-stuck}
use mpegts_reader.Hls.Lines.{IsLine, urls, IsAmple, text, media, hls_parse-media}
use mpegts_reader.Hls.Update.{IsPlainFile, hls_update-hls_parse}
use mpegts_reader.Hls.Discontinuity.{outline, playlist_packets, hls_fix_discontinuity_numbers}
use mpegts_reader.Examples.{
  zero_segment, zero_pes, zero_memory, zeros, zeros-IsPayload, counted_segment, list_dlist,
  list_dlist-IsDlist,
}

abbrev plain_packet : Packet
plain_packet = record { byte0 = ts_sync; byte1 = 0x41; byte2 = 0; byte3 = 0x15; body = zeros }

plain_packet-IsPlain : IsPlain plain_packet
plain_packet-IsPlain = record {
  start = record { sync = refl; byte1 = omega arith; byte2 = omega arith; byte3 = omega arith };
  clear = omega arith;
  no_field = omega arith;
  body = zeros-IsPayload;
}

abbrev plain_file : List ℕ
plain_file = file_of (plain_packet ∷ [])

zero_memory-IsClean : IsClean zero_memory
zero_memory-IsClean = record {
  segment = λ k. (zero_segment, refl, refl, refl);
  pes_header = λ k. (zero_pes, refl);
}

-- The path "3", and a stream that is not read yet.
abbrev path : List ℕ
path = 51 ∷ []

abbrev unread : Stream (List Segment)
unread = record { segment_list = []; url = some path }

abbrev numbered : Stream (List Segment)
numbered = record unread {
  segment_list = counted_segment 3 ∷ zero_segment ∷ counted_segment 9 ∷ [];
}

read_segment-ne-stuck_example :
    read_segment list_dlist (λ name. some plain_file) zero_memory unread ≢ stuck
read_segment-ne-stuck_example =
    read_segment-ne-stuck list_dlist (λ name. some plain_file) zero_memory unread

-- A playlist with the line "#" and the line "3".
abbrev playlist_lines : List (List ℕ)
playlist_lines = (35 ∷ []) ∷ path ∷ []

abbrev playlist_path : List ℕ
playlist_path = 112 ∷ []

abbrev file : List ℕ → Option (List ℕ)
file [] = none
file (b ∷ bs) = elim (b == 112) [ true ↦ some (text playlist_lines) | false ↦ some [] ]

abbrev machine : Machine
machine = record { file = file; usable = λ n. some (n + 1); stream_memory = λ k. some zero_memory }

abbrev unparsed : Playlist (List (Stream (List Segment)))
unparsed = record { sublist = []; url = some playlist_path }

hls_parse-ne-stuck_example : hls_parse list_dlist list_dlist machine unparsed ≢ stuck
hls_parse-ne-stuck_example = hls_parse-ne-stuck list_dlist list_dlist machine unparsed

machine-IsAmple : IsAmple list_dlist list_dlist machine (λ k. zero_memory)
machine-IsAmple = record { stream_memory = λ k. refl; usable = λ n. (n + 1, refl, omega arith) }

hls_parse-media_example :
    (parsed : Playlist (List (Stream (List Segment)))) × (hls_parse list_dlist list_dlist machine
        unparsed
      ≡ done parsed)
    × (map (λ s. s.url) parsed.sublist ≡ some path ∷ [])
    × (parsed.url ≡ some playlist_path)
unfolding media read_opened parse_ts_segment
hls_parse-media_example =
    hls_parse-media list_dlist list_dlist machine (λ k. zero_memory) list_dlist-IsDlist
      machine-IsAmple unparsed playlist_path playlist_lines refl refl
      (
        record {
          bytes = ((λ e. omega (arith, e), λ e. omega (arith, e)), tt);
          short = omega arith;
        },
        (
          record {
            bytes = ((λ e. omega (arith, e), λ e. omega (arith, e)), tt);
            short = omega arith;
          },
          tt,
        ),
      )
      ((λ k. ([], refl)), tt)

abbrev two_streams : Playlist (List (Stream (List Segment)))
two_streams = record { sublist = numbered ∷ numbered ∷ []; url = some playlist_path }

hls_fix_discontinuity_numbers_example :
    (counters_of 0x100 (
        playlist_packets list_dlist list_dlist
          (hls_fix_discontinuity list_dlist list_dlist two_streams (0x101 ∷ 0x102 ∷ []) 2))
      ≡ count_from 0
          (length (counters_of 0x100 (playlist_packets list_dlist list_dlist two_streams))))
    × (map
          (outline list_dlist)
          (hls_fix_discontinuity list_dlist list_dlist two_streams (0x101 ∷ 0x102 ∷ []) 2).sublist
        ≡ map (outline list_dlist) two_streams.sublist)
    × ((hls_fix_discontinuity list_dlist list_dlist two_streams (0x101 ∷ 0x102 ∷ []) 2).url
        ≡ some playlist_path)
hls_fix_discontinuity_numbers_example =
    hls_fix_discontinuity_numbers list_dlist list_dlist-IsDlist list_dlist list_dlist-IsDlist
      two_streams (0x101 ∷ 0x102 ∷ []) 2 (omega arith)

-- The same, with a packet in the file of the path "3".
abbrev plain_files : List ℕ → Option (List ℕ)
plain_files [] = none
plain_files (b ∷ bs) = elim (b == 112) [
  | true ↦ some (text playlist_lines)
  | false ↦ some plain_file
]

abbrev plain_machine : Machine
plain_machine = record machine { file = plain_files }

path-IsLine : IsLine path
path-IsLine = record {
  bytes = ((λ e. omega (arith, e), λ e. omega (arith, e)), tt);
  short = omega arith;
}

tag-IsLine : IsLine (35 ∷ [])
tag-IsLine = record {
  bytes = ((λ e. omega (arith, e), λ e. omega (arith, e)), tt);
  short = omega arith;
}

path-IsPlainFile : IsPlainFile plain_machine path
path-IsPlainFile = record {
  packets = plain_packet ∷ [];
  held = refl;
  plain = (plain_packet-IsPlain, tt);
}

hls_update-hls_parse_example :
    (parsed updated : Playlist (List (Stream (List Segment)))) × (file' : List ℕ → Option (List ℕ))
    × (hls_parse list_dlist list_dlist plain_machine unparsed ≡ done parsed)
    × (urls list_dlist parsed.sublist ≡ map some (media playlist_lines))
    × (hls_update list_dlist list_dlist plain_files parsed ≡ done (updated, file'))
    × ((at : List ℕ) → file' at ≡ plain_files at)
unfolding media
hls_update-hls_parse_example =
    hls_update-hls_parse list_dlist list_dlist plain_machine (λ k. zero_memory) list_dlist-IsDlist
      list_dlist-IsDlist
      (record { stream_memory = λ k. refl; usable = λ n. (n + 1, refl, omega arith) })
      (λ k. zero_memory-IsClean) unparsed playlist_path playlist_lines refl refl refl
      (tag-IsLine, (path-IsLine, tt)) (path-IsPlainFile, tt)
