-- ===== src/Examples/Numbered.antt =====
-- The theorems on numbered and marked packets, on two files of two packets each.
use mpegts_reader.Common.{
  map, ℕ, ◌+◌, ◌%◌, ◌≡◌, refl, true, false, ◌==◌, List, [], ◌∷◌, All, inl, inr, Option, none, some,
  arith,
}
use mpegts_reader.Common.Outcome.{done}
use mpegts_reader.Ts.{Segment}
use mpegts_reader.Ts.Header.{ts_sync}
use mpegts_reader.Stream.{Stream, copy_url, read_segment, stream_write, update_cc, fix_keyframe}
use mpegts_reader.Stream.ReadWrite.{Packet, file_of}
use mpegts_reader.Stream.Settled.{IsStable, IsBlank}
use mpegts_reader.Stream.Numbered.{number_packets, count_packets, stream_write-update_cc}
use mpegts_reader.Stream.KeyFrames.{mark_packet, stream_write-fix_keyframe}
use mpegts_reader.Hls.{
  Playlist, Machine, playlist_init, playlist_size, hls_parse, hls_update, hls_fix_discontinuity,
}
use mpegts_reader.Hls.Lines.{IsLine, IsAmple, text, media}
use mpegts_reader.Hls.Media.{Medium, number_media, written_over}
use mpegts_reader.Hls.Numbered.{hls_update-hls_fix_discontinuity}
use mpegts_reader.Hls.Below.{hls_update-playlist_init}
use mpegts_reader.Examples.{
  zero_segment, zero_pes, zero_memory, zeros, zeros-IsPayload, with_pcr, with_pcr-IsPayload,
  padding, list_dlist, list_dlist-IsDlist,
}

-- A packet with a PCR, and one without an adaptation field.
abbrev pcr_packet : Packet
pcr_packet = record { byte0 = ts_sync; byte1 = 0x41; byte2 = 0; byte3 = 0x35; body = with_pcr }

abbrev bare_packet : Packet
bare_packet = record { byte0 = ts_sync; byte1 = 0x41; byte2 = 0; byte3 = 0x15; body = zeros }

pcr_packet-IsStable : IsStable pcr_packet
pcr_packet-IsStable = record {
  start = record { sync = refl; byte1 = omega arith; byte2 = omega arith; byte3 = omega arith };
  clear = omega arith;
  body = with_pcr-IsPayload;
  adaptation = inr (
    omega arith,
    record {
      len = 7;
      flags = 0x10;
      b0 = 0;
      b1 = 0;
      b2 = 0;
      b3 = 2;
      b4 = 0;
      b5 = 9;
      more = padding;
      is = refl;
      low = omega arith;
      high = omega arith;
      open_data = refl;
      pcr = λ set. record { base = omega arith; ext = omega arith; agree = refl };
    },
  );
}

bare_packet-IsStable : IsStable bare_packet
bare_packet-IsStable = record {
  start = record { sync = refl; byte1 = omega arith; byte2 = omega arith; byte3 = omega arith };
  clear = omega arith;
  body = zeros-IsPayload;
  adaptation = inl (omega arith);
}

zero_memory-IsBlank : IsBlank zero_memory
zero_memory-IsBlank = record {
  segment = λ k. (zero_segment, refl, refl, refl, refl);
  pes_header = λ k. (zero_pes, refl);
}

abbrev packets : List Packet
packets = pcr_packet ∷ bare_packet ∷ []

packets-IsStable : All IsStable packets
packets-IsStable = (pcr_packet-IsStable, (bare_packet-IsStable, tt))

-- The paths "3" and "4", and that of the playlist.
abbrev path3 : List ℕ
path3 = 51 ∷ []

abbrev path4 : List ℕ
path4 = 52 ∷ []

abbrev playlist_path : List ℕ
playlist_path = 112 ∷ []

abbrev playlist_lines : List (List ℕ)
playlist_lines = (35 ∷ []) ∷ path3 ∷ path4 ∷ []

abbrev files : List ℕ → Option (List ℕ)
files [] = none
files (b ∷ bs) = elim (b == 112) [
  | true ↦ some (text playlist_lines)
  | false ↦ some (file_of packets)
]

abbrev machine : Machine
machine = record { file = files; usable = λ n. some (n + 1); stream_memory = λ k. some zero_memory }

abbrev unread : Stream (List Segment)
unread = record { segment_list = []; url = some path3 }

stream_write-update_cc_example :
    (read written : Stream (List Segment)) × (read_segment list_dlist files zero_memory unread
      ≡ done read)
    × (stream_write list_dlist (some (file_of packets)) (update_cc list_dlist read 0x100 15).0
        ≡ done (written, some (file_of (number_packets 0x100 15 packets))))
    × ((update_cc list_dlist read 0x100 15).1 ≡ (15 + count_packets 0x100 packets) % 16)
stream_write-update_cc_example =
    stream_write-update_cc list_dlist list_dlist-IsDlist zero_memory files unread path3 packets
      0x100 15 zero_memory-IsBlank refl refl packets-IsStable (omega arith)

stream_write-fix_keyframe_example :
    (read written : Stream (List Segment)) × (read_segment list_dlist files zero_memory unread
      ≡ done read)
    × (stream_write list_dlist (some (file_of packets)) (fix_keyframe list_dlist read 0x100)
        ≡ done (written, some (file_of (map (mark_packet 0x100) packets))))
stream_write-fix_keyframe_example =
    stream_write-fix_keyframe list_dlist list_dlist-IsDlist zero_memory files unread path3 packets
      0x100 zero_memory-IsBlank refl refl packets-IsStable

abbrev medium3 : Medium
medium3 = record { path = path3; packets = packets }

abbrev medium4 : Medium
medium4 = record { path = path4; packets = packets }

machine-IsAmple : IsAmple list_dlist list_dlist machine (λ k. zero_memory)
machine-IsAmple = record { stream_memory = λ k. refl; usable = λ n. (n + 1, refl, omega arith) }

one-IsLine : (b : ℕ) → (b == 10) ≡ false → (b == 0) ≡ false → IsLine (b ∷ [])
one-IsLine b h h' = record {
  bytes = ((λ e. ground (arith, e, h, h'), λ e. ground (arith, e, h, h')), tt);
  short = omega arith;
}

hls_update-hls_fix_discontinuity_example :
    (playlist parsed updated : Playlist (List (Stream (List Segment)))) × (playlist_init list_dlist
        list_dlist machine.usable none playlist_path
      ≡ done (playlist, none))
    × (hls_parse list_dlist list_dlist machine playlist ≡ done parsed)
    × (playlist_size list_dlist list_dlist parsed ≡ 2)
    × (hls_update list_dlist list_dlist files
          (hls_fix_discontinuity list_dlist list_dlist parsed (0x100 ∷ []) 1)
        ≡ done (updated, written_over (number_media 0 (medium3 ∷ medium4 ∷ [])) files))
unfolding media
hls_update-hls_fix_discontinuity_example =
    hls_update-hls_fix_discontinuity list_dlist list_dlist-IsDlist list_dlist machine
      (λ k. zero_memory) list_dlist-IsDlist machine-IsAmple (λ k. zero_memory-IsBlank) playlist_path
      playlist_lines (medium3 ∷ medium4 ∷ []) (0x100 ∷ []) 1 refl
      (one-IsLine 35 refl refl, (one-IsLine 51 refl refl, (one-IsLine 52 refl refl, tt))) refl
      (
        record { held = refl; stable = packets-IsStable },
        (record { held = refl; stable = packets-IsStable }, tt),
      )
      (omega arith)

-- A parent without nodes, and a playlist below it.
abbrev parent : Playlist (List (Stream (List Segment)))
parent = record { sublist = []; url = some path3 }

abbrev child : Playlist (List (Stream (List Segment)))
child = record { sublist = []; url = some playlist_path }

abbrev longer : Playlist (List (Stream (List Segment)))
longer = record parent { sublist = record { segment_list = []; url = some playlist_path } ∷ [] }

hls_update-playlist_init_example :
    (playlist_size list_dlist list_dlist longer ≡ playlist_size list_dlist list_dlist parent + 1)
    × (last : Playlist (List (Stream (List Segment)))) × (after : List ℕ → Option (List ℕ))
    × (hls_update list_dlist list_dlist files longer ≡ done (last, after))
    × ((at : List ℕ) → after at ≡ files at)
unfolding playlist_init hls_update copy_url
hls_update-playlist_init_example =
    hls_update-playlist_init list_dlist list_dlist-IsDlist list_dlist list_dlist-IsDlist
      (λ n. some (n + 1)) files files parent child longer parent playlist_path refl refl
