-- ===== src/Examples/Packets.antt =====
-- The theorems of Ts on concrete packets.
use mpegts_reader.Common.{
  ℕ, ◌+◌, ◌*◌, ◌/◌, ◌%◌, ◌^◌, ◌<◌, ◌≡◌, ◌≢◌, ◌↔◌, ◌⊎◌, refl, true, [], ◌∷◌, ◌++◌, replicate,
  All-replicate, Option, some, arith,
}
use mpegts_reader.Common.Outcome.{done, exited, fault}
use mpegts_reader.Common.Words.{IsByte}
use mpegts_reader.Ts.{Segment, PesHeader}
use mpegts_reader.Ts.Header.{parse_header, write_header, ts_sync, einval}
use mpegts_reader.Ts.Header.Value.{IsHeader, header_of}
use mpegts_reader.Ts.Header.RoundTrip.{
  parse_header-write_header, write_header-parse_header, parse_header_cases,
}
use mpegts_reader.Ts.Pcr.{pcr_value, write_pcr}
use mpegts_reader.Ts.Pcr.Read.{standard_pcr, pcr_value-standard_iff}
use mpegts_reader.Ts.Pcr.Rewrite.{write_pcr-parse_pcr_iff}
use mpegts_reader.Ts.Pts.{get_pes_pts}
use mpegts_reader.Ts.Pts.Decode.{encode_pts, get_pes_pts-encode_pts_iff}
use mpegts_reader.Ts.Pes.{parse_pes_header, write_pes_header}
use mpegts_reader.Ts.Pes.Parse.{parse_pes_header_lem}
use mpegts_reader.Ts.Packet.{parse_ts_segment, write_ts_segment}
use mpegts_reader.Ts.Packet.Parse.{IsStart, start_word}
use mpegts_reader.Ts.Packet.Bounds.{parse_ts_segment_beyond, parse_ts_segment_reads}
use mpegts_reader.Ts.Packet.RoundTrip.{write_ts_segment-parse_ts_segment_field}
use mpegts_reader.Examples.{
  zero_segment, zero_pes, zeros, zeros-IsPayload, padding, with_pcr, with_pcr-IsPayload,
  counted_segment,
}

abbrev synced : Segment
synced = record zero_segment { header = record (counted_segment 5).header { sync = ts_sync } }

parse_header-write_header_example :
    parse_header (write_header synced) zero_segment
    ≡ done (record zero_segment { header = record synced.header { tscramble_control = 0 } })
parse_header-write_header_example =
    parse_header-write_header synced zero_segment
      (record {
        pid = omega arith;
        tscramble_control = omega arith;
        adaptation_field_ctrl = omega arith;
        continuity_counter = omega arith;
      })
      refl

write_header-parse_header_example :
    (t : Segment) × (parse_header 0x10004147 zero_segment ≡ done t)
    × (write_header t ≡ 0x10004147 % 2 ^ 30)
write_header-parse_header_example =
    write_header-parse_header 0x10004147 zero_segment (omega arith) refl

parse_header_cases_example :
    ((0x10004148 % 256 ≢ ts_sync) × (parse_header 0x10004148 zero_segment ≡ exited einval))
    ⊎ ((0x10004148 % 256 ≡ ts_sync)
        × (t : Segment) × (parse_header 0x10004148 zero_segment ≡ done t)
        × IsHeader t.header
        × (t.header.tscramble_control ≡ 0)
        × (t.payload ≡ zero_segment.payload))
parse_header_cases_example = parse_header_cases 0x10004148 zero_segment

pcr_value-standard_iff_example :
    (pcr_value 1 2 3 4 5 6 ≡ standard_pcr 1 2 3 4 5 6) ↔ ((1 < 64) × (5 < 128))
pcr_value-standard_iff_example =
    pcr_value-standard_iff 1 2 3 4 5 6 (omega arith) (omega arith) (omega arith) (omega arith)
      (omega arith) (omega arith)

write_pcr-parse_pcr_iff_example :
    (write_pcr (7 ∷ 16 ∷ 1 ∷ 2 ∷ 3 ∷ 64 ∷ 0 ∷ 6 ∷ []) 2 (pcr_value 1 2 3 64 0 6)
      ≡ done (7 ∷ 16 ∷ 1 ∷ 2 ∷ 3 ∷ 64 ∷ 0 ∷ 6 ∷ []))
    ↔ (64 / 64 % 2 ≡ 0 / 128)
write_pcr-parse_pcr_iff_example =
    write_pcr-parse_pcr_iff 1 2 3 64 0 6 (omega arith) (omega arith) (omega arith) (omega arith)
      (omega arith) (omega arith) (omega arith) 7 16 []

get_pes_pts-encode_pts_iff_example :
    (get_pes_pts (2 * 16 + 1) ((9 ∷ 8 ∷ []) ++ encode_pts 2 900000 []) 2 ≡ done 900000)
    ↔ (900000 < 2 ^ 31)
get_pes_pts-encode_pts_iff_example =
    get_pes_pts-encode_pts_iff 2 900000 (omega arith) (omega arith) (9 ∷ 8 ∷ []) []

parse_pes_header_lem_example :
    (header : Option PesHeader) × (n : ℕ) × (m : ℕ) × (parse_pes_header
        (some zero_pes)
        (record zero_segment { payload = zeros })
        4
      ≡ done (record zero_segment { payload = zeros; pes_header = header }, n))
    × (write_pes_header (record zero_segment { payload = zeros; pes_header = header }) 4
        ≡ done (record zero_segment { payload = zeros; pes_header = header }, m))
parse_pes_header_lem_example =
    parse_pes_header_lem zero_pes (record zero_segment { payload = zeros }) 4 zeros-IsPayload
      (omega arith)

-- The first four bytes of a packet, by the fourth.
start : (b : ℕ) → b < 256 → IsStart ts_sync 0x41 0 b
start b h = record { sync = refl; byte1 = omega arith; byte2 = omega arith; byte3 = h }

parse_ts_segment_reads_example :
    (t : Segment) × (parse_ts_segment
        (some zero_pes)
        (0x47 ∷ 0x41 ∷ 0 ∷ 0x30 ∷ (with_pcr ++ []))
        zero_segment
      ≡ done (true, [], t))
    × (t.header ≡ header_of (start_word 0x47 0x41 0 0x30))
    × (t.payload ≡ with_pcr)
parse_ts_segment_reads_example =
    parse_ts_segment_reads (start 0x30 (omega arith)) with_pcr [] with_pcr-IsPayload zero_pes
      zero_segment 7 refl (λ there. omega arith)

parse_ts_segment_beyond_example :
    parse_ts_segment
      (some zero_pes)
      (0x47 ∷ 0x41 ∷ 0 ∷ 0x20 ∷ ((183 ∷ replicate 183 0xff) ++ []))
      zero_segment
    ≡ fault
parse_ts_segment_beyond_example =
    parse_ts_segment_beyond (start 0x20 (omega arith)) (183 ∷ replicate 183 0xff) []
      (record { size = refl; bytes = (omega arith, All-replicate IsByte 183 0xff (omega arith)) })
      (some zero_pes) zero_segment 183 (omega arith) refl (omega arith)

write_ts_segment-parse_ts_segment_field_example :
    (t : Segment) × (parse_ts_segment
        (some zero_pes)
        (0x47 ∷ 0x41 ∷ 0 ∷ 0x30 ∷ (with_pcr ++ []))
        zero_segment
      ≡ done (true, [], t))
    × (write_ts_segment t ≡ done (t, 0x47 ∷ 0x41 ∷ 0 ∷ 0x30 ∷ with_pcr))
write_ts_segment-parse_ts_segment_field_example =
    write_ts_segment-parse_ts_segment_field (start 0x30 (omega arith)) (omega arith) zero_pes 7 0x10
      0 0 0 2 0 9 padding [] zero_segment with_pcr-IsPayload (omega arith) (omega arith)
      (omega arith) refl refl
      (λ set. record { base = omega arith; ext = omega arith; agree = refl })
