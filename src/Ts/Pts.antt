-- ===== src/Ts/Pts.antt =====
-- `get_pes_pts` of mpegts_parser.c: a time stamp of 33 bits in five bytes with a marker.
pub mod Decode
use mpegts_reader.Common.{ℕ, ◌+◌, ◌*◌, ◌/◌, ◌%◌, bit_and, bit_or, ◌==◌, if◌then◌else◌, List}
use mpegts_reader.Common.Words.{◌<<◌, ◌>>◌, u64, int_to_u64}
use mpegts_reader.Common.Outcome.{Outcome, done, ◌>>=◌}
use mpegts_reader.Ts.Array.{load}

-- The statements under the marker's test; `src` is read up to its fifth byte.
unfoldable pub pts_value : ℕ → ℕ → ℕ → ℕ → ℕ → ℕ
pts_value s0 s1 s2 s3 s4 =
    let v = int_to_u64 (bit_and s0 0x0F >> 1 << 30) in
    let v = u64 (v + int_to_u64 (bit_or (s1 << 7) (s2 >> 1) << 15)) in
    u64 (v + int_to_u64 (bit_or (s3 << 7) (s4 >> 1)))

-- `get_pes_pts` on `&bytes[i]`.
unfoldable pub get_pes_pts : ℕ → List ℕ → ℕ → Outcome ℕ
get_pes_pts marker bytes i = do
  s0 ← load bytes i
  if bit_and s0 marker == marker
      then (do
        s1 ← load bytes (i + 1)
        s2 ← load bytes (i + 2)
        s3 ← load bytes (i + 3)
        s4 ← load bytes (i + 4)
        done (pts_value s0 s1 s2 s3 s4))
      else done 0
