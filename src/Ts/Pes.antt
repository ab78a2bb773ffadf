-- ===== src/Ts/Pes.antt =====
-- `parse_pes_header` and `write_pes_header` of mpegts_parser.c.
pub mod Parse
pub mod Behind
use mpegts_reader.Common.{ℕ, ◌+◌, bit_and, bit_or, ◌==◌, if◌then◌else◌, List, Option, none, some}
use mpegts_reader.Common.Words.{◌<<◌, ◌>>◌, u8, u16}
use mpegts_reader.Common.Outcome.{Outcome, done, checked, ◌>>=◌}
use mpegts_reader.Ts.{PesHeader, Segment, field}
use mpegts_reader.Ts.Array.{load, store}
use mpegts_reader.Ts.Pts.{get_pes_pts}
use mpegts_reader.Ts.Adaptation.{has_bits}

-- PTS_MASK, DTS_MASK, PTS_ONLY_MASK
abbrev pub pts_mask : ℕ
pts_mask = 0b00110001

abbrev pub dts_mask : ℕ
dts_mask = 0b00010001

abbrev pub pts_only_mask : ℕ
pts_only_mask = 0b00100001

-- The switch on `pts_ind`, for each of the two stamps; `old` is what the field holds.
unfoldable pub read_pts : ℕ → List ℕ → ℕ → ℕ → Outcome ℕ
read_pts pts_ind payload i old =
    if pts_ind == 2
    then get_pes_pts pts_only_mask payload i
    else (if pts_ind == 3 then get_pes_pts pts_mask payload i else done old)

unfoldable pub read_dts : ℕ → List ℕ → ℕ → ℕ → Outcome ℕ
read_dts pts_ind payload i old = if pts_ind == 3 then get_pes_pts dts_mask payload i else done old

abbrev pub pts_ind_of : ℕ → ℕ
pts_ind_of d7 = field 2 (bit_and d7 0xC0 >> 6)

-- The header with the fields that are read from its bytes 6, 7 and 8, and the two stamps.
abbrev pub optional_header_of : PesHeader → (d6 d7 d8 pts dts : ℕ) → PesHeader
optional_header_of pes_header d6 d7 d8 pts dts = record pes_header {
  scramble = field 2 (bit_and d6 0x30 >> 4);
  priority = has_bits d6 0x8;
  align_ind = has_bits d6 0x4;
  cp_right = has_bits d6 0x2;
  original = has_bits d6 0x1;
  pts_ind = pts_ind_of d7;
  pes_header_len = d8;
  pts = pts;
  dts = dts;
}

-- What follows the length, where that is not 0.
unfoldable pub read_optional_header : PesHeader → List ℕ → ℕ → Outcome (PesHeader × ℕ)
unfolding read_pts read_dts
read_optional_header pes_header payload c = do
  d6 ← load payload (c + 6)
  d7 ← load payload (c + 7)
  d8 ← load payload (c + 8)
  pts ← read_pts (pts_ind_of d7) payload (c + 9) pes_header.pts
  dts ← read_dts (pts_ind_of d7) payload (c + 14) pes_header.dts
  done (optional_header_of pes_header d6 d7 d8 pts dts, c + 9 + d8)

-- What follows the start code: `malloc` gave `memory`, with whatever it holds, or NULL.
unfoldable pub read_pes_header : Option PesHeader → List ℕ → ℕ → Outcome (PesHeader × ℕ)
unfolding read_optional_header
read_pes_header memory payload c = do
  pes_header ← checked memory
  stream_id ← load payload (c + 3)
  d4 ← load payload (c + 4)
  d5 ← load payload (c + 5)
  let len = u16 (bit_or (d4 << 8) d5)
  let pes_header = record pes_header { stream_id = stream_id; len = len }
  if len == 0 then done (pes_header, c + 6) else read_optional_header pes_header payload c

-- `parse_pes_header(&payload[c], segment)`: the segment, and the index of the pointer returned.
unfoldable pub parse_pes_header : Option PesHeader → Segment → ℕ → Outcome (Segment × ℕ)
unfolding read_pes_header
parse_pes_header memory segment c = do
  let payload = segment.payload
  d0 ← load payload c
  d1 ← load payload (c + 1)
  d2 ← load payload (c + 2)
  if bit_or (bit_or (d0 << 16) (d1 << 8)) d2 == 1
      then (do
        (pes_header, next) ← read_pes_header memory payload c
        done (record segment { pes_header = some pes_header }, next))
      else done (record segment { pes_header = none }, c)

-- `write_pes_header(segment, &payload[c])`
unfoldable pub write_pes_header : Segment → ℕ → Outcome (Segment × ℕ)
write_pes_header segment c = elim segment.pes_header [
  | none ↦ done (segment, c)
  | some header ↦ do
    wb ← store segment.payload (c + 2) 1
    wb ← store wb (c + 3) header.stream_id
    wb ← store wb (c + 4) (u8 (header.len >> 8))
    wb ← store wb (c + 5) (bit_and header.len 0xff)
    done (record segment { payload = wb }, c + 6 + header.pes_header_len)
]
