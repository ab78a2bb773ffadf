-- ===== src/Ts/Pcr.antt =====
-- `parse_pcr` and `write_pcr` of mpegts_parser.c: the six bytes of a program clock reference.
pub mod Read
pub mod Rewrite
use mpegts_reader.Common.{ℕ, ◌+◌, ◌*◌, ◌/◌, ◌%◌, bit_and, bit_or, List}
use mpegts_reader.Common.Words.{◌<<◌, ◌>>◌, u8, u64, int_to_u64}
use mpegts_reader.Common.Outcome.{Outcome, done, ◌>>=◌}
use mpegts_reader.Ts.Array.{load, store}

-- The shifts of the base are done in `int`, whose value is then extended to 64 bits.
unfoldable pub pcr_base : ℕ → ℕ → ℕ → ℕ → ℕ → ℕ
pcr_base b0 b1 b2 b3 b4 =
    int_to_u64 (
      bit_or (bit_or (bit_or (bit_or (b0 << 25) (b1 << 17)) (b2 << 9)) (b3 << 1)) (bit_and b4 0x80))

unfoldable pub pcr_ext : ℕ → ℕ → ℕ
pcr_ext b4 b5 = bit_or (bit_and b4 1 << 8) b5

abbrev pub pcr_value : ℕ → ℕ → ℕ → ℕ → ℕ → ℕ → ℕ
pcr_value b0 b1 b2 b3 b4 b5 = u64 (300 * pcr_base b0 b1 b2 b3 b4 + pcr_ext b4 b5)

-- `parse_pcr` at the index `i` of `bytes`: the value stored, and the index behind the six bytes.
unfoldable pub parse_pcr : List ℕ → ℕ → Outcome (ℕ × ℕ)
parse_pcr bytes i = do
  b0 ← load bytes i
  b1 ← load bytes (i + 1)
  b2 ← load bytes (i + 2)
  b3 ← load bytes (i + 3)
  b4 ← load bytes (i + 4)
  b5 ← load bytes (i + 5)
  done (pcr_value b0 b1 b2 b3 b4 b5, i + 6)

-- `write_pcr` at the index `i` of `bytes`. Its result, which the function never returns and no caller
-- reads, is left out.
unfoldable pub write_pcr : List ℕ → ℕ → ℕ → Outcome (List ℕ)
write_pcr bytes i pcr = do
  let base = pcr / 300
  let ext = pcr % 300
  bytes ← store bytes i (u8 (base >> 25))
  bytes ← store bytes (i + 1) (u8 (base >> 17))
  bytes ← store bytes (i + 2) (u8 (base >> 9))
  bytes ← store bytes (i + 3) (u8 (base >> 1))
  b4 ← load bytes (i + 4)
  bytes ← store bytes (i + 4) (u8 (bit_or b4 (bit_and base 0x80)))
  b4 ← load bytes (i + 4)
  bytes ← store bytes (i + 4) (u8 (bit_or b4 (bit_and (ext >> 8) 1)))
  store bytes (i + 5) (u8 ext)
