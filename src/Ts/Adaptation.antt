-- ===== src/Ts/Adaptation.antt =====
-- `parse_adaptation_field` and `write_adaptation_field` of mpegts_parser.c. A cursor is an index into
-- the payload.
pub mod Parse
use mpegts_reader.Common.{ℕ, ◌+◌, Bool, bit_and, bit_or, ◌==◌, ◌||◌, if◌then◌else◌, List}
use mpegts_reader.Common.Words.{u8}
use mpegts_reader.Common.Outcome.{Outcome, done, ◌>>=◌}
use mpegts_reader.Ts.{AdaptField, Segment, field}
use mpegts_reader.Ts.Array.{load, store}
use mpegts_reader.Ts.Pcr.{parse_pcr, write_pcr}

-- `(*data & m) == m`
abbrev pub has_bits : ℕ → ℕ → Bool
has_bits b m = bit_and b m == m

-- `if (flag) data = parse_pcr(data, &old);`: the field's value, and where `data` points then.
unfoldable pub optional_pcr : Bool → List ℕ → ℕ → ℕ → Outcome (ℕ × ℕ)
optional_pcr flag payload i old = if flag then parse_pcr payload i else done (old, i)

-- `if (flag) old = *data++;`
unfoldable pub optional_byte : Bool → List ℕ → ℕ → ℕ → Outcome (ℕ × ℕ)
optional_byte flag payload i old =
    if flag then (do b ← load payload i; done (b, i + 1)) else done (old, i)

-- The fields of `dest` as the parser sets them, all thirteen.
abbrev pub adaptation_of : (len flags pcr opcr splice_count priv_len : ℕ) → AdaptField
adaptation_of len flags pcr opcr splice_count priv_len = record {
  len = field 8 len;
  discontinuity = has_bits flags 0x80;
  rand_acc = has_bits flags 0x40;
  prior = has_bits flags 0x20;
  has_pcr = has_bits flags 0x10;
  has_opcr = has_bits flags 0x08;
  has_splic = has_bits flags 0x04;
  has_private = has_bits flags 0x02;
  ad_ext = has_bits flags 0x01;
  pcr = pcr;
  opcr = opcr;
  splice_count = splice_count;
  priv_len = priv_len;
}

-- The cases 2 and 3 of the switch: the new `*dest`, and the cursor `next`.
unfoldable pub read_adaptation : List ℕ → AdaptField → Outcome (AdaptField × ℕ)
unfolding optional_pcr optional_byte
read_adaptation payload dest = do
  len ← load payload 0
  flags ← load payload 1
  (pcr, at) ← optional_pcr (has_bits flags 0x10) payload 2 dest.pcr
  (opcr, at) ← optional_pcr (has_bits flags 0x08) payload at dest.opcr
  (splice_count, at) ← optional_byte (has_bits flags 0x04) payload at dest.splice_count
  (priv_len, at) ← optional_byte (has_bits flags 0x02) payload at dest.priv_len
  done (adaptation_of len flags pcr opcr splice_count priv_len, 1 + field 8 len)

-- `parse_adaptation_field`: the segment, and the cursor `next`.
unfoldable pub parse_adaptation_field : Segment → Outcome (Segment × ℕ)
parse_adaptation_field segment =
    let ctrl = segment.header.adaptation_field_ctrl in
    if ctrl == 2 || ctrl == 3
    then (do
      (dest, next) ← read_adaptation segment.payload segment.adaptation_field
      done (record segment { adaptation_field = dest }, next))
    else done (segment, 0)

-- `wb[1] |= 0x40`
unfoldable pub mark_rand_acc : Bool → List ℕ → Outcome (List ℕ)
mark_rand_acc rand_acc wb =
    if rand_acc then (do b ← load wb 1; store wb 1 (u8 (bit_or b 0x40))) else done wb

unfoldable pub mark_pcr : Bool → ℕ → List ℕ → Outcome (List ℕ)
mark_pcr has_pcr pcr wb = if has_pcr then write_pcr wb 2 pcr else done wb

-- The cursor that `write_adaptation_field` returns.
unfoldable pub write_cursor : Segment → ℕ
write_cursor segment =
    let adp = segment.adaptation_field in
    if bit_and segment.header.adaptation_field_ctrl 0x2 == 0
    then 0
    else (if adp.len == 0 then 0 else adp.len + 1 + adp.priv_len)

-- `write_adaptation_field(segment, segment->payload)`
unfoldable pub write_adaptation_field : Segment → Outcome (Segment × ℕ)
unfolding mark_rand_acc mark_pcr write_cursor
write_adaptation_field segment = do
  let adp = segment.adaptation_field
  wb ← mark_rand_acc adp.rand_acc segment.payload
  wb ← mark_pcr adp.has_pcr adp.pcr wb
  done (record segment { payload = wb }, write_cursor segment)
