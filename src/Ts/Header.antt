-- ===== src/Ts/Header.antt =====
-- `parse_header` and `write_header` of mpegts_parser.c: the four bytes in front of every packet, as
-- the 32-bit word that a little-endian machine reads.
pub mod RoundTrip
pub mod Value
use mpegts_reader.Common.{ℕ, ◌≡◌, Bool, true, false, bit_and, bit_or, ◌==◌, if◌then◌else◌}
use mpegts_reader.Common.Words.{◌<<◌, ◌>>◌}
use mpegts_reader.Common.Outcome.{Outcome, done, exited}
use mpegts_reader.Ts.{TsHeader, Segment, field}

-- TS_SYNC
abbrev pub ts_sync : ℕ
ts_sync = 0x47

-- EINVAL
abbrev pub einval : ℕ
einval = 22

-- `parse_header`. The packet is `segment`; LOG_ERR ends the program, since the Makefile defines
-- MAJOR, so the `return FALSE` behind it is never reached.
unfoldable pub parse_header : ℕ → Segment → Outcome Segment
parse_header v segment =
    let sync = bit_and v 0xff in
    if sync == ts_sync
    then (let v1 = v >> 8 in
        let v2 = v1 >> 8 in
        let v3 = v2 >> 8 in
        let pid_high = field 13 (bit_and v1 0x1f) in
        let pid_shifted = field 13 (pid_high << 8) in
        let header = segment.header in
        done (record segment {
          header = record header {
            sync = field 8 sync;
            pid = field 13 (bit_or pid_shifted (bit_and v2 0xff));
            tei = bit_and v1 0x80 == 0x80;
            pusi = bit_and v1 0x40 == 0x40;
            prior = bit_and v1 0x20 == 0x20;
            tscramble_control = field 2 (bit_and v3 0xc0 >> 4);
            adaptation_field_ctrl = field 2 (bit_and v3 0x30 >> 4);
            continuity_counter = field 4 (bit_and v3 0xf);
          };
        }))
    else exited einval

-- The statements of `write_header` in their order.
unfoldable pub write_header : Segment → ℕ
write_header segment =
    let header = segment.header in
    let fields =
      bit_or
        (bit_or (bit_and (header.tscramble_control << 4) 0xC0)
          (bit_and (header.adaptation_field_ctrl << 4) 0x30))
        (bit_and header.continuity_counter 0xF) in
    let with_pid_low = bit_or (fields << 8) (bit_and header.pid 0xFF) in
    let with_pid = bit_or (with_pid_low << 8) (bit_and (header.pid >> 8) 0x1F) in
    let with_tei = bit_or with_pid (if header.tei then 0x80 else 0) in
    let with_pusi = bit_or with_tei (if header.pusi then 0x40 else 0) in
    let with_prior = bit_or with_pusi (if header.prior then 0x20 else 0) in
    bit_or (with_prior << 8) ts_sync
