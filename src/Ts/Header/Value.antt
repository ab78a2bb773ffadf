-- ===== src/Ts/Header/Value.antt =====
-- The header word as a sum of its fields.
use mpegts_reader.Common.{
  ℕ, zero, suc, ◌+◌, ◌*◌, ◌/◌, ◌%◌, ◌^◌, ◌≤◌, ◌<◌, ◌≡◌, Bool, true, false, bit_and, bit_or, arith,
  ◌==◌, if◌then◌else◌,
}
use mpegts_reader.Common.Bits.{bit_or_fields, bit_or-zero, zero-bit_or}
use mpegts_reader.Common.Bits.Masks.{
  and_0xff, and_0x1f, and_0x0f, and_0xc0, and_0x30, and_0x80, and_0x40, and_0x20, set_bit,
}
use mpegts_reader.Common.Words.{◌<<◌, ◌>>◌}
use mpegts_reader.Common.Outcome.{done}
use mpegts_reader.Ts.{TsHeader, Segment, field}
use mpegts_reader.Ts.Header.{parse_header, write_header, ts_sync}

abbrev pub bit : Bool → ℕ
bit true = 1
bit false = 0

bit_le : (b : Bool) → bit b ≤ 1
bit_le true = omega arith
bit_le false = omega arith

-- The values that the bit fields of a header can hold.
pub record IsHeader (h : TsHeader) : Type 0 where
  pub pid : h.pid < 2 ^ 13
  pub tscramble_control : h.tscramble_control < 4
  pub adaptation_field_ctrl : h.adaptation_field_ctrl < 4
  pub continuity_counter : h.continuity_counter < 16

-- The word that the fields stand for, without the scrambling bits.
abbrev pub header_word : TsHeader → ℕ
header_word h =
    ((h.adaptation_field_ctrl * 16 + h.continuity_counter) * 256 + h.pid % 256) * 65536
    + (bit h.tei * 128 + bit h.pusi * 64 + bit h.prior * 32 + h.pid / 256) * 256
    + ts_sync

fields_value :
    (t a c : ℕ)
    → t < 4
    → a < 4
    → c < 16
    → bit_or (bit_or (bit_and (t << 4) 0xC0) (bit_and (a << 4) 0x30)) (bit_and c 0xF) ≡ a * 16 + c
fields_value t a c ht ha hc =
    let p : bit_and (t << 4) 0xC0 ≡ 0 = omega (arith, and_0xc0 (t << 4)) in
    let q : bit_and (a << 4) 0x30 ≡ a * 16 = omega (arith, and_0x30 (a << 4)) in
    let r : bit_and c 0xF ≡ c = omega (arith, and_0x0f c) in
    rw (p, q, r, zero-bit_or (a * 16)) (bit_or_fields 4 a c hc)

flag_value :
    (k q r : ℕ) (b : Bool)
    → r < 2 ^ k
    → bit_or (q * 2 * 2 ^ k + r) (if b then 2 ^ k else 0) ≡ q * 2 * 2 ^ k + r + bit b * 2 ^ k
flag_value k q r true h = ground (arith, set_bit k q r h)
flag_value k q r false h = ground (arith, bit_or-zero (q * 2 * 2 ^ k + r))

flags_value :
    (x hi : ℕ) (tei pusi prior : Bool)
    → hi < 32
    → bit_or
        (bit_or (bit_or (x * 256 + hi) (if tei then 0x80 else 0)) (if pusi then 0x40 else 0))
        (if prior then 0x20 else 0)
      ≡ x * 256 + (bit tei * 128 + bit pusi * 64 + bit prior * 32 + hi)
flags_value x hi tei pusi prior h = ground (
  arith,
  flag_value 7 x hi tei,
  flag_value 6 (x * 2 + bit tei) hi pusi,
  flag_value 5 (x * 4 + bit tei * 2 + bit pusi) hi prior,
)

-- One byte shifted in below a word of at most three bytes.
shift_in : (x b : ℕ) → x < 2 ^ 24 → b < 256 → bit_or (x << 8) b ≡ x * 256 + b
shift_in x b hx hb = let e : x << 8 ≡ x * 2 ^ 8 = omega arith in rw e (bit_or_fields 8 x b hb)

-- `write_header` gives the word of the header's fields.
pub write_header-header_word :
    (s : Segment) → IsHeader s.header → write_header s ≡ header_word s.header
unfolding write_header
write_header-header_word s w =
    let h = s.header in
    let low : bit_and h.pid 0xFF ≡ h.pid % 256 = and_0xff h.pid in
    let high : bit_and (h.pid >> 8) 0x1F ≡ h.pid / 256 = omega (arith, and_0x1f (h.pid >> 8)) in
    let top : ℕ = h.adaptation_field_ctrl * 16 + h.continuity_counter in
    let flags : ℕ = bit h.tei * 128 + bit h.pusi * 64 + bit h.prior * 32 + h.pid / 256 in
    rw
      (
        fields_value h.tscramble_control h.adaptation_field_ctrl h.continuity_counter
            w.tscramble_control w.adaptation_field_ctrl w.continuity_counter,
        low,
        high,
        shift_in top (h.pid % 256) (omega arith) (omega arith),
        shift_in (top * 256 + h.pid % 256) (h.pid / 256) (omega arith) (omega arith),
        flags_value (top * 256 + h.pid % 256) (h.pid / 256) h.tei h.pusi h.prior (omega arith),
        shift_in ((top * 256 + h.pid % 256) * 256 + flags) ts_sync
            (omega (arith, bit_le h.tei, bit_le h.pusi, bit_le h.prior)) (omega arith),
      )
      (omega arith)

-- What `parse_header` stores, in plain arithmetic.
abbrev pub header_of : ℕ → TsHeader
header_of v = record {
  sync = v % 256;
  tei = v / 2 ^ 15 % 2 == 1;
  pusi = v / 2 ^ 14 % 2 == 1;
  prior = v / 2 ^ 13 % 2 == 1;
  pid = v / 2 ^ 8 % 32 * 256 + v / 2 ^ 16 % 256;
  tscramble_control = 0;
  adaptation_field_ctrl = v / 2 ^ 28 % 4;
  continuity_counter = v / 2 ^ 24 % 16;
}

flag_of : (x m d : ℕ) → bit_and x m ≡ d * m → 0 < m → d < 2 → (bit_and x m == m) ≡ (d == 1)
flag_of x m zero e h l = ground arith
flag_of x m (suc zero) e h l = ground arith
flag_of x m (suc (suc d)) e h l = absurd (omega arith)

pid_of :
    (v1 v2 : ℕ)
    → field 13 (bit_or (field 13 (field 13 (bit_and v1 0x1f) << 8)) (bit_and v2 0xff))
      ≡ v1 % 32 * 256 + v2 % 256
pid_of v1 v2 =
    let e : field 13 (field 13 (v1 % 32) << 8) ≡ v1 % 32 * 2 ^ 8 = omega arith in
    rw (and_0x1f v1, and_0xff v2, e, bit_or_fields 8 (v1 % 32) (v2 % 256) (omega arith))
      (omega arith)

-- `parse_header` reads the fields where `write_header` puts them, and loses the scrambling bits.
pub parse_header-header_of :
    (v : ℕ) (s : Segment)
    → v % 256 ≡ ts_sync
    → parse_header v s ≡ done (record s { header = header_of v })
unfolding parse_header
parse_header-header_of v s sync =
    let v1 = v >> 8 in
    let v2 = v1 >> 8 in
    let v3 = v2 >> 8 in
    let starts : (bit_and v 0xff == ts_sync) ≡ true = ground (arith, and_0xff v) in
    rw starts (
      ground (
        arith,
        and_0xff v,
        pid_of v1 v2,
        flag_of v1 0x80 (v / 2 ^ 15 % 2) (omega (arith, and_0x80 v1)) (omega arith) (omega arith),
        flag_of v1 0x40 (v / 2 ^ 14 % 2) (omega (arith, and_0x40 v1)) (omega arith) (omega arith),
        flag_of v1 0x20 (v / 2 ^ 13 % 2) (omega (arith, and_0x20 v1)) (omega arith) (omega arith),
        and_0xc0 v3,
        and_0x30 v3,
        and_0x0f v3,
      ))
