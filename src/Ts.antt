-- ===== src/Ts.antt =====
-- The data of mpegts_parser.h: one transport stream packet, parsed. A bit field of one bit is a
-- Bool, a wider field its value; `payload` is the array of 184 bytes, and a pointer into it is an
-- index. The links `ln` of a segment belong to the list library, and no code of the program uses
-- `payload_parser`.
pub mod Adaptation
pub mod Array
pub mod Header
pub mod Packet
pub mod Pcr
pub mod Pes
pub mod Pts
use mpegts_reader.Common.{ℕ, ◌<◌, ◌≡◌, Bool, Option, List, length, All, ◌%◌, ◌^◌}
use mpegts_reader.Common.Words.{IsByte}

-- `ts_header_t`
pub record TsHeader : Type 0 where
  pub sync : ℕ
  pub tei : Bool
  pub pusi : Bool
  pub prior : Bool
  pub pid : ℕ
  pub tscramble_control : ℕ
  pub adaptation_field_ctrl : ℕ
  pub continuity_counter : ℕ

-- `ts_adapt_field_t`
pub record AdaptField : Type 0 where
  pub len : ℕ
  pub discontinuity : Bool
  pub rand_acc : Bool
  pub prior : Bool
  pub has_pcr : Bool
  pub has_opcr : Bool
  pub has_splic : Bool
  pub has_private : Bool
  pub ad_ext : Bool
  pub pcr : ℕ
  pub opcr : ℕ
  pub splice_count : ℕ
  pub priv_len : ℕ

-- `pes_header_t`
pub record PesHeader : Type 0 where
  pub stream_id : ℕ
  pub len : ℕ
  pub scramble : ℕ
  pub priority : Bool
  pub align_ind : Bool
  pub cp_right : Bool
  pub original : Bool
  pub pts_ind : ℕ
  pub escr : Bool
  pub es : Bool
  pub dsm_trick : Bool
  pub additional_cp_info : Bool
  pub crc : Bool
  pub ext : Bool
  pub pes_header_len : ℕ
  pub pts : ℕ
  pub dts : ℕ

-- `struct mpegts_segment`; `pes_header` is `none` for NULL.
pub record Segment : Type 0 where
  pub header : TsHeader
  pub adaptation_field : AdaptField
  pub payload : List ℕ
  pub pes_header : Option PesHeader
  pub payload_start : ℕ

-- sizeof(segment->payload)
abbrev pub payload_size : ℕ
payload_size = 184

-- What an assignment to a bit field of `w` bits keeps.
abbrev pub field : ℕ → ℕ → ℕ
field w x = x % 2 ^ w

-- The payload array has its size, and holds bytes.
pub record IsPayload (payload : List ℕ) : Type 0 where
  pub size : length payload ≡ payload_size
  pub bytes : All IsByte payload
