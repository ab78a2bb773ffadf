-- ===== src/Examples.antt =====
-- Concrete packets, memory and lists, on which the theorems are applied.
mod Packets
mod Streams
mod Numbered
mod Queues
mod Players
mod Commands
use mpegts_reader.Common.{
  ℕ, zero, suc, ◌≡◌, ◌↔◌, refl, ap, Bool, true, false, List, [], ◌∷◌, ◌++◌, length, replicate, All,
  All-replicate, Option, none, some, arith,
}
use mpegts_reader.Common.Words.{IsByte}
use mpegts_reader.Dlist.{Dlist, IsDlist}
use mpegts_reader.Ts.{TsHeader, AdaptField, PesHeader, Segment, IsPayload}
use mpegts_reader.Stream.{Memory}

-- Memory that is all zero.
abbrev pub zero_header : TsHeader
zero_header = record {
  sync = 0;
  tei = false;
  pusi = false;
  prior = false;
  pid = 0;
  tscramble_control = 0;
  adaptation_field_ctrl = 0;
  continuity_counter = 0;
}

abbrev pub zero_field : AdaptField
zero_field = record {
  len = 0;
  discontinuity = false;
  rand_acc = false;
  prior = false;
  has_pcr = false;
  has_opcr = false;
  has_splic = false;
  has_private = false;
  ad_ext = false;
  pcr = 0;
  opcr = 0;
  splice_count = 0;
  priv_len = 0;
}

abbrev pub zero_pes : PesHeader
zero_pes = record {
  stream_id = 0;
  len = 0;
  scramble = 0;
  priority = false;
  align_ind = false;
  cp_right = false;
  original = false;
  pts_ind = 0;
  escr = false;
  es = false;
  dsm_trick = false;
  additional_cp_info = false;
  crc = false;
  ext = false;
  pes_header_len = 0;
  pts = 0;
  dts = 0;
}

abbrev pub zero_segment : Segment
zero_segment = record {
  header = zero_header;
  adaptation_field = zero_field;
  payload = [];
  pes_header = none;
  payload_start = 0;
}

abbrev pub zero_memory : Memory
zero_memory = record { segment = λ k. some zero_segment; pes_header = λ k. some zero_pes }

-- A segment of the PID that `hls_fix_discontinuity` numbers, with a counter.
abbrev pub counted_segment : ℕ → Segment
counted_segment cc = record zero_segment {
  header = record zero_header { pid = 0x100; continuity_counter = cc };
}

-- A payload of zeros, and one that starts with an adaptation field with a PCR.
abbrev pub zeros : List ℕ
zeros = replicate 184 0

pub zeros-IsPayload : IsPayload zeros
zeros-IsPayload = record { size = refl; bytes = All-replicate IsByte 184 0 (omega arith) }

abbrev pub padding : List ℕ
padding = replicate 176 0

abbrev pub with_pcr : List ℕ
with_pcr = 7 ∷ 0x10 ∷ 0 ∷ 0 ∷ 0 ∷ 2 ∷ 0 ∷ 9 ∷ padding

pub with_pcr-IsPayload : IsPayload with_pcr
with_pcr-IsPayload = record {
  size = refl;
  bytes = (
    omega arith,
    (
      omega arith,
      (
        omega arith,
        (
          omega arith,
          (
            omega arith,
            (omega arith, (omega arith, (omega arith, All-replicate IsByte 176 0 (omega arith)))),
          ),
        ),
      ),
    ),
  );
}

-- A list as an entry of the list library.
module _ {A : Type 0} where
  abbrev no_nodes : List A → Bool
  no_nodes [] = true
  no_nodes (a ∷ xs) = false

  abbrev first_node : List A → Option (A × List A)
  first_node [] = none
  first_node (a ∷ xs) = some (a, xs)

  no_nodes_iff : (xs : List A) → (no_nodes xs ≡ true) ↔ (xs ≡ [])
  no_nodes_iff [] = (λ e. refl, λ e. refl)
  no_nodes_iff (a ∷ xs) = (λ e. cc, λ e. cc)

abbrev pub list_dlist : {A : Type 0} → Dlist (List A) A
list_dlist = record {
  entry_init = [];
  put_tail = λ xs a. xs ++ (a ∷ []);
  is_empty = no_nodes;
  dequeue = first_node;
  size = length;
  nodes = λ xs. xs;
  with_nodes = λ xs ys. ys;
}

pub list_dlist-IsDlist : {A : Type 0} → IsDlist (list_dlist {A = A})
list_dlist-IsDlist = record {
  nodes-entry_init = refl;
  nodes-put_tail = λ xs a. refl;
  is_empty_iff = no_nodes_iff;
  dequeue-cons = λ e a ys h. (ys, ap first_node h, refl);
  size-nodes = λ xs. refl;
  nodes-with_nodes = λ xs ys h. refl;
}
