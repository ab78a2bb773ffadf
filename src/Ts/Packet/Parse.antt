-- ===== src/Ts/Packet/Parse.antt =====
-- `parse_ts_segment` on a file that holds a whole packet.
use mpegts_reader.Common.{
  ℕ, ◌+◌, ◌*◌, ◌/◌, ◌%◌, ◌≤◌, ◌<◌, ◌≡◌, refl, true, false, List, [], ◌∷◌, ◌++◌, length, take, drop,
  take-append_length, drop-append_length, arith, ◌==◌, ◌||◌, Option,
}
use mpegts_reader.Common.Outcome.{done, ◌>>=◌}
use mpegts_reader.Ts.{PesHeader, Segment, IsPayload, payload_size}
use mpegts_reader.Ts.Header.{ts_sync}
use mpegts_reader.Ts.Header.Value.{header_of, parse_header-header_of}
use mpegts_reader.Ts.Packet.{word_of_bytes, parse_body, parse_ts_segment}

-- The four bytes in front of a packet.
pub record IsStart (h0 h1 h2 h3 : ℕ) : Type 0 where
  pub sync : h0 ≡ ts_sync
  pub byte1 : h1 < 256
  pub byte2 : h2 < 256
  pub byte3 : h3 < 256

abbrev pub start_word : (h0 h1 h2 h3 : ℕ) → ℕ
start_word h0 h1 h2 h3 = h0 + 256 * (h1 + 256 * (h2 + 256 * h3))

take_payload : (body rest : List ℕ) → IsPayload body → take payload_size (body ++ rest) ≡ body
take_payload body rest p =
    let e : take (length body) (body ++ rest) ≡ body = take-append_length body rest in
    rw p.size at e

drop_payload : (body rest : List ℕ) → IsPayload body → drop payload_size (body ++ rest) ≡ rest
drop_payload body rest p =
    let e : drop (length body) (body ++ rest) ≡ rest = drop-append_length body rest in
    rw p.size at e

module _ (memory : Option PesHeader) {h0 h1 h2 h3 : ℕ} (start : IsStart h0 h1 h2 h3) where
  -- One round of the reader on a whole packet.
  pub parse_ts_segment_step :
      (body rest : List ℕ) (s : Segment)
      → IsPayload body
      → parse_ts_segment memory (h0 ∷ h1 ∷ h2 ∷ h3 ∷ (body ++ rest)) s ≡ (do
        t ← parse_body memory body (record s { header = header_of (start_word h0 h1 h2 h3) })
        done (true, rest, t))
  unfolding parse_ts_segment
  parse_ts_segment_step body rest s p =
      let word : word_of_bytes (h0 ∷ h1 ∷ h2 ∷ h3 ∷ []) ≡ start_word h0 h1 h2 h3 = omega arith in
      let sync : start_word h0 h1 h2 h3 % 256 ≡ ts_sync = omega (arith, start.sync) in
      rw
        (
          word,
          parse_header-header_of (start_word h0 h1 h2 h3) s sync,
          take_payload body rest p,
          drop_payload body rest p,
          p.size,
        )
        refl

  abbrev pub ctrl : ℕ
  ctrl = (header_of (start_word h0 h1 h2 h3)).adaptation_field_ctrl

  pub ctrl_value : ctrl ≡ h3 / 16 % 4
  ctrl_value = omega (arith, start.sync, start.byte1, start.byte2, start.byte3)

  -- Whether the packet says that it has an adaptation field.
  pub has_field : 2 ≤ h3 / 16 % 4 → (ctrl == 2 || ctrl == 3) ≡ true
  has_field h = ground (arith, ctrl_value)

  pub has_no_field : h3 / 16 % 4 < 2 → (ctrl == 2 || ctrl == 3) ≡ false
  has_no_field h = ground (arith, ctrl_value)

  pub field_says : (ctrl == 2 || ctrl == 3) ≡ true → 2 ≤ h3 / 16 % 4
  field_says h = ground (arith, ctrl_value)
