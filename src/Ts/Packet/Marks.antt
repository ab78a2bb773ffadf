-- ===== src/Ts/Packet/Marks.antt =====
-- `write_ts_segment` of a segment whose `rand_acc` was set.
use mpegts_reader.Common.{ℕ, ◌≡◌, refl, true, List, [], ◌∷◌, ◌++◌, bit_or, arith, ◌∙◌, ap}
use mpegts_reader.Common.Words.{u8}
use mpegts_reader.Common.Outcome.{done}
use mpegts_reader.Ts.{Segment}
use mpegts_reader.Ts.Header.{write_header}
use mpegts_reader.Ts.Adaptation.{write_adaptation_field, write_cursor, mark_rand_acc, mark_pcr}
use mpegts_reader.Ts.Pes.{write_pes_header}
use mpegts_reader.Ts.Pes.Behind.{write_pes_header_behind}
use mpegts_reader.Ts.Packet.{write_ts_segment, bytes_of_word}

-- A payload whose adaptation field says that it starts a random access.
unfoldable pub mark_bytes : List ℕ → List ℕ
mark_bytes [] = []
mark_bytes (a ∷ []) = a ∷ []
mark_bytes (a ∷ b ∷ bytes) = a ∷ u8 (bit_or b 0x40) ∷ bytes

abbrev pub with_rand_acc : Segment → Segment
with_rand_acc s = record s { adaptation_field = record s.adaptation_field { rand_acc = true } }

mark_rand_acc_on :
    (a b : ℕ) (tail : List ℕ) → mark_rand_acc true (a ∷ b ∷ tail) ≡ done (mark_bytes (a ∷ b ∷ tail))
unfolding mark_rand_acc mark_bytes
mark_rand_acc_on a b tail = ground arith

-- If the PCR stands as it is written also behind the marked byte, nothing but this byte is changed.
pub write_ts_segment_marked :
    (s : Segment) (a b c m : ℕ) (tail : List ℕ)
    → s.payload ≡ a ∷ b ∷ tail
    → mark_pcr s.adaptation_field.has_pcr s.adaptation_field.pcr (mark_bytes (a ∷ b ∷ tail))
      ≡ done (mark_bytes (a ∷ b ∷ tail))
    → write_cursor s ≡ c
    → (let there : Segment = record (with_rand_acc s) { payload = a ∷ b ∷ tail } in
        write_pes_header there c ≡ done (there, m))
    → write_ts_segment (with_rand_acc s)
      ≡ done (
        record (with_rand_acc s) { payload = mark_bytes (a ∷ b ∷ tail) },
        bytes_of_word (write_header s) ++ mark_bytes (a ∷ b ∷ tail),
      )
unfolding write_ts_segment write_adaptation_field write_cursor write_header mark_bytes
write_ts_segment_marked s a b c m tail is pcr cursor pes =
    let behind =
      write_pes_header_behind (with_rand_acc s) s.pes_header a b (u8 (bit_or b 0x40)) tail c m
        pes in
    let marks : mark_rand_acc true s.payload ≡ done (mark_bytes (a ∷ b ∷ tail)) =
      ap (mark_rand_acc true) is ∙ mark_rand_acc_on a b tail in
    rw (marks, pcr, cursor, behind) refl
