-- ===== src/Stream/Written.antt =====
-- What `write_ts_segment` leaves of a segment, and the number of bytes it writes.
use mpegts_reader.Common.{
  ℕ, suc, ◌+◌, ◌*◌, ◌%◌, ◌≡◌, refl, ap, ◌∙◌, Bool, true, false, ltb, List, [], ◌∷◌, ◌++◌, length,
  set, length-set, length-append, All, Option, none, some, arith,
}
use mpegts_reader.Common.Outcome.{Outcome, done, fault, ◌>>=◌}
use mpegts_reader.Common.Outcome.Ends.{Ends, if-Ends, >>=-Ends, >>=-Ends_then}
use mpegts_reader.Common.Words.{u8}
use mpegts_reader.Ts.{PesHeader, Segment}
use mpegts_reader.Ts.Array.{load, store}
use mpegts_reader.Ts.Header.{write_header}
use mpegts_reader.Ts.Pcr.{write_pcr}
use mpegts_reader.Ts.Adaptation.{mark_rand_acc, mark_pcr, write_cursor, write_adaptation_field}
use mpegts_reader.Ts.Pes.{write_pes_header}
use mpegts_reader.Ts.Packet.{bytes_of_word, write_ts_segment}
use mpegts_reader.Stream.{write_all}
use mpegts_reader.Stream.Packets.{IsPacket, Keeps, Keeps-trans, Keeps-IsPacket}

-- A write into bytes of the length `n` keeps the length, and so does a chain that begins with one.
store-Ends :
    (n : ℕ) (wb : List ℕ) (i v : ℕ)
    → length wb ≡ n
    → Ends (λ bytes. length bytes ≡ n) (store wb i v)
store-Ends n wb i v e =
    if-Ends (λ bytes. length bytes ≡ n) (ltb i (length wb)) (done (set wb i v)) fault
      (length-set wb i v ∙ e) tt

store_then :
    {B : Type 0} (P : B → Type 0) (n : ℕ) (wb : List ℕ) (i v : ℕ) (f : List ℕ → Outcome B)
    → length wb ≡ n
    → ((wb' : List ℕ) → length wb' ≡ n → Ends P (f wb'))
    → Ends P (store wb i v >>= f)
store_then P n wb i v f e h =
    >>=-Ends_then P (λ bytes. length bytes ≡ n) (store wb i v) f (store-Ends n wb i v e) h

write_pcr-Ends :
    (wb : List ℕ) (i pcr : ℕ) → Ends (λ wb'. length wb' ≡ length wb) (write_pcr wb i pcr)
unfolding write_pcr
write_pcr-Ends wb i pcr =
    let n = length wb in
    let Same = λ (bytes : List ℕ). length bytes ≡ n in
    store_then Same n wb i _ _ refl λ wb1 e1. store_then Same n wb1 (i + 1) _ _ e1 λ wb2 e2.
      store_then Same n wb2 (i + 2) _ _ e2 λ wb3 e3. store_then Same n wb3 (i + 3) _ _ e3 λ wb4 e4.
        >>=-Ends Same (load wb4 (i + 4)) _ λ b4. store_then Same n wb4 (i + 4) _ _ e4 λ wb5 e5.
          >>=-Ends Same (load wb5 (i + 4)) _ λ b4'.
            store_then Same n wb5 (i + 4) _ _ e5
              λ wb6 e6. store-Ends n wb6 (i + 5) (u8 (pcr % 300)) e6

mark_rand_acc-Ends :
    (rand_acc : Bool) (wb : List ℕ)
    → Ends (λ wb'. length wb' ≡ length wb) (mark_rand_acc rand_acc wb)
unfolding mark_rand_acc
mark_rand_acc-Ends true wb =
    >>=-Ends (λ wb'. length wb' ≡ length wb) (load wb 1) _ λ b. store-Ends (length wb) wb 1 _ refl
mark_rand_acc-Ends false wb = refl

mark_pcr-Ends :
    (has_pcr : Bool) (pcr : ℕ) (wb : List ℕ)
    → Ends (λ wb'. length wb' ≡ length wb) (mark_pcr has_pcr pcr wb)
unfolding mark_pcr
mark_pcr-Ends true pcr wb = write_pcr-Ends wb 2 pcr
mark_pcr-Ends false pcr wb = refl

write_adaptation_field-Ends : (s : Segment) → Ends (λ r. Keeps s r.0) (write_adaptation_field s)
unfolding write_adaptation_field
write_adaptation_field-Ends s =
    let adp = s.adaptation_field in
    let n = length s.payload in
    let Kept = λ (r : Segment × ℕ). Keeps s r.0 in
    >>=-Ends_then Kept (λ wb. length wb ≡ n) (mark_rand_acc adp.rand_acc s.payload) _
      (mark_rand_acc-Ends adp.rand_acc s.payload)
      λ wb e.
        >>=-Ends_then Kept (λ wb'. length wb' ≡ length wb) (mark_pcr adp.has_pcr adp.pcr wb)
          (λ wb'. done (record s { payload = wb' }, write_cursor s))
          (mark_pcr-Ends adp.has_pcr adp.pcr wb) λ wb' e'. record { header = refl; size = e' ∙ e }

write_pes_header-Ends :
    (s : Segment) (c : ℕ) (header : Option PesHeader)
    → s.pes_header ≡ header
    → Ends (λ r. Keeps s r.0) (write_pes_header s c)
unfolding write_pes_header
write_pes_header-Ends s c none e = rw e (record { header = refl; size = refl })
write_pes_header-Ends s c (some header) e =
    let n = length s.payload in
    let wb = s.payload in
    let there : Segment = record s { pes_header = some header } in
    let Kept = λ (r : Segment × ℕ). Keeps there r.0 in
    rw e (
      store_then Kept n wb (c + 2) 1 _ refl λ wb1 e1.
        store_then Kept n wb1 (c + 3) header.stream_id _ e1 λ wb2 e2.
          store_then Kept n wb2 (c + 4) _ _ e2 λ wb3 e3.
            store_then Kept n wb3 (c + 5) _
              (λ wb. done (record there { payload = wb }, c + 6 + header.pes_header_len)) e3
              λ wb4 e4. record { header = refl; size = e4 })

-- What `write_ts_segment` leaves: the segment's header and 184 bytes, of a packet of 188 bytes.
pub record IsWritten (s : Segment) (r : Segment × List ℕ) : Type 0 where
  pub kept : Keeps s r.0
  pub size : length r.1 ≡ 4 + length s.payload

write_ts_segment-Ends : (s : Segment) → Ends (IsWritten s) (write_ts_segment s)
unfolding write_ts_segment
write_ts_segment-Ends s =
    >>=-Ends_then (IsWritten s) (λ r. Keeps s r.0) (write_adaptation_field s) _
      (write_adaptation_field-Ends s)
      λ marked k.
        >>=-Ends_then (IsWritten s) (λ r. Keeps marked.0 r.0) (write_pes_header marked.0 marked.1)
          (λ r. done (r.0, bytes_of_word (write_header s) ++ r.0.payload))
          (write_pes_header-Ends marked.0 marked.1 marked.0.pes_header refl)
          λ written k'.
            let both = Keeps-trans k k' in record { kept = both; size = omega (arith, both.size) }

-- The segments of the list, written: as many packets, and each of 188 bytes.
abbrev pub AreWritten : List Segment → List Segment × List ℕ → Type 0
AreWritten ss (written, bytes) =
    All IsPacket written × (length written ≡ length ss) × (length bytes ≡ 188 * length ss)

pub write_all-Ends : (ss : List Segment) → All IsPacket ss → Ends (AreWritten ss) (write_all ss)
unfolding write_all
write_all-Ends [] h = (tt, refl, refl)
write_all-Ends (s ∷ ss) (h, hs) =
    >>=-Ends_then (AreWritten (s ∷ ss)) (IsWritten s) (write_ts_segment s) _
      (write_ts_segment-Ends s)
      λ one w.
        >>=-Ends_then (AreWritten (s ∷ ss)) (AreWritten ss) (write_all ss)
          (λ r. done (one.0 ∷ r.0, one.1 ++ r.1)) (write_all-Ends ss hs)
          λ (written, bytes) (all, count, size). (
            (Keeps-IsPacket w.kept h, all),
            ap suc count,
            omega (arith, length-append one.1 bytes, w.size, h.size, size),
          )
