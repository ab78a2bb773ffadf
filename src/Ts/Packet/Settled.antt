-- ===== src/Ts/Packet/Settled.antt =====
-- Segments as `parse_ts_segment` leaves them, and what `write_ts_segment` makes of them.
use mpegts_reader.Common.{
  ℕ, ◌+◌, ◌*◌, ◌/◌, ◌%◌, ◌≤◌, ◌<◌, ◌≡◌, ◌≢◌, refl, Bool, true, false, List, [], ◌∷◌, ◌++◌, bit_and,
  bit_or, ==_iff, Bool-cases, inl, inr, get_elem?, arith, ◌==◌, ◌||◌, some, ◌∙◌, sym, ap, subst,
}
use mpegts_reader.Common.Bits.Masks.{and_0x02, or_0x40_set}
use mpegts_reader.Common.Words.{u8}
use mpegts_reader.Ts.Array.Safe.{store_same}
use mpegts_reader.Ts.Pcr.{parse_pcr, pcr_value}
use mpegts_reader.Ts.Pcr.Rewrite.{parse_pcr_bytes, write_pcr-parse_pcr_iff}
use mpegts_reader.Common.Outcome.{done}
use mpegts_reader.Ts.{TsHeader, PesHeader, Segment, IsPayload}
use mpegts_reader.Ts.Header.{write_header}
use mpegts_reader.Ts.Header.Value.{header_of}
use mpegts_reader.Ts.Header.RoundTrip.{write_header-header_of}
use mpegts_reader.Ts.Adaptation.{
  parse_adaptation_field, write_adaptation_field, has_bits, write_cursor, mark_rand_acc, mark_pcr,
}
use mpegts_reader.Ts.Adaptation.Parse.{IsRead}
use mpegts_reader.Ts.Pes.{write_pes_header}
use mpegts_reader.Ts.Packet.{parse_ts_segment, write_ts_segment, bytes_of_word}
use mpegts_reader.Ts.Packet.Parse.{
  IsStart, start_word, has_field, has_no_field, ctrl_value, parse_ts_segment_step,
}
use mpegts_reader.Ts.Packet.Marks.{mark_bytes, with_rand_acc, write_ts_segment_marked}
use mpegts_reader.Ts.Packet.Bounds.{parse_body_at, adaptation_there}

-- The four bytes that are written, where the scrambling bits of the fourth are clear.
pub start_bytes :
    {h0 h1 h2 h3 : ℕ}
    → IsStart h0 h1 h2 h3
    → h3 < 64
    → (s : Segment) → s.header ≡ header_of (start_word h0 h1 h2 h3)
    → bytes_of_word (write_header s) ≡ h0 ∷ h1 ∷ h2 ∷ h3 ∷ []
start_bytes {h0} {h1} {h2} {h3} start clear s is =
    let v : ℕ = start_word h0 h1 h2 h3 in
    let word =
      write_header-header_of v s (omega (arith, start.sync, start.byte1, start.byte2))
        (omega (arith, start.sync)) is in
    rw word (ground (arith, start.sync, start.byte1, start.byte2))

-- If both fields that `write_adaptation_field` would overwrite stand as they are written, and its cursor
-- is the parser's, the segment is written as it was read.
write_ts_segment_same :
    (s : Segment) (c m : ℕ)
    → mark_rand_acc s.adaptation_field.rand_acc s.payload ≡ done s.payload
    → mark_pcr s.adaptation_field.has_pcr s.adaptation_field.pcr s.payload ≡ done s.payload
    → write_cursor s ≡ c
    → write_pes_header s c ≡ done (s, m)
    → write_ts_segment s ≡ done (s, bytes_of_word (write_header s) ++ s.payload)
unfolding write_ts_segment write_adaptation_field
write_ts_segment_same s c m acc pcr cursor pes = rw (acc, pcr, cursor, pes) refl

write_cursor_plain : (s : Segment) → s.header.adaptation_field_ctrl < 2 → write_cursor s ≡ 0
unfolding write_cursor
write_cursor_plain s h = ground (arith, and_0x02 s.header.adaptation_field_ctrl)

no_adaptation :
    (body : List ℕ) (s : Segment)
    → (s.header.adaptation_field_ctrl == 2 || s.header.adaptation_field_ctrl == 3) ≡ false
    → parse_adaptation_field (record s { payload = body }) ≡ done (record s { payload = body }, 0)
unfolding parse_adaptation_field
no_adaptation body s absent = rw absent refl

true-ne-false : true ≢ false
true-ne-false e = cc

mark_rand_acc_off : {flag : Bool} {wb : List ℕ} → flag ≡ false → mark_rand_acc flag wb ≡ done wb
unfolding mark_rand_acc
mark_rand_acc_off e = rw e refl

mark_pcr_off : {flag : Bool} (pcr : ℕ) {wb : List ℕ} → flag ≡ false → mark_pcr flag pcr wb ≡ done wb
unfolding mark_pcr
mark_pcr_off pcr e = rw e refl

-- Marking what is marked already.
mark_rand_acc_same :
    (flags : ℕ) (wb : List ℕ)
    → flags < 256
    → get_elem? wb 1 ≡ some flags
    → mark_rand_acc (has_bits flags 0x40) wb ≡ done wb
unfolding mark_rand_acc
mark_rand_acc_same flags wb h e = elim (Bool-cases (has_bits flags 0x40)) [
  | inl set ↦
      let same : u8 (bit_or flags 0x40) ≡ flags =
        let is = or_0x40_set flags h ((==_iff (bit_and flags 0x40) 0x40).0 set) in
        omega (arith, is) in
      rw (set, e, same) (store_same wb 1 flags e)
  | inr clear ↦ rw clear refl
]

-- Where a PCR is present: it is below the limits of the parser and of `write_pcr`, and its two bits that
-- the parser takes for one another agree.
pub record IsStablePcr (b0 b1 b2 b3 b4 b5 : ℕ) : Type 0 where
  pub base : b0 < 64
  pub ext : b4 % 2 * 256 + b5 < 300
  pub agree : b3 / 64 % 2 ≡ b4 / 128

-- It is written as it stands, whatever the flags in front of it are.
mark_pcr_stable :
    (l f x b0 b1 b2 b3 b4 b5 pcr : ℕ) (more : List ℕ)
    → let body = l ∷ f ∷ b0 ∷ b1 ∷ b2 ∷ b3 ∷ b4 ∷ b5 ∷ more in
      let marked = l ∷ x ∷ b0 ∷ b1 ∷ b2 ∷ b3 ∷ b4 ∷ b5 ∷ more in
      IsPayload body
      → IsStablePcr b0 b1 b2 b3 b4 b5
      → parse_pcr body 2 ≡ done (pcr, 8)
      → mark_pcr true pcr marked ≡ done marked
unfolding mark_pcr
mark_pcr_stable l f x b0 b1 b2 b3 b4 b5 pcr more p k read =
    let value : pcr_value b0 b1 b2 b3 b4 b5 ≡ pcr =
      ground (arith, parse_pcr_bytes l f b0 b1 b2 b3 b4 b5 more, read) in
    let (_, (_, (_, (h1, (h2, (h3, (h4, (h5, _)))))))) = p.bytes in
    rw (← value)
      ((write_pcr-parse_pcr_iff b0 b1 b2 b3 b4 b5 k.base h1 h2 h3 h4 h5 k.ext l x more).1 k.agree)

mark_pcr_same :
    (l f b0 b1 b2 b3 b4 b5 pcr : ℕ) (more : List ℕ)
    → let body = l ∷ f ∷ b0 ∷ b1 ∷ b2 ∷ b3 ∷ b4 ∷ b5 ∷ more in
      IsPayload body
      → (has_bits f 0x10 ≡ true → IsStablePcr b0 b1 b2 b3 b4 b5)
      → (has_bits f 0x10 ≡ true → parse_pcr body 2 ≡ done (pcr, 8))
      → mark_pcr (has_bits f 0x10) pcr body ≡ done body
mark_pcr_same l f b0 b1 b2 b3 b4 b5 pcr more p stable read = elim (Bool-cases (has_bits f 0x10)) [
  | inl set ↦ rw set (mark_pcr_stable l f f b0 b1 b2 b3 b4 b5 pcr more p (stable set) (read set))
  | inr clear ↦ mark_pcr_off pcr clear
]

write_cursor_field :
    (s : Segment) (len : ℕ)
    → 2 ≤ s.header.adaptation_field_ctrl
    → s.header.adaptation_field_ctrl < 4
    → s.adaptation_field.len ≡ len
    → 1 ≤ len
    → s.adaptation_field.priv_len ≡ 0
    → write_cursor s ≡ 1 + len
unfolding write_cursor
write_cursor_field s len h k e l z = ground (arith, and_0x02 s.header.adaptation_field_ctrl)

-- A segment that is written as it stands, under any header that says as much of its adaptation field; and
-- with `rand_acc` set, if it has a PCR, but for the marked byte.
pub record IsSettled (t : Segment) : Type 0 where
  pub written :
      (h : TsHeader)
      → h.adaptation_field_ctrl ≡ t.header.adaptation_field_ctrl
      → write_ts_segment (record t { header = h })
        ≡ done (
          record t { header = h },
          bytes_of_word (write_header (record t { header = h })) ++ t.payload,
        )
  pub marked :
      (h : TsHeader)
      → h.adaptation_field_ctrl ≡ t.header.adaptation_field_ctrl
      → t.adaptation_field.has_pcr ≡ true
      → write_ts_segment (with_rand_acc (record t { header = h }))
        ≡ done (
          record (with_rand_acc (record t { header = h })) { payload = mark_bytes t.payload },
          bytes_of_word (write_header (record t { header = h })) ++ mark_bytes t.payload,
        )

module _ {h0 h1 h2 h3 : ℕ} (start : IsStart h0 h1 h2 h3) (raw : PesHeader) where
  -- What a packet without an adaptation field is read as.
  pub parse_ts_segment-IsSettled :
      (body rest : List ℕ) (s : Segment)
      → IsPayload body
      → h3 / 16 % 4 < 2
      → s.adaptation_field.has_pcr ≡ false
      → s.adaptation_field.rand_acc ≡ false
      → (t : Segment) × (parse_ts_segment (some raw) (h0 ∷ h1 ∷ h2 ∷ h3 ∷ (body ++ rest)) s
          ≡ done (true, rest, t))
        × (t.header ≡ header_of (start_word h0 h1 h2 h3))
        × (t.payload ≡ body)
        × IsSettled t
        × (t.adaptation_field.has_pcr ≡ false)
  parse_ts_segment-IsSettled body rest s p plain no_pcr no_acc =
      let begun : Segment = record s { header = header_of (start_word h0 h1 h2 h3) } in
      let absent = has_no_field (some raw) start plain in
      let (header, n, m, eb, ew) =
        parse_body_at body begun p raw s.adaptation_field 0 (no_adaptation body begun absent)
          (omega (arith, p.size)) in
      let t : Segment = record begun { payload = body; pes_header = header; payload_start = n } in
      let little : t.header.adaptation_field_ctrl < 2 =
        omega (arith, ctrl_value (some raw) start) in
      (
        t,
        rw (parse_ts_segment_step (some raw) start body rest s p, eb) refl,
        refl,
        refl,
        record {
          written = λ h e.
              write_ts_segment_same (record t { header = h }) 0 m (mark_rand_acc_off no_acc)
                (mark_pcr_off t.adaptation_field.pcr no_pcr)
                (write_cursor_plain (record t { header = h }) (omega (arith, e, little)))
                (ew (record t { header = h }) refl refl);
          marked = λ h e yes. absurd (true-ne-false (sym yes ∙ no_pcr));
        },
        no_pcr,
      )

  -- What a packet with an adaptation field is read as.
  pub parse_ts_segment_field-IsSettled :
      (l f b0 b1 b2 b3 b4 b5 : ℕ) (more rest : List ℕ) (s : Segment)
      → let body = l ∷ f ∷ b0 ∷ b1 ∷ b2 ∷ b3 ∷ b4 ∷ b5 ∷ more in
        IsPayload body
        → 2 ≤ h3 / 16 % 4
        → 1 ≤ l
        → l ≤ 164
        → has_bits f 0x02 ≡ false
        → s.adaptation_field.priv_len ≡ 0
        → (has_bits f 0x10 ≡ true → IsStablePcr b0 b1 b2 b3 b4 b5)
        → (t : Segment) × (parse_ts_segment (some raw) (h0 ∷ h1 ∷ h2 ∷ h3 ∷ (body ++ rest)) s
            ≡ done (true, rest, t))
          × (t.header ≡ header_of (start_word h0 h1 h2 h3))
          × (t.payload ≡ body)
          × IsSettled t
          × (t.adaptation_field.has_pcr ≡ has_bits f 0x10)
  unfolding mark_bytes
  parse_ts_segment_field-IsSettled l f b0 b1 b2 b3 b4 b5 more rest s p there low high open_data
        zeroed stable =
      let body = l ∷ f ∷ b0 ∷ b1 ∷ b2 ∷ b3 ∷ b4 ∷ b5 ∷ more in
      let begun : Segment = record s { header = header_of (start_word h0 h1 h2 h3) } in
      let (adp, flags, e, is) =
        adaptation_there body begun p l (has_field (some raw) start there) refl in
      let (header, n, m, eb, ew) =
        parse_body_at body begun p raw adp (1 + l) e (omega (arith, p.size)) in
      let t : Segment = record begun {
        payload = body;
        adaptation_field = adp;
        pes_header = header;
        payload_start = n;
      } in
      let same : f ≡ flags = ground (arith, is.second) in
      let is_f = subst (λ x. IsRead body s.adaptation_field adp l x) (sym same) is in
      let acc =
        ap (λ x. mark_rand_acc x body) is_f.rand_acc
        ∙ mark_rand_acc_same f body (p.bytes.1.0) refl in
      let pcr =
        ap (λ x. mark_pcr x adp.pcr body) is_f.has_pcr
        ∙ mark_pcr_same l f b0 b1 b2 b3 b4 b5 adp.pcr more p stable is_f.pcr in
      let pcr_marked : adp.has_pcr ≡ true
          → mark_pcr adp.has_pcr adp.pcr (mark_bytes body) ≡ done (mark_bytes body) =
        λ yes.
          (let set : has_bits f 0x10 ≡ true = sym is_f.has_pcr ∙ yes in
            ap (λ x. mark_pcr x adp.pcr (mark_bytes body)) yes
            ∙ mark_pcr_stable l f (u8 (bit_or f 0x40)) b0 b1 b2 b3 b4 b5 adp.pcr more p (stable set)
                (is_f.pcr set)) in
      let ctrl = ctrl_value (some raw) start in
      (
        t,
        rw (parse_ts_segment_step (some raw) start body rest s p, eb) refl,
        refl,
        refl,
        record {
          written = λ h k.
              write_ts_segment_same (record t { header = h }) (1 + l) m acc pcr
                (write_cursor_field (record t { header = h }) l (omega (arith, k, ctrl, there))
                  (omega (arith, k, ctrl)) is_f.len low (is_f.priv_len open_data ∙ zeroed))
                (ew (record t { header = h }) refl refl);
          marked = λ h k yes.
              write_ts_segment_marked (record t { header = h }) l f (1 + l) m
                (b0 ∷ b1 ∷ b2 ∷ b3 ∷ b4 ∷ b5 ∷ more) refl (pcr_marked yes)
                (write_cursor_field (record t { header = h }) l (omega (arith, k, ctrl, there))
                  (omega (arith, k, ctrl)) is_f.len low (is_f.priv_len open_data ∙ zeroed))
                (ew (with_rand_acc (record t { header = h })) refl refl);
        },
        is_f.has_pcr,
      )
