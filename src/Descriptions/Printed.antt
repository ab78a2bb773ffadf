-- ===== src/Descriptions/Printed.antt =====
-- `mpegts_stream_print` and `mpegts_stream_print_pes_header` on the streams of the program.
use Prim.Native.String.{String}
use mpegts_reader.Common.{
  ℕ, zero, suc, ◌≡◌, refl, ◌<◌, Bool, true, false, Bool-cases, ==_iff, inl, inr, List, [], ◌∷◌,
  ◌++◌, All, some, arith, ◌&&◌, if◌then◌else◌,
}
use mpegts_reader.Common.Outcome.{done}
use mpegts_reader.Dlist.{Dlist, IsDlist}
use mpegts_reader.Ts.{Segment}
use mpegts_reader.Ts.Header.{ts_sync}
use mpegts_reader.Stream.{Stream, has_pid}
use mpegts_reader.Stream.Packets.{IsPacket}
use mpegts_reader.Stream.Reach.{Reach, Reach-IsStream}
use mpegts_reader.Descriptions.{
  get_adpt_field_value, get_pid_description, get_tsc_value, Line, ts_header, print_ts_haeder,
  print_adaptation_field, print_payload, print_segment, print_all, mpegts_stream_print,
  mpegts_stream_print_pes_header,
}

get_adpt_field_value-some :
    (adp : ℕ) → adp < 4 → (name : String) × (get_adpt_field_value adp ≡ some name)
unfolding get_adpt_field_value
get_adpt_field_value-some zero h = ("RESV", refl)
get_adpt_field_value-some (suc zero) h = ("(Payload)", refl)
get_adpt_field_value-some (suc (suc zero)) h = ("(Ad Field)", refl)
get_adpt_field_value-some (suc (suc (suc zero))) h = ("(Ad Field | Payload)", refl)
get_adpt_field_value-some (suc (suc (suc (suc n)))) h = absurd (omega arith)

print_ts_haeder-done :
    (s : Segment) → IsPacket s → (lines : List Line) × (print_ts_haeder s ≡ done lines)
unfolding print_ts_haeder
print_ts_haeder-done s p =
    let (name, e) =
      get_adpt_field_value-some s.header.adaptation_field_ctrl p.header.adaptation_field_ctrl in
    let description = get_pid_description s.header.pid in
    let start = if s.header.pusi then "YES" else "NO" in
    let shown =
      ts_header s.header description (get_tsc_value s.header.tscramble_control) name start ∷ [] in
    elim (Bool-cases s.header.tei) [
      | inl erred ↦ ([], rw ((==_iff s.header.sync ts_sync).1 p.sync, erred) refl)
      | inr good ↦ (shown, rw ((==_iff s.header.sync ts_sync).1 p.sync, good, e) refl)
    ]

print_segment-done :
    (s : Segment) → IsPacket s → (lines : List Line) × (print_segment s ≡ done lines)
unfolding print_segment
print_segment-done s p =
    let (header, e) = print_ts_haeder-done s p in
    (header ++ (print_adaptation_field s ++ print_payload s), rw e refl)

print_chosen-done :
    (b : Bool) (s : Segment)
    → IsPacket s
    → (lines : List Line) × ((if b then print_segment s else done []) ≡ done lines)
print_chosen-done true s p = print_segment-done s p
print_chosen-done false s p = ([], refl)

print_all-done :
    (chosen : Segment → Bool) (ss : List Segment)
    → All IsPacket ss
    → (lines : List Line) × (print_all chosen ss ≡ done lines)
unfolding print_all
print_all-done chosen [] h = ([], refl)
print_all-done chosen (s ∷ ss) (h, hs) =
    let (lines, e) = print_chosen-done (chosen s) s h in
    let (more, es) = print_all-done chosen ss hs in (lines ++ more, rw (e, es) refl)

module _ {E : Type 0} (l : Dlist E Segment) (laws : IsDlist l) where
  -- Every stream that the operations bring about is printed to its end, all of it and the PES headers of
  -- any PID: no segment of it makes `print_ts_haeder` end the program.
  pub mpegts_stream_print-done :
      {stream : Stream E} (pid : ℕ)
      → Reach l stream
      → ((lines : List Line) × (mpegts_stream_print l stream ≡ done lines))
        × ((lines : List Line) × (mpegts_stream_print_pes_header l stream pid ≡ done lines))
  unfolding mpegts_stream_print mpegts_stream_print_pes_header
  mpegts_stream_print-done {stream} pid r =
      let all = Reach-IsStream l laws r in
      (
        print_all-done (λ s. true) (l.nodes stream.segment_list) all,
        print_all-done (λ s. s.header.pusi && has_pid pid s) (l.nodes stream.segment_list) all,
      )
