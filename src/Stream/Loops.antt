-- ===== src/Stream/Loops.antt =====
-- The bodies of the loops over a stream keep what every segment has.
use mpegts_reader.Common.{
  ℕ, suc, ◌≡◌, refl, ap, Bool, true, false, if◌then◌else◌, List, [], ◌∷◌, length, map, All, Option,
  none, some, arith,
}
use mpegts_reader.Ts.{PesHeader, Segment, field}
use mpegts_reader.Ts.Header.Value.{IsHeader}
use mpegts_reader.Stream.{reset_len, fix_segment, pcr_by_pts, set_cc, next_cc, update_cc_loop}
use mpegts_reader.Stream.Packets.{IsPacket}

pub All-map :
    (f : Segment → Segment) (ss : List Segment)
    → ((s : Segment) → IsPacket s → IsPacket (f s))
    → All IsPacket ss
    → All IsPacket (map f ss)
All-map f [] h all = tt
All-map f (s ∷ ss) h (p, all) = (h s p, All-map f ss h all)

either : (b : Bool) {s t : Segment} → IsPacket s → IsPacket t → IsPacket (if b then s else t)
either true p q = p
either false p q = q

with_pes :
    (header : Option PesHeader) {s : Segment} {f : PesHeader → Segment}
    → IsPacket s
    → ((h : PesHeader) → IsPacket (f h))
    → IsPacket (elim header [ none ↦ s | some h ↦ f h ])
with_pes none p q = p
with_pes (some h) p q = q h

-- The loops' bodies keep a packet.
pub reset_len-IsPacket : (s : Segment) → IsPacket s → IsPacket (reset_len s)
unfolding reset_len
reset_len-IsPacket s p =
    with_pes s.pes_header p λ h. record { header = p.header; sync = p.sync; size = p.size }

pub fix_segment-IsPacket : (pid : ℕ) (s : Segment) → IsPacket s → IsPacket (fix_segment pid s)
unfolding fix_segment
fix_segment-IsPacket pid s p =
    either _ (record { header = p.header; sync = p.sync; size = p.size }) p

pub pcr_by_pts-IsPacket : (s : Segment) → IsPacket s → IsPacket (pcr_by_pts s)
unfolding pcr_by_pts
pcr_by_pts-IsPacket s p =
    with_pes s.pes_header p
      λ h. either _ (record { header = p.header; sync = p.sync; size = p.size }) p

set_cc-IsPacket : (pid init_cc : ℕ) (s : Segment) → IsPacket s → IsPacket (set_cc pid init_cc s)
unfolding set_cc
set_cc-IsPacket pid init_cc s p =
    let counted : IsHeader (record s.header { continuity_counter = field 4 init_cc }) = record {
      pid = p.header.pid;
      tscramble_control = p.header.tscramble_control;
      adaptation_field_ctrl = p.header.adaptation_field_ctrl;
      continuity_counter = omega arith;
    } in
    either _ (record { header = counted; sync = p.sync; size = p.size }) p

pub update_cc_loop-IsPacket :
    (pid init_cc : ℕ) (ss : List Segment)
    → All IsPacket ss
    → All IsPacket (update_cc_loop pid init_cc ss).0
      × (length (update_cc_loop pid init_cc ss).0 ≡ length ss)
unfolding update_cc_loop
update_cc_loop-IsPacket pid init_cc [] h = (tt, refl)
update_cc_loop-IsPacket pid init_cc (s ∷ ss) (h, hs) =
    let (all, count) = update_cc_loop-IsPacket pid (next_cc pid init_cc s) ss hs in
    ((set_cc-IsPacket pid init_cc s h, all), ap suc count)
