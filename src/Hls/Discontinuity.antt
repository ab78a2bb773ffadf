-- ===== src/Hls/Discontinuity.antt =====
-- The continuity counters over a whole playlist: `hls_fix_discontinuity`.
use mpegts_reader.Common.{
  ℕ, zero, suc, ◌+◌, ◌%◌, ◌<◌, ◌≡◌, refl, sym, ap, ◌∙◌, List, [], ◌∷◌, ◌++◌, map, length,
  length-append, arith, Option,
}
use mathlib.Core.List.{append-nil}
use mpegts_reader.Dlist.{Dlist, IsDlist}
use mpegts_reader.Ts.{Segment}
use mpegts_reader.Stream.{Stream, update_cc}
use mpegts_reader.Stream.Counters.{
  count_from_mod, counters_of, count_from, counters, update_cc_numbers, uncounted,
}
use mpegts_reader.Hls.{Playlist, update_all, fix_pids, hls_fix_discontinuity}

counters_of-append :
    (pid : ℕ) (ss ts : List Segment)
    → counters_of pid (ss ++ ts) ≡ counters_of pid ss ++ counters_of pid ts
unfolding counters_of
counters_of-append pid [] ts = refl
counters_of-append pid (s ∷ ss) ts = ground (arith, counters_of-append pid ss ts)

count_from-add : (m n c : ℕ) → count_from c (m + n) ≡ count_from c m ++ count_from (c + m) n
unfolding count_from
count_from-add zero n c =
    let start : c ≡ c + 0 = omega arith in
    let none_first : 0 + n ≡ n = omega arith in
    ap (count_from c) none_first ∙ ap (λ d. count_from d n) start
count_from-add (suc m) n c =
    let longer : suc m + n ≡ suc (m + n) = omega arith in
    let start : c + 1 + m ≡ c + suc m = omega arith in
    ap (count_from c) longer
    ∙ ap (λ xs. (c % 16) ∷ xs)
        (count_from-add m n (c + 1) ∙ ap (λ d. count_from (c + 1) m ++ count_from d n) start)

module _ {E : Type 0} (l : Dlist E Segment) where
  -- The packets of streams in a row.
  unfoldable pub packets : List (Stream E) → List Segment
  packets [] = []
  packets (stream ∷ streams) = l.nodes stream.segment_list ++ packets streams

  abbrev pub playlist_packets : {F : Type 0} → Dlist F (Stream E) → Playlist F → List Segment
  playlist_packets f playlist = packets (f.nodes playlist.sublist)

  -- A stream but for the counters of PID 0x100: its path, and its packets without them.
  abbrev pub outline : Stream E → Option (List ℕ) × List Segment
  outline stream = (stream.url, uncounted l 0x100 stream)

module _ {E F : Type 0} (l : Dlist E Segment) (laws : IsDlist l) (f : Dlist F (Stream E))
    (f_laws : IsDlist f) where
  counters_of-update_all :
      (streams : List (Stream E)) (c : ℕ)
      → c < 16
      → counters_of 0x100 (packets l (update_all l f c streams))
        ≡ count_from c (length (counters_of 0x100 (packets l streams)))
  unfolding packets update_all counters_of count_from
  counters_of-update_all [] c h = refl
  counters_of-update_all (stream ∷ streams) c h =
      let (numbered, next, kept) = update_cc_numbers l laws stream 0x100 c h in
      let last = (update_cc l stream 0x100 c).1 in
      let below : last < 16 = omega (arith, next) in
      let rest = counters_of-update_all streams last below in
      let goes_on : last % 16 ≡ (c + length (counters l 0x100 stream)) % 16 = omega (arith, next) in
      let k = length (counters_of 0x100 (packets l streams)) in
      let mine = counters l 0x100 stream in
      let others = counters_of 0x100 (packets l streams) in
      let updated = counters_of 0x100 (packets l (update_all l f last streams)) in
      counters_of-append 0x100 (l.nodes (update_cc l stream 0x100 c).0.segment_list)
        (packets l (update_all l f last streams))
      ∙ ap (λ xs. xs ++ updated) numbered
      ∙ ap (λ xs. count_from c (length mine) ++ xs)
          (rest ∙ count_from_mod k last (c + length mine) goes_on)
      ∙ sym (count_from-add (length mine) k c)
      ∙ ap (count_from c) (sym (length-append mine others))
      ∙ ap (λ xs. count_from c (length xs))
          (sym (counters_of-append 0x100 (l.nodes stream.segment_list) (packets l streams)))

  outline-update_cc :
      (stream : Stream E) (c : ℕ)
      → c < 16
      → outline l (update_cc l stream 0x100 c).0 ≡ outline l stream
  unfolding update_cc
  outline-update_cc stream c h =
      let (numbered, next, kept) = update_cc_numbers l laws stream 0x100 c h in
      ap (λ xs. (stream.url, xs)) kept

  outline-update_all :
      (streams : List (Stream E)) (c : ℕ)
      → c < 16
      → map (outline l) (update_all l f c streams) ≡ map (outline l) streams
  unfolding update_all
  outline-update_all [] c h = refl
  outline-update_all (stream ∷ streams) c h =
      let (numbered, next, kept) = update_cc_numbers l laws stream 0x100 c h in
      let last = (update_cc l stream 0x100 c).1 in
      let below : last < 16 = omega (arith, next) in
      ap (λ x. x ∷ map (outline l) (update_all l f last streams)) (outline-update_cc stream c h)
      ∙ ap (λ xs. outline l stream ∷ xs) (outline-update_all streams last below)

  length-update_all :
      (streams : List (Stream E)) (c : ℕ) → length (update_all l f c streams) ≡ length streams
  unfolding update_all
  length-update_all [] c = refl
  length-update_all (stream ∷ streams) c =
      ap suc (length-update_all streams (update_cc l stream 0x100 c).1)

  -- Only the first PID finds streams: for the others the iterator is at its end.
  fix_pids_first : (count : ℕ) (passed : List (Stream E)) → fix_pids l f count passed [] ≡ passed
  unfolding fix_pids update_all
  fix_pids_first zero passed = append-nil passed
  fix_pids_first (suc count) passed = fix_pids_first count (passed ++ []) ∙ append-nil passed

  pub nodes-hls_fix_discontinuity :
      (playlist : Playlist F) (pids : List ℕ) (count : ℕ)
      → f.nodes (hls_fix_discontinuity l f playlist pids (suc count)).sublist
        ≡ update_all l f 0 (f.nodes playlist.sublist)
  unfolding hls_fix_discontinuity fix_pids
  nodes-hls_fix_discontinuity playlist pids count =
      let streams = f.nodes playlist.sublist in
      let first : fix_pids l f (suc count) [] streams ≡ update_all l f 0 streams =
        fix_pids_first count (update_all l f 0 streams) in
      ap (λ xs. f.nodes (f.with_nodes playlist.sublist xs)) first
      ∙ f_laws.nodes-with_nodes _ _ (length-update_all streams 0)

  -- With at least one PID in the array, `hls_fix_discontinuity` numbers the packets of PID 0x100 through
  -- the whole playlist from 0 on without a gap, modulo 16, across the borders of its streams, whatever the
  -- PIDs in the array are. It keeps the path of the playlist, and, in their order, the streams with their
  -- paths and their packets, but for these counters.
  pub hls_fix_discontinuity_numbers :
      (playlist : Playlist F) (pids : List ℕ) (pid_count : ℕ)
      → 0 < pid_count
      → (counters_of 0x100
            (playlist_packets l f (hls_fix_discontinuity l f playlist pids pid_count))
          ≡ count_from 0 (length (counters_of 0x100 (playlist_packets l f playlist))))
        × (map (outline l) (f.nodes (hls_fix_discontinuity l f playlist pids pid_count).sublist)
            ≡ map (outline l) (f.nodes playlist.sublist))
        × ((hls_fix_discontinuity l f playlist pids pid_count).url ≡ playlist.url)
  unfolding hls_fix_discontinuity
  hls_fix_discontinuity_numbers playlist pids zero h = absurd (omega (arith, h))
  hls_fix_discontinuity_numbers playlist pids (suc count) h = (
    ap (λ xs. counters_of 0x100 (packets l xs)) (nodes-hls_fix_discontinuity playlist pids count)
        ∙ counters_of-update_all (f.nodes playlist.sublist) 0 (omega arith),
    ap (map (outline l)) (nodes-hls_fix_discontinuity playlist pids count)
        ∙ outline-update_all (f.nodes playlist.sublist) 0 (omega arith),
    refl,
  )
