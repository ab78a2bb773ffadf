-- ===== src/Stream/Edits.antt =====
-- The blocks of a stream: the copy of its path in `mpegts_stream_init`, the list that
-- `mpegts_stream_free` empties; and the loops that mark key frames and clear PES lengths.
use mpegts_reader.Common.{
  ℕ, suc, ◌≤◌, ◌≡◌, ◌↔◌, refl, sym, ◌∙◌, false, Bool-cases, inl, inr, List, [], ◌∷◌, length, map,
  Option, some, arith,
}
use mpegts_reader.Common.Outcome.{done, fault}
use mpegts_reader.Dlist.{Dlist, IsDlist}
use mpegts_reader.Ts.{Segment}
use mpegts_reader.Stream.{strcpy, copy_url, free_loop, fix_segment, set_cc, update_cc_loop, next_cc}

strcpy-fault_iff :
    (capacity : ℕ) (src : List ℕ) → (strcpy capacity src ≡ fault) ↔ (capacity ≤ length src)
strcpy-fault_iff capacity src = (λ e. ground (arith, e), λ h. ground (arith, h))

-- Where `malloc` gives a block for the length of the path, the copy of the path writes past it exactly
-- if the block has no more bytes than that length, which is the size that was asked for.
pub copy_url-fault_iff :
    (usable : ℕ → Option ℕ) (url : List ℕ) (capacity : ℕ)
    → usable (length url) ≡ some capacity
    → (copy_url usable url ≡ fault) ↔ (capacity ≤ length url)
unfolding copy_url
copy_url-fault_iff usable url capacity e = rw (copy_url, e) (strcpy-fault_iff capacity url)

cons_not_nil : {s : Segment} {ss : List Segment} → ¬ (s ∷ ss ≡ [])
cons_not_nil e = cc

-- The entry that is_empty tells from one with nodes.
module _ {E : Type 0} (l : Dlist E Segment) (laws : IsDlist l) where
  is_empty-cons :
      (entry : E) (s : Segment) (ss : List Segment)
      → l.nodes entry ≡ s ∷ ss
      → l.is_empty entry ≡ false
  is_empty-cons entry s ss e = elim (Bool-cases (l.is_empty entry)) [
    | inl is ↦ absurd (cons_not_nil (sym e ∙ (laws.is_empty_iff entry).0 is))
    | inr is ↦ is
  ]

  -- `mpegts_stream_free` frees every segment of the list once, in the order of the list, and leaves the
  -- list empty; the loop ends within one round more than there are segments.
  pub free_loop_lem :
      (ss : List Segment) (entry : E)
      → l.nodes entry ≡ ss
      → (last : E) × (free_loop l (suc (length ss)) entry ≡ done (last, ss)) × (l.nodes last ≡ [])
  unfolding free_loop
  free_loop_lem [] entry e = (entry, rw ((laws.is_empty_iff entry).1 e) refl, e)
  free_loop_lem (s ∷ ss) entry e =
      let (rest, taken, left) = laws.dequeue-cons entry s ss e in
      let (last, freed, empty) = free_loop_lem ss rest left in
      (last, rw (is_empty-cons entry s ss e, taken, freed) refl, empty)

-- The key frame marks and the counters are set independently of each other: the two loops commute.
pub fix_segment-set_cc :
    (pid other c : ℕ) (s : Segment)
    → fix_segment pid (set_cc other c s) ≡ set_cc other c (fix_segment pid s)
unfolding fix_segment set_cc
fix_segment-set_cc pid other c s = ground arith

next_cc-fix_segment :
    (pid other c : ℕ) (s : Segment) → next_cc other c (fix_segment pid s) ≡ next_cc other c s
unfolding fix_segment next_cc
next_cc-fix_segment pid other c s = ground arith

-- The order of `mpegts_stream_fix_keyframe` and `mpegts_stream_update_cc` does not matter to a list: each
-- loop leaves what the other one looks at.
pub fix_segment-update_cc_loop :
    (pid other : ℕ) (ss : List Segment) (c : ℕ)
    → map (fix_segment pid) (update_cc_loop other c ss).0
      ≡ (update_cc_loop other c (map (fix_segment pid) ss)).0
unfolding update_cc_loop
fix_segment-update_cc_loop pid other [] c = refl
fix_segment-update_cc_loop pid other (s ∷ ss) c =
    rw
      (
        fix_segment-set_cc pid other c s,
        next_cc-fix_segment pid other c s,
        fix_segment-update_cc_loop pid other ss (next_cc other c s),
      )
      refl
