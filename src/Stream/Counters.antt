-- ===== src/Stream/Counters.antt =====
-- The continuity counters: `mpegts_stream_update_cc` and `mpegts_stream_get_last_cc`.
use mpegts_reader.Common.{
  ℕ, zero, suc, ◌+◌, ◌%◌, ◌<◌, ◌≡◌, refl, ap, ◌∙◌, List, [], ◌∷◌, map, length, arith, if◌then◌else◌,
  sym,
}
use mpegts_reader.Common.Words.{u8}
use mpegts_reader.Common.Bits.Masks.{and_0x0f}
use mpegts_reader.Dlist.{Dlist, IsDlist}
use mpegts_reader.Ts.{Segment}
use mpegts_reader.Stream.{
  Stream, has_pid, last_cc, set_cc, next_cc, update_cc_loop, update_cc, get_last_cc,
}

-- The counters of the packets of `pid`, in their order.
unfoldable pub counters_of : ℕ → List Segment → List ℕ
counters_of pid [] = []
counters_of pid (s ∷ ss) =
    if has_pid pid s then s.header.continuity_counter ∷ counters_of pid ss else counters_of pid ss

-- `n` counters that go on from `c`, by one and modulo 16.
unfoldable pub count_from : ℕ → ℕ → List ℕ
count_from c zero = []
count_from c (suc n) = (c % 16) ∷ count_from (c + 1) n

-- A segment without its counter, if it is of `pid`.
abbrev pub without_counter : ℕ → Segment → Segment
without_counter pid s =
    if has_pid pid s then record s { header = record s.header { continuity_counter = 0 } } else s

pub count_from_mod : (n c d : ℕ) → c % 16 ≡ d % 16 → count_from c n ≡ count_from d n
unfolding count_from
count_from_mod zero c d e = refl
count_from_mod (suc n) c d e = ground (arith, count_from_mod n (c + 1) (d + 1) (omega arith))

abbrev counted : ℕ → List Segment → ℕ
counted pid ss = length (counters_of pid ss)

pub next_cc_value :
    (pid c : ℕ) (s : Segment)
    → c < 16
    → next_cc pid c s ≡ (if has_pid pid s then (c + 1) % 16 else c)
unfolding next_cc
next_cc_value pid c s h = ground (arith, and_0x0f (u8 (c + 1)), and_0x0f c)

pub next_cc_lt : (pid c : ℕ) (s : Segment) → next_cc pid c s < 16
unfolding next_cc
next_cc_lt pid c s = omega (arith, and_0x0f (if has_pid pid s then u8 (c + 1) else c))

pub counters_of-update_cc_loop :
    (pid : ℕ) (ss : List Segment) (c : ℕ)
    → c < 16
    → counters_of pid (update_cc_loop pid c ss).0 ≡ count_from c (length (counters_of pid ss))
unfolding update_cc_loop counters_of count_from set_cc
counters_of-update_cc_loop pid [] c h = refl
counters_of-update_cc_loop pid (s ∷ ss) c h =
    let numbered = counters_of-update_cc_loop pid ss (next_cc pid c s) (next_cc_lt pid c s) in
    ground (
      arith,
      numbered,
      next_cc_value pid c s h,
      count_from_mod (length (counters_of pid ss)) (next_cc pid c s) (c + 1),
    )

pub update_cc_loop_last :
    (pid : ℕ) (ss : List Segment) (c : ℕ)
    → c < 16
    → (update_cc_loop pid c ss).1 ≡ (c + length (counters_of pid ss)) % 16
unfolding update_cc_loop counters_of
update_cc_loop_last pid [] c h = omega arith
update_cc_loop_last pid (s ∷ ss) c h =
    let last = update_cc_loop_last pid ss (next_cc pid c s) (next_cc_lt pid c s) in
    ground (arith, last, next_cc_value pid c s h)

pub without_counter-update_cc_loop :
    (pid : ℕ) (ss : List Segment) (c : ℕ)
    → map (without_counter pid) (update_cc_loop pid c ss).0 ≡ map (without_counter pid) ss
unfolding update_cc_loop set_cc
without_counter-update_cc_loop pid [] c = refl
without_counter-update_cc_loop pid (s ∷ ss) c =
    ground (arith, without_counter-update_cc_loop pid ss (next_cc pid c s))

-- The loop of `get_last_cc` starts with a counter that does not count when there is a packet of `pid`.
last_cc_start :
    (pid : ℕ) (ss : List Segment) (c d : ℕ)
    → 0 < length (counters_of pid ss)
    → last_cc pid c ss ≡ last_cc pid d ss
unfolding last_cc counters_of
last_cc_start pid [] c d h = omega (arith, h)
last_cc_start pid (s ∷ ss) c d h = ground (arith, h, last_cc_start pid ss c d)

last_cc-update_cc_loop_lem :
    (pid : ℕ) (ss : List Segment) (c d : ℕ)
    → c < 16
    → (d + 1) % 16 ≡ c
    → (last_cc pid d (update_cc_loop pid c ss).0 + 1) % 16 ≡ (update_cc_loop pid c ss).1
unfolding last_cc update_cc_loop set_cc
last_cc-update_cc_loop_lem pid [] c d h e = e
last_cc-update_cc_loop_lem pid (s ∷ ss) c d h e = ground (
  arith,
  next_cc_value pid c s h,
  last_cc-update_cc_loop_lem pid ss (next_cc pid c s) c (next_cc_lt pid c s),
  last_cc-update_cc_loop_lem pid ss (next_cc pid c s) d (next_cc_lt pid c s),
)

counted_positive :
    (pid : ℕ) (ss : List Segment) (c : ℕ)
    → c < 16
    → 0 < length (counters_of pid ss)
    → 0 < length (counters_of pid (update_cc_loop pid c ss).0)
unfolding counters_of update_cc_loop set_cc
counted_positive pid [] c h p = p
counted_positive pid (s ∷ ss) c h p =
    ground (arith, p, counted_positive pid ss (next_cc pid c s) (next_cc_lt pid c s))

last_cc-update_cc_loop :
    (pid : ℕ) (ss : List Segment) (c d : ℕ)
    → c < 16
    → 0 < length (counters_of pid ss)
    → (last_cc pid d (update_cc_loop pid c ss).0 + 1) % 16 ≡ (update_cc_loop pid c ss).1
last_cc-update_cc_loop pid ss c d h p =
    let after : 0 < length (counters_of pid (update_cc_loop pid c ss).0) =
      counted_positive pid ss c h p in
    omega (
      arith,
      last_cc_start pid (update_cc_loop pid c ss).0 d (c + 15) after,
      last_cc-update_cc_loop_lem pid ss c (c + 15) h (omega arith),
    )

length-update_cc_loop :
    (pid : ℕ) (ss : List Segment) (c : ℕ) → length (update_cc_loop pid c ss).0 ≡ length ss
unfolding update_cc_loop
length-update_cc_loop pid [] c = refl
length-update_cc_loop pid (s ∷ ss) c = ap suc (length-update_cc_loop pid ss (next_cc pid c s))

module _ {E : Type 0} (l : Dlist E Segment) where
  -- The counters of the packets of `pid`, and the packets but for these.
  abbrev pub counters : ℕ → Stream E → List ℕ
  counters pid stream = counters_of pid (l.nodes stream.segment_list)

  abbrev pub uncounted : ℕ → Stream E → List Segment
  uncounted pid stream = map (without_counter pid) (l.nodes stream.segment_list)

module _ {E : Type 0} (l : Dlist E Segment) (laws : IsDlist l) where
  -- The list that `update_cc` leaves.
  pub nodes-update_cc :
      (stream : Stream E) (pid c : ℕ)
      → l.nodes (update_cc l stream pid c).0.segment_list
        ≡ (update_cc_loop pid c (l.nodes stream.segment_list)).0
  unfolding update_cc
  nodes-update_cc stream pid c =
      laws.nodes-with_nodes _ _ (length-update_cc_loop pid (l.nodes stream.segment_list) c)

  returned :
      (stream : Stream E) (pid c : ℕ)
      → (update_cc l stream pid c).1 ≡ (update_cc_loop pid c (l.nodes stream.segment_list)).1
  unfolding update_cc
  returned stream pid c = refl

  -- From a counter below 16, `mpegts_stream_update_cc` numbers the packets of `pid` in the order of the
  -- list without a gap, modulo 16; it returns the counter for the next packet of `pid`; and it changes
  -- no packet of another PID and nothing but the counter in the packets of `pid`.
  pub update_cc_numbers :
      (stream : Stream E) (pid c : ℕ)
      → c < 16
      → (counters l pid (update_cc l stream pid c).0
          ≡ count_from c (length (counters l pid stream)))
        × ((update_cc l stream pid c).1 ≡ (c + length (counters l pid stream)) % 16)
        × (uncounted l pid (update_cc l stream pid c).0 ≡ uncounted l pid stream)
  update_cc_numbers stream pid c h =
      let ss = l.nodes stream.segment_list in
      let after = nodes-update_cc stream pid c in
      (
        ap (counters_of pid) after ∙ counters_of-update_cc_loop pid ss c h,
        returned stream pid c ∙ update_cc_loop_last pid ss c h,
        ap (map (without_counter pid)) after ∙ without_counter-update_cc_loop pid ss c,
      )

  -- After `mpegts_stream_update_cc` from a counter below 16, on a stream with a packet of `pid`,
  -- `mpegts_stream_get_last_cc` is the counter just in front of the one that was returned, modulo 16: a
  -- stream that is numbered on from the returned counter goes on without a gap.
  pub get_last_cc-update_cc :
      (stream : Stream E) (pid c : ℕ)
      → c < 16
      → 0 < length (counters l pid stream)
      → (get_last_cc l (update_cc l stream pid c).0 pid + 1) % 16 ≡ (update_cc l stream pid c).1
  unfolding get_last_cc
  get_last_cc-update_cc stream pid c h p =
      ap (λ ss. (last_cc pid 0 ss + 1) % 16) (nodes-update_cc stream pid c)
      ∙ last_cc-update_cc_loop pid (l.nodes stream.segment_list) c 0 h p
      ∙ sym (returned stream pid c)
