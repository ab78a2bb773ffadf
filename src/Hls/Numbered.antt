-- ===== src/Hls/Numbered.antt =====
-- `hls_fix_discontinuity` between `hls_parse` and `hls_update`: what becomes of the files.
use mpegts_reader.Common.{
  ℕ, zero, suc, ◌+◌, ◌<◌, ◌≡◌, refl, sym, ap, ◌∙◌, subst, List, [], ◌∷◌, ◌++◌, length, length-map,
  map, All, Option, none, some, some-injective, arith,
}
use mpegts_reader.Common.Outcome.{done, ◌>>=◌, done-injective}
use mpegts_reader.Common.Outcome.Ends.{Ends-done}
use mpegts_reader.Dlist.{Dlist, IsDlist}
use mpegts_reader.Ts.{Segment}
use mpegts_reader.Stream.{Stream, Memory, read_opened, stream_write, update_cc}
use mpegts_reader.Stream.ReadWrite.{file_of}
use mpegts_reader.Stream.Settled.{IsBlank, AreSegments, read_opened-AreSegments}
use mpegts_reader.Stream.Numbered.{
  count_packets, Holds, update_cc-Holds, write_over, length-number_packets,
}
use mpegts_reader.Hls.{
  Playlist, Machine, opened, overwrite, playlist_init, playlist_size, hls_parse, update_all,
  hls_fix_discontinuity, write_stream, write_streams, with_streams, hls_update,
}
use mpegts_reader.Hls.Loaded.{Loaded, hls_parse-Ends}
use mpegts_reader.Hls.Lines.{
  IsLine, IsAmple, IsReadable, text, media, urls, copy_url_lem, hls_parse-media,
}
use mpegts_reader.Hls.Discontinuity.{nodes-hls_fix_discontinuity}
use mpegts_reader.Hls.Media.{
  Medium, IsStableMedium, number_media, written_over, number_media_mod, HasLength, overwrite_every,
}

module _ {E F : Type 0} (l : Dlist E Segment) (laws : IsDlist l) (f : Dlist F (Stream E)) where
  -- The streams of media.
  abbrev AreMedia : List Medium → List (Stream E) → Type 0
  AreMedia [] [] = Unit
  AreMedia [] (s ∷ ss) = ⊥
  AreMedia (m ∷ ms) [] = ⊥
  AreMedia (m ∷ ms) (s ∷ ss) = (s.url ≡ some m.path) × Holds l laws m.packets s × AreMedia ms ss

  update_all-AreMedia :
      (c : ℕ) (ms : List Medium) (ss : List (Stream E))
      → c < 16
      → AreMedia ms ss
      → AreMedia (number_media c ms) (update_all l f c ss)
  unfolding update_all number_media
  update_all-AreMedia c [] [] h all = tt
  update_all-AreMedia c [] (s ∷ ss) h all = absurd all
  update_all-AreMedia c (m ∷ ms) [] h all = absurd all
  update_all-AreMedia c (m ∷ ms) (s ∷ ss) h (named, holds, all) =
      let (numbered, last) = update_cc-Holds l laws 0x100 c m.packets s h holds in
      let n = (update_cc l s 0x100 c).1 in
      let k = count_packets 0x100 m.packets in
      let below : n < 16 = omega (arith, last) in
      let same = number_media_mod n (c + k) ms (omega (arith, last)) in
      (
        named,
        numbered,
        subst (λ ns. AreMedia ns (update_all l f n ss)) same
            (update_all-AreMedia n ms ss below all),
      )

  write_streams-AreMedia :
      (ms : List Medium) (ss : List (Stream E)) (file : List ℕ → Option (List ℕ))
      → AreMedia ms ss
      → All (HasLength file) ms
      → (written : List (Stream E)) × (write_streams l f file ss
          ≡ done (written, written_over ms file))
  unfolding write_streams write_stream written_over
  write_streams-AreMedia [] [] file all lengths = ([], refl)
  write_streams-AreMedia [] (s ∷ ss) file all lengths = absurd all
  write_streams-AreMedia (m ∷ ms) [] file all lengths = absurd all
  write_streams-AreMedia (m ∷ ms) (s ∷ ss) file (named, holds, all) ((old, at, e), lengths) =
      let (w, ew) = write_over l laws m.packets s old e holds in
      let after = overwrite file (some m.path) (some (file_of m.packets)) in
      let (rest, er) =
        write_streams-AreMedia ms ss after all (overwrite_every file m ms (old, at, e) lengths) in
      let one : write_stream l f file s ≡ done (w, after) =
        ap (λ u. stream_write l (opened file u) s >>= (λ r. done (r.0, overwrite file u r.1))) named
        ∙ rw (at, ew) refl in
      (w ∷ rest, rw (one, er) refl)

  number_media-HasLength :
      (file : List ℕ → Option (List ℕ)) (c : ℕ) (ms : List Medium)
      → All (HasLength file) ms
      → All (HasLength file) (number_media c ms)
  unfolding number_media
  number_media-HasLength file c [] h = tt
  number_media-HasLength file c (m ∷ ms) ((old, at, e), hs) = (
    (old, at, length-number_packets l laws 0x100 c m.packets ∙ e),
    number_media-HasLength file (c + count_packets 0x100 m.packets) ms hs,
  )

  module _ (machine : Machine) (memory : ℕ → Memory) (f_laws : IsDlist f)
      (ample : IsAmple l f machine memory) (blank : (k : ℕ) → IsBlank (memory k)) where
    media-HasLength :
        (ms : List Medium) → All (IsStableMedium machine) ms → All (HasLength machine.file) ms
    media-HasLength [] h = tt
    media-HasLength (m ∷ ms) (h, hs) = ((file_of m.packets, h.held, refl), media-HasLength ms hs)

    read_medium :
        (k : ℕ) (m : Medium)
        → IsStableMedium machine m
        → (entry : E) × (read_opened l (memory k) (machine.file m.path) ≡ done entry)
          × AreSegments m.packets (l.nodes entry)
    read_medium k m h =
        let (entry, e, all) =
          read_opened-AreSegments l laws (memory k) (blank k) m.packets h.stable in
        (entry, rw h.held e, all)

    media-IsReadable :
        (ms : List Medium)
        → All (IsStableMedium machine) ms
        → All (IsReadable l f machine memory) (map (λ m. m.path) ms)
    media-IsReadable [] h = tt
    media-IsReadable (m ∷ ms) (h, hs) =
        (λ k. (let (entry, e, all) = read_medium k m h in (entry, e)), media-IsReadable ms hs)

    Loaded-Holds :
        (m : Medium) (s : Stream E)
        → IsStableMedium machine m
        → Loaded l f machine s
        → s.url ≡ some m.path
        → Holds l laws m.packets s
    Loaded-Holds m s h loaded named =
        let (entry, e, all) = read_medium loaded.turn m h in
        let same_memory : loaded.memory ≡ memory loaded.turn =
          some-injective loaded.memory (memory loaded.turn)
            (sym loaded.allocated ∙ ample.stream_memory loaded.turn) in
        let one_path : loaded.path ≡ m.path = some-injective _ _ (sym loaded.url ∙ named) in
        let is : entry ≡ s.segment_list = done-injective entry s.segment_list (
          sym e
          ∙ ap (λ p. read_opened l (memory loaded.turn) (machine.file p)) (sym one_path)
          ∙ ap (λ x. read_opened l x (machine.file loaded.path)) (sym same_memory)
          ∙ loaded.read) in
        subst (λ x. AreSegments m.packets (l.nodes x)) is all

    Loaded-AreMedia :
        (ms : List Medium) (ss : List (Stream E))
        → All (IsStableMedium machine) ms
        → All (Loaded l f machine) ss
        → map (λ s. s.url) ss ≡ map some (map (λ m. m.path) ms)
        → AreMedia ms ss
    Loaded-AreMedia [] [] h loaded e = tt
    Loaded-AreMedia [] (s ∷ ss) h loaded e = cc
    Loaded-AreMedia (m ∷ ms) [] h loaded e = cc
    Loaded-AreMedia (m ∷ ms) (s ∷ ss) (h, hs) (is, loaded) e =
        let named : s.url ≡ some m.path = cc in
        let others : map (λ s. s.url) ss ≡ map some (map (λ m. m.path) ms) = cc in
        (named, Loaded-Holds m s h is named, Loaded-AreMedia ms ss hs loaded others)

    update_numbered :
        (playlist : Playlist F) (url : List ℕ) (lines : List (List ℕ)) (ms : List Medium)
        (pids : List ℕ) (pid_count : ℕ)
        → playlist.url ≡ some url
        → f.nodes playlist.sublist ≡ []
        → machine.file url ≡ some (text lines)
        → All IsLine lines
        → media lines ≡ map (λ m. m.path) ms
        → All (IsStableMedium machine) ms
        → 0 < pid_count
        → (parsed updated : Playlist F) × (hls_parse l f machine playlist ≡ done parsed)
          × (length (urls f parsed.sublist) ≡ length ms)
          × (hls_update l f machine.file (hls_fix_discontinuity l f parsed pids pid_count)
              ≡ done (updated, written_over (number_media 0 ms) machine.file))
    unfolding hls_update
    update_numbered playlist url lines ms pids zero named empty found is_lines names stable
          some_pid =
        absurd (omega (arith, some_pid))
    update_numbered playlist url lines ms pids (suc count) named empty found is_lines names stable
          some_pid =
        let readable =
          subst (All (IsReadable l f machine memory)) (sym names) (media-IsReadable ms stable) in
        let (parsed, e, adds, is_url) =
          hls_parse-media l f machine memory f_laws ample playlist url lines named found is_lines
            readable in
        let all : urls f parsed.sublist ≡ map some (map (λ m. m.path) ms) =
          adds
          ∙ ap (λ ss. map (λ s. s.url) ss ++ map some (media lines)) empty
          ∙ ap (map some) names in
        let loaded =
          Ends-done (λ (p : Playlist F). All (Loaded l f machine) (f.nodes p.sublist))
            (hls_parse l f machine playlist)
            (hls_parse-Ends l f machine f_laws playlist
              (subst (All (Loaded l f machine)) (sym empty) tt))
            e in
        let numbered =
          update_all-AreMedia 0 ms (f.nodes parsed.sublist) (omega arith)
            (Loaded-AreMedia ms (f.nodes parsed.sublist) stable loaded all) in
        let fixed = nodes-hls_fix_discontinuity l laws f f_laws parsed pids count in
        let (written, ew) =
          write_streams-AreMedia (number_media 0 ms)
            (f.nodes (hls_fix_discontinuity l f parsed pids (suc count)).sublist) machine.file
            (subst (AreMedia (number_media 0 ms)) (sym fixed) numbered)
            (number_media-HasLength machine.file 0 ms (media-HasLength ms stable)) in
        (
          parsed,
          with_streams l f (hls_fix_discontinuity l f parsed pids (suc count)) written,
          e,
          ap length all ∙ length-map some (map (λ m. m.path) ms) ∙ length-map (λ m. m.path) ms,
          rw (hls_update, ew) refl,
        )

    -- `hls_playlist_init` without a parent gives a playlist. If its file has lines without NUL that fit the
    -- buffer, and its media are files of stable packets, `hls_parse` returns with as many streams as media;
    -- after `hls_fix_discontinuity` with at least one PID `hls_update` returns, and the files are then those
    -- from before, but that each medium is written over with its packets of PID 0x100 numbered, from 0 on
    -- through the media in their order, modulo 16: if the memory suffices and that of the segments is
    -- blank.
    pub hls_update-hls_fix_discontinuity :
        (url : List ℕ) (lines : List (List ℕ)) (ms : List Medium) (pids : List ℕ) (pid_count : ℕ)
        → machine.file url ≡ some (text lines)
        → All IsLine lines
        → media lines ≡ map (λ m. m.path) ms
        → All (IsStableMedium machine) ms
        → 0 < pid_count
        → (playlist parsed updated : Playlist F) × (playlist_init l f machine.usable none url
            ≡ done (playlist, none))
          × (hls_parse l f machine playlist ≡ done parsed)
          × (playlist_size l f parsed ≡ length ms)
          × (hls_update l f machine.file (hls_fix_discontinuity l f parsed pids pid_count)
              ≡ done (updated, written_over (number_media 0 ms) machine.file))
    unfolding playlist_init playlist_size
    hls_update-hls_fix_discontinuity url lines ms pids pid_count found is_lines names stable
          some_pid =
        let playlist : Playlist F = record { sublist = f.entry_init; url = some url } in
        let (parsed, updated, e, many, writes) =
          update_numbered playlist url lines ms pids pid_count refl f_laws.nodes-entry_init found
            is_lines names stable some_pid in
        (
          playlist,
          parsed,
          updated,
          rw (playlist_init, copy_url_lem l f machine memory url ample) refl,
          e,
          f_laws.size-nodes parsed.sublist
              ∙ sym (length-map (λ s. s.url) (f.nodes parsed.sublist))
              ∙ many,
          writes,
        )
