-- ===== src/Hls/Update.antt =====
-- `hls_update` on streams as `hls_parse` reads them: the files that it writes.
use mpegts_reader.Common.{
  ℕ, ◌+◌, ◌≡◌, refl, sym, ap, ◌∙◌, subst, true, Bool-cases, inl, inr, List, [], ◌∷◌, ◌++◌, length,
  map, drop-length, All, Option, none, some, some-injective, arith,
}
use mathlib.Core.List.{append-nil}
use mpegts_reader.Common.Outcome.{done, ◌>>=◌, done-injective}
use mpegts_reader.Common.Outcome.Ends.{Ends-done}
use mpegts_reader.Dlist.{Dlist, IsDlist}
use mpegts_reader.Ts.{Segment}
use mpegts_reader.Stream.{Stream, Memory, read_opened, write_all, stream_write}
use mpegts_reader.Stream.ReadWrite.{Packet, IsPlain, IsClean, file_of, read_loop-file_of}
use mpegts_reader.Hls.{
  Playlist, Machine, same_path, opened, overwrite, hls_parse, write_stream, write_streams,
  with_streams, hls_update,
}
use mpegts_reader.Hls.Loaded.{Loaded, hls_parse-Ends}
use mpegts_reader.Hls.Lines.{IsLine, IsAmple, IsReadable, text, media, urls, hls_parse-media}

pub same_path_lem : (a b : List ℕ) → same_path a b ≡ true → a ≡ b
same_path_lem [] [] h = refl
same_path_lem [] (b ∷ bs) h = cc
same_path_lem (a ∷ path) [] h = cc
same_path_lem (a ∷ path) (b ∷ bs) h =
    let first : a ≡ b = ground (arith, h) in
    let others : same_path path bs ≡ true = ground (arith, h) in
    ap (λ c. c ∷ path) first ∙ ap (λ cs. b ∷ cs) (same_path_lem path bs others)

-- A file that is written over by what it holds.
pub overwrite_same :
    (file : List ℕ → Option (List ℕ)) (path bytes at : List ℕ)
    → file path ≡ some bytes
    → overwrite file (some path) (some bytes) at ≡ file at
overwrite_same file path bytes at h = elim (Bool-cases (same_path path at)) [
  | inl same ↦ rw same (sym h ∙ ap file (same_path_lem path at same))
  | inr other ↦ rw other refl
]

-- A file of packets with clear scrambling bits and no adaptation field.
pub record IsPlainFile (machine : Machine) (path : List ℕ) : Type 0 where
  pub packets : List Packet
  pub held : machine.file path ≡ some (file_of packets)
  pub plain : All IsPlain packets

module _ {E F : Type 0} (l : Dlist E Segment) (f : Dlist F (Stream E)) where
  -- A stream whose segments are written as the bytes that its file holds.
  record Faithful (file : List ℕ → Option (List ℕ)) (stream : Stream E) : Type 0 where
    path : List ℕ
    bytes : List ℕ
    url : stream.url ≡ some path
    held : file path ≡ some bytes
    writes : write_all (l.nodes stream.segment_list) ≡ done (l.nodes stream.segment_list, bytes)

  stream_write_lem :
      (stream : Stream E) (bytes : List ℕ)
      → write_all (l.nodes stream.segment_list) ≡ done (l.nodes stream.segment_list, bytes)
      → (written : Stream E) × (stream_write l (some bytes) stream ≡ done (written, some bytes))
  unfolding stream_write
  stream_write_lem stream bytes e =
      let entry = l.with_nodes stream.segment_list (l.nodes stream.segment_list) in
      (
        record stream { segment_list = entry },
        rw (stream_write, e, drop-length bytes, append-nil bytes) refl,
      )

  write_stream_lem :
      (file now : List ℕ → Option (List ℕ)) (stream : Stream E)
      → Faithful file stream
      → ((at : List ℕ) → now at ≡ file at)
      → (written : Stream E) × (after : List ℕ → Option (List ℕ)) × (write_stream l f now stream
          ≡ done (written, after))
        × ((at : List ℕ) → after at ≡ file at)
  unfolding write_stream
  write_stream_lem file now stream h same =
      let (written, e) = stream_write_lem stream h.bytes h.writes in
      (
        written,
        overwrite now (some h.path) (some h.bytes),
        ap (λ u. stream_write l (opened now u) stream >>= (λ r. done (r.0, overwrite now u r.1)))
              h.url
            ∙ rw (same h.path, h.held, e) refl,
        λ at. overwrite_same now h.path h.bytes at (same h.path ∙ h.held) ∙ same at,
      )

  write_streams_lem :
      (file now : List ℕ → Option (List ℕ)) (streams : List (Stream E))
      → All (Faithful file) streams
      → ((at : List ℕ) → now at ≡ file at)
      → (written : List (Stream E)) × (after : List ℕ → Option (List ℕ)) × (write_streams l f now
            streams
          ≡ done (written, after))
        × ((at : List ℕ) → after at ≡ file at)
  unfolding write_streams
  write_streams_lem file now [] h same = ([], now, refl, same)
  write_streams_lem file now (s ∷ ss) (h, hs) same =
      let (written, mid, e, kept) = write_stream_lem file now s h same in
      let (rest, after, es, keeps) = write_streams_lem file mid ss hs kept in
      (written ∷ rest, after, rw (e, es) refl, keeps)

  module _ (machine : Machine) (memory : ℕ → Memory) (laws : IsDlist l) (f_laws : IsDlist f)
      (ample : IsAmple l f machine memory) (clean : (k : ℕ) → IsClean (memory k)) where
    read_opened-IsPlainFile :
        (k : ℕ) (path : List ℕ) (h : IsPlainFile machine path)
        → (entry : E) × (read_opened l (memory k) (machine.file path) ≡ done entry)
          × (write_all (l.nodes entry) ≡ done (l.nodes entry, file_of h.packets))
    unfolding read_opened
    read_opened-IsPlainFile k path h =
        let ps = h.packets in
        let (entry, segments, er, en, ew) =
          read_loop-file_of l laws (memory k) (clean k) ps (length (file_of ps) + 1) 0 l.entry_init
            h.plain (omega arith) in
        let there : segments ≡ l.nodes entry =
          sym (en ∙ ap (λ ss. ss ++ segments) laws.nodes-entry_init) in
        (entry, rw h.held er, subst (λ ss. write_all ss ≡ done (ss, file_of ps)) there ew)

    -- A path of such a file.
    IsPlainUrl : Option (List ℕ) → Type 0
    IsPlainUrl none = ⊥
    IsPlainUrl (some path) = IsPlainFile machine path

    plain_of :
        (url : Option (List ℕ)) (path : List ℕ)
        → url ≡ some path
        → IsPlainUrl url
        → IsPlainFile machine path
    unfolding IsPlainUrl
    plain_of none path e h = absurd h
    plain_of (some other) path e h = subst (IsPlainFile machine) (some-injective _ _ e) h

    Loaded-Faithful :
        (s : Stream E) → Loaded l f machine s → IsPlainUrl s.url → Faithful machine.file s
    Loaded-Faithful s loaded h =
        let plain = plain_of s.url loaded.path loaded.url h in
        let (entry, e, writes) = read_opened-IsPlainFile loaded.turn loaded.path plain in
        let same : loaded.memory ≡ memory loaded.turn =
          some-injective loaded.memory (memory loaded.turn)
            (sym loaded.allocated ∙ ample.stream_memory loaded.turn) in
        let is : entry ≡ s.segment_list =
          done-injective entry s.segment_list (
            sym e
            ∙ ap (λ m. read_opened l m (machine.file loaded.path)) (sym same)
            ∙ loaded.read) in
        record {
          path = loaded.path;
          bytes = file_of plain.packets;
          url = loaded.url;
          held = plain.held;
          writes =
              subst (λ x. write_all (l.nodes x) ≡ done (l.nodes x, file_of plain.packets)) is
                writes;
        }

    streams-Faithful :
        (streams : List (Stream E))
        → All (Loaded l f machine) streams
        → All IsPlainUrl (map (λ s. s.url) streams)
        → All (Faithful machine.file) streams
    streams-Faithful [] loaded plain = tt
    streams-Faithful (s ∷ ss) (is, loaded) (p, plain) =
        (Loaded-Faithful s is p, streams-Faithful ss loaded plain)

    urls-IsPlainUrl :
        (paths : List (List ℕ)) → All (IsPlainFile machine) paths → All IsPlainUrl (map some paths)
    unfolding IsPlainUrl
    urls-IsPlainUrl [] h = tt
    urls-IsPlainUrl (path ∷ paths) (h, hs) = (h, urls-IsPlainUrl paths hs)

    media-IsReadable :
        (paths : List (List ℕ))
        → All (IsPlainFile machine) paths
        → All (IsReadable l f machine memory) paths
    media-IsReadable [] h = tt
    media-IsReadable (path ∷ paths) (h, hs) = (
      λ k. (let (entry, e, writes) = read_opened-IsPlainFile k path h in (entry, e)),
      media-IsReadable paths hs,
    )

    -- A playlist without streams whose file has lines without NUL that fit the buffer, and whose media are
    -- files of packets with clear scrambling bits and no adaptation field, is parsed by `hls_parse` into a
    -- stream for each of them, and `hls_update` then returns with every file as it was: if the memory
    -- suffices and that of the segments says neither `has_pcr` nor `rand_acc`.
    pub hls_update-hls_parse :
        (playlist : Playlist F) (url : List ℕ) (lines : List (List ℕ))
        → playlist.url ≡ some url
        → f.nodes playlist.sublist ≡ []
        → machine.file url ≡ some (text lines)
        → All IsLine lines
        → All (IsPlainFile machine) (media lines)
        → (parsed updated : Playlist F) × (file : List ℕ → Option (List ℕ)) × (hls_parse l f machine
              playlist
            ≡ done parsed)
          × (urls f parsed.sublist ≡ map some (media lines))
          × (hls_update l f machine.file parsed ≡ done (updated, file))
          × ((path : List ℕ) → file path ≡ machine.file path)
    unfolding hls_update
    hls_update-hls_parse playlist url lines named empty found is_lines plain =
        let (parsed, e, adds, is_url) =
          hls_parse-media l f machine memory f_laws ample playlist url lines named found is_lines
            (media-IsReadable (media lines) plain) in
        let all : urls f parsed.sublist ≡ map some (media lines) =
          adds ∙ ap (λ ss. map (λ s. s.url) ss ++ map some (media lines)) empty in
        let loaded =
          Ends-done (λ (p : Playlist F). All (Loaded l f machine) (f.nodes p.sublist))
            (hls_parse l f machine playlist)
            (hls_parse-Ends l f machine f_laws playlist
              (subst (All (Loaded l f machine)) (sym empty) tt))
            e in
        let faithful =
          streams-Faithful (f.nodes parsed.sublist) loaded
            (subst (All IsPlainUrl) (sym all) (urls-IsPlainUrl (media lines) plain)) in
        let (written, file, ew, same) =
          write_streams_lem machine.file machine.file (f.nodes parsed.sublist) faithful
            (λ at. refl) in
        (parsed, with_streams l f parsed written, file, e, all, rw (hls_update, ew) refl, same)
