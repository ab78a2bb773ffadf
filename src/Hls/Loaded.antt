-- ===== src/Hls/Loaded.antt =====
-- The streams that `hls_parse` makes: each is what `mpegts_stream_read_segment` reads of its file.
use mpegts_reader.Common.{
  ℕ, zero, suc, ◌+◌, ◌≡◌, refl, sym, subst, List, [], ◌∷◌, length, All, All-append_one, Option,
  none, some,
}
use mpegts_reader.Common.Outcome.{done, exited, fault}
use mpegts_reader.Common.Outcome.Ends.{Ends, Ends-same, if-Ends, >>=-Ends, >>=-Ends_then}
use mpegts_reader.Dlist.{Dlist, IsDlist}
use mpegts_reader.Ts.{Segment}
use mpegts_reader.Stream.{
  Stream, Memory, enomem, copy_url, stream_init, read_opened, read_from, read_segment,
}
use mpegts_reader.Hls.{
  Playlist, Machine, newline, until, has_char, fgets, line_size, load_stream, load_media,
  parse_line, parse_loop, parse_opened, hls_parse,
}

module _ {E F : Type 0} (l : Dlist E Segment) (f : Dlist F (Stream E)) where
  -- A stream as `load_media` makes it.
  pub record Loaded (machine : Machine) (stream : Stream E) : Type 0 where
    pub turn : ℕ
    pub memory : Memory
    pub path : List ℕ
    pub allocated : machine.stream_memory turn ≡ some memory
    pub url : stream.url ≡ some path
    pub read : read_opened l memory (machine.file path) ≡ done stream.segment_list

  module _ (machine : Machine) (f_laws : IsDlist f) where
    abbrev AllLoaded : F → Type 0
    AllLoaded sublist = All (Loaded machine) (f.nodes sublist)

    -- A stream that is not read yet, with its path.
    stream_init-Ends :
        (path : List ℕ)
        → Ends (λ s. (url : List ℕ) × (s.url ≡ some url)) (stream_init l machine.usable path)
    unfolding stream_init
    stream_init-Ends path =
        >>=-Ends (λ (s : Stream E). (url : List ℕ) × (s.url ≡ some url))
          (copy_url machine.usable path)
          (λ copy. done (record { segment_list = l.entry_init; url = some copy }))
          λ copy. (copy, refl)

    read_segment-Ends :
        (k : ℕ) (memory : Memory) (stream : Stream E) (url : List ℕ)
        → machine.stream_memory k ≡ some memory
        → stream.url ≡ some url
        → Ends (Loaded machine) (read_segment l machine.file memory stream)
    unfolding read_segment read_from
    read_segment-Ends k memory stream url allocated named =
        subst (λ u. Ends (Loaded machine) (read_from l machine.file memory stream u)) (sym named)
          (>>=-Ends_then (Loaded machine)
            (λ entry. read_opened l memory (machine.file url) ≡ done entry)
            (read_opened l memory (machine.file url))
            (λ entry. done (record stream { segment_list = entry }))
            (Ends-same (read_opened l memory (machine.file url)))
            λ entry is. record {
              turn = k;
              memory = memory;
              path = url;
              allocated = allocated;
              url = named;
              read = is;
            })

    load_stream-Ends :
        (k : ℕ) (memory : Memory) (path : List ℕ) (sublist : F)
        → machine.stream_memory k ≡ some memory
        → AllLoaded sublist
        → Ends AllLoaded (load_stream l f machine memory path sublist)
    load_stream-Ends k memory path sublist allocated h =
        >>=-Ends_then AllLoaded (λ (s : Stream E). (url : List ℕ) × (s.url ≡ some url))
          (stream_init l machine.usable path) _ (stream_init-Ends path)
          λ fresh (url, named).
            >>=-Ends_then AllLoaded (Loaded machine) (read_segment l machine.file memory fresh)
              (λ s. done (f.put_tail sublist s))
              (read_segment-Ends k memory fresh url allocated named)
              λ s is.
                subst (All (Loaded machine)) (sym (f_laws.nodes-put_tail sublist s))
                  (All-append_one (Loaded machine) (f.nodes sublist) s h is)

    load_media-Ends :
        (k : ℕ) (path : List ℕ) (sublist : F) (memory : Option Memory)
        → machine.stream_memory k ≡ memory
        → AllLoaded sublist
        → Ends AllLoaded (elim memory [
          | none ↦ exited enomem
          | some m ↦ load_stream l f machine m (until newline path) sublist
        ])
    load_media-Ends k path sublist none allocated h = tt
    load_media-Ends k path sublist (some m) allocated h =
        load_stream-Ends k m (until newline path) sublist allocated h

    parse_line-Ends :
        (k : ℕ) (cb : List ℕ) (sublist : F)
        → AllLoaded sublist
        → Ends (λ r. AllLoaded r.0) (parse_line l f machine k cb sublist)
    unfolding load_media
    parse_line-Ends k cb sublist h =
        if-Ends (λ (r : F × ℕ). AllLoaded r.0) (has_char 35 cb) (done (sublist, k)) _ h
          (>>=-Ends_then (λ (r : F × ℕ). AllLoaded r.0) AllLoaded
            (load_media l f machine k cb sublist) (λ longer. done (longer, k + 1))
            (load_media-Ends k cb sublist (machine.stream_memory k) refl h) λ longer is. is)

    parse_loop-Ends :
        (fuel k : ℕ) (fp : List ℕ) (sublist : F)
        → AllLoaded sublist
        → Ends AllLoaded (parse_loop l f fuel machine k fp sublist)
    unfolding parse_loop
    parse_loop-Ends zero k fp sublist h = tt
    parse_loop-Ends (suc fuel) k [] sublist h = h
    parse_loop-Ends (suc fuel) k (b ∷ bs) sublist h =
        let read = fgets line_size (b ∷ bs) in
        >>=-Ends_then AllLoaded (λ (r : F × ℕ). AllLoaded r.0)
          (parse_line l f machine k (until 0 read.0) sublist)
          (λ r. parse_loop l f fuel machine r.1 read.1 r.0)
          (parse_line-Ends k (until 0 read.0) sublist h)
          λ r is. parse_loop-Ends fuel r.1 read.1 r.0 is

    parse_opened-Ends :
        (playlist : Playlist F) (file : Option (List ℕ))
        → AllLoaded playlist.sublist
        → Ends (λ parsed. AllLoaded parsed.sublist) (parse_opened l f machine playlist file)
    parse_opened-Ends playlist none h = h
    parse_opened-Ends playlist (some fp) h =
        >>=-Ends_then (λ (parsed : Playlist F). AllLoaded parsed.sublist) AllLoaded
          (parse_loop l f (length fp + 1) machine 0 fp playlist.sublist)
          (λ sublist. done (record playlist { sublist = sublist }))
          (parse_loop-Ends (length fp + 1) 0 fp playlist.sublist h) λ sublist is. is

    parse_url-Ends :
        (playlist : Playlist F) (url : Option (List ℕ))
        → AllLoaded playlist.sublist
        → Ends
            (λ (parsed : Playlist F). AllLoaded parsed.sublist)
            (elim url [
              | none ↦ fault
              | some path ↦ parse_opened l f machine playlist (machine.file path)
            ])
    parse_url-Ends playlist none h = tt
    parse_url-Ends playlist (some path) h = parse_opened-Ends playlist (machine.file path) h

    -- Every stream of the playlist that `hls_parse` leaves is read from its file, if those were that it
    -- was given.
    pub hls_parse-Ends :
        (playlist : Playlist F)
        → AllLoaded playlist.sublist
        → Ends (λ parsed. AllLoaded parsed.sublist) (hls_parse l f machine playlist)
    unfolding hls_parse
    hls_parse-Ends playlist h = parse_url-Ends playlist playlist.url h
