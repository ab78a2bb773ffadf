-- ===== src/Hls/Lines.antt =====
-- `hls_parse` on a playlist file given by its lines: a stream for every line without a `#`.
use mpegts_reader.Common.{
  ℕ, zero, suc, ◌+◌, ◌<◌, ◌≡◌, ◌≢◌, refl, sym, ap, ◌∙◌, ◌==◌, ◌||◌, if◌then◌else◌, Bool-cases, inl,
  inr, List, [], ◌∷◌, ◌++◌, length, length-append, map, All, Option, none, some, arith,
}
use mathlib.Core.List.{append-nil, append_assoc, map-append}
use mpegts_reader.Common.Outcome.{Outcome, done, fault, ◌>>=◌}
use mpegts_reader.Dlist.{Dlist, IsDlist}
use mpegts_reader.Ts.{Segment}
use mpegts_reader.Stream.{
  Stream, Memory, strcpy, copy_url, stream_init, read_opened, read_from, read_segment,
}
use mpegts_reader.Hls.{
  Playlist, Machine, newline, until, has_char, fgets, load_stream, load_media, parse_line,
  parse_loop, parse_opened, hls_parse,
}

-- A line without its newline: no NUL, and short enough for the buffer.
pub record IsLine (line : List ℕ) : Type 0 where
  pub bytes : All (λ b. (b ≢ 0) × (b ≢ newline)) line
  pub short : length line < 511

-- The bytes of a file by its lines.
abbrev pub text : List (List ℕ) → List ℕ
text [] = []
text (line ∷ lines) = line ++ (newline ∷ text lines)

-- The paths that a playlist names: its lines without a `#`.
unfoldable pub media : List (List ℕ) → List (List ℕ)
media [] = []
media (line ∷ lines) = if has_char 35 line then media lines else line ∷ media lines

abbrev with_newline : List ℕ → List ℕ
with_newline line = line ++ (newline ∷ [])

fgets-line :
    (n : ℕ) (line rest : List ℕ)
    → All (λ b. (b ≢ 0) × (b ≢ newline)) line
    → length line < n
    → fgets n (line ++ (newline ∷ rest)) ≡ (with_newline line, rest)
fgets-line zero line rest plain h = absurd (omega arith)
fgets-line (suc n) [] rest plain h = refl
fgets-line (suc n) (b ∷ line) rest plain h = ground (arith, plain, fgets-line n line rest plain.1)

until-with_newline_zero :
    (line : List ℕ)
    → All (λ b. (b ≢ 0) × (b ≢ newline)) line
    → until 0 (with_newline line) ≡ with_newline line
until-with_newline_zero [] plain = refl
until-with_newline_zero (b ∷ line) plain =
    ground (arith, plain, until-with_newline_zero line plain.1)

until-with_newline :
    (line : List ℕ)
    → All (λ b. (b ≢ 0) × (b ≢ newline)) line
    → until newline (with_newline line) ≡ line
until-with_newline [] plain = refl
until-with_newline (b ∷ line) plain = ground (arith, plain, until-with_newline line plain.1)

has_char-with_newline : (line : List ℕ) → has_char 35 (with_newline line) ≡ has_char 35 line
has_char-with_newline [] = refl
has_char-with_newline (b ∷ line) = ap (λ x. b == 35 || x) (has_char-with_newline line)

-- The paths of the streams in a sublist.
abbrev pub urls : {E F : Type 0} → Dlist F (Stream E) → F → List (Option (List ℕ))
urls f sublist = map (λ s. s.url) (f.nodes sublist)

module _ {E F : Type 0} (l : Dlist E Segment) (f : Dlist F (Stream E)) (machine : Machine)
    (memory : ℕ → Memory) where
  -- What the machine gives: memory for every stream, and blocks with room for a NUL.
  pub record IsAmple : Type 0 where
    pub stream_memory : (k : ℕ) → machine.stream_memory k ≡ some (memory k)
    pub usable : (n : ℕ) → (capacity : ℕ) × (machine.usable n ≡ some capacity) × (n < capacity)

  -- The file at `path` can be read as the `k`-th stream, for every `k`.
  abbrev pub IsReadable : List ℕ → Type 0
  IsReadable path = (k : ℕ) → (e : E) × (read_opened l (memory k) (machine.file path) ≡ done e)

  pub copy_url_lem : (url : List ℕ) → IsAmple → copy_url machine.usable url ≡ done url
  unfolding copy_url
  copy_url_lem url ample =
      let (capacity, gives, room) = ample.usable (length url) in
      let copies : strcpy capacity url ≡ done url = ground (arith, room) in
      rw (copy_url, gives, copies) refl

  stream_init_lem :
      (line : List ℕ)
      → IsAmple
      → stream_init l machine.usable line
        ≡ done (record { segment_list = l.entry_init; url = some line })
  unfolding stream_init
  stream_init_lem line ample = rw (stream_init, copy_url_lem line ample) refl

  load_stream_lem :
      (k : ℕ) (line : List ℕ) (sublist : F)
      → IsAmple
      → IsReadable line
      → (s : Stream E) × (load_stream l f machine (memory k) line sublist
          ≡ done (f.put_tail sublist s))
        × (s.url ≡ some line)
  unfolding read_segment read_from
  load_stream_lem k line sublist ample readable =
      let (entry, reads) = readable k in
      (
        record { segment_list = entry; url = some line },
        rw (stream_init_lem line ample, read_segment, read_from, reads) refl,
        refl,
      )

  load_media_lem :
      (k : ℕ) (line : List ℕ) (sublist : F)
      → IsAmple
      → IsLine line
      → IsReadable line
      → (s : Stream E) × (load_media l f machine k (with_newline line) sublist
          ≡ done (f.put_tail sublist s))
        × (s.url ≡ some line)
  unfolding load_media
  load_media_lem k line sublist ample is_line readable =
      let (s, loads, named) = load_stream_lem k line sublist ample readable in
      let path = until-with_newline line is_line.bytes in
      (s, rw (load_media, ample.stream_memory k, path) loads, named)

  -- A round of the loop: the line, and the rest of the file.
  parse_loop-text :
      (fuel k : ℕ) (line : List ℕ) (lines : List (List ℕ)) (sublist : F)
      → IsLine line
      → parse_loop l f (suc fuel) machine k (text (line ∷ lines)) sublist ≡ (
          parse_line l f machine k (with_newline line) sublist
          >>= (λ r. parse_loop l f fuel machine r.1 (text lines) r.0))
  unfolding parse_loop
  parse_loop-text fuel k [] lines sublist is_line = refl
  parse_loop-text fuel k (b ∷ line) lines sublist is_line =
      let whole = b ∷ line in
      let round : List ℕ → List ℕ → Outcome F = λ cb rest.
        parse_line l f machine k cb sublist >>= (λ r. parse_loop l f fuel machine r.1 rest r.0) in
      ap (λ (read : List ℕ × List ℕ). round (until 0 read.0) read.1)
        (fgets-line 511 whole (text lines) is_line.bytes is_line.short)
      ∙ ap (λ cb. round cb (text lines)) (until-with_newline_zero whole is_line.bytes)

  module _ (f_laws : IsDlist f) (ample : IsAmple) where
    urls-put_tail :
        (sublist : F) (s : Stream E) (line : List ℕ)
        → s.url ≡ some line
        → urls f (f.put_tail sublist s) ≡ urls f sublist ++ (some line ∷ [])
    urls-put_tail sublist s line e =
        ap (map (λ s. s.url)) (f_laws.nodes-put_tail sublist s)
        ∙ map-append (λ s. s.url) (f.nodes sublist) (s ∷ [])
        ∙ ap (λ u. urls f sublist ++ (u ∷ [])) e

    parse_loop_lem :
        (lines : List (List ℕ)) (fuel k : ℕ) (sublist : F)
        → All IsLine lines
        → All IsReadable (media lines)
        → length (text lines) < fuel
        → (parsed : F) × (parse_loop l f fuel machine k (text lines) sublist ≡ done parsed)
          × (urls f parsed ≡ urls f sublist ++ map some (media lines))
    unfolding media parse_loop
    parse_loop_lem lines zero k sublist is_lines readable h = absurd (omega arith)
    parse_loop_lem [] (suc fuel) k sublist is_lines readable h =
        (sublist, refl, sym (append-nil (urls f sublist)))
    parse_loop_lem (line ∷ lines) (suc fuel) k sublist is_lines readable h =
        let step = parse_loop-text fuel k line lines sublist is_lines.0 in
        let enough : length (text lines) < fuel =
          omega (arith, length-append line (newline ∷ text lines)) in
        elim (Bool-cases (has_char 35 line)) [
          | inl tag ↦
              let (parsed, loops, named) =
                parse_loop_lem lines fuel k sublist is_lines.1 (rw tag at readable) enough in
              let skips : parse_line l f machine k (with_newline line) sublist ≡ done (sublist, k) =
                rw (has_char-with_newline line, tag) refl in
              (parsed, step ∙ rw skips loops, rw tag named)
          | inr path ↦
              let both = rw path at readable in
              let (s, loads, is) = load_media_lem k line sublist ample is_lines.0 both.0 in
              let (parsed, loops, named) =
                parse_loop_lem lines fuel (k + 1) (f.put_tail sublist s) is_lines.1 both.1 enough in
              let adds : parse_line l f machine k (with_newline line) sublist
                  ≡ done (f.put_tail sublist s, k + 1) =
                rw (has_char-with_newline line, path, loads) refl in
              (
                parsed,
                step ∙ rw adds loops,
                rw path (
                    named
                    ∙ ap (λ us. us ++ map some (media lines)) (urls-put_tail sublist s line is)
                    ∙ append_assoc (urls f sublist) (some line ∷ []) (map some (media lines))),
              )
        ]

    hls_parse_url :
        (playlist : Playlist F) (url : List ℕ)
        → playlist.url ≡ some url
        → hls_parse l f machine playlist ≡ parse_opened l f machine playlist (machine.file url)
    unfolding hls_parse
    hls_parse_url playlist url named =
        ap
          (λ u. elim u [
            | none ↦ fault
            | some path ↦ parse_opened l f machine playlist (machine.file path)
          ])
          named

    -- On a playlist file of lines without NUL that fit the buffer, where each line without a `#` is the
    -- path of a file that can be read and the memory suffices, `hls_parse` returns, and it adds to the
    -- playlist one stream for each such line, in the order of the lines, with the line as its path.
    pub hls_parse-media :
        (playlist : Playlist F) (url : List ℕ) (lines : List (List ℕ))
        → playlist.url ≡ some url
        → machine.file url ≡ some (text lines)
        → All IsLine lines
        → All IsReadable (media lines)
        → (parsed : Playlist F) × (hls_parse l f machine playlist ≡ done parsed)
          × (urls f parsed.sublist ≡ urls f playlist.sublist ++ map some (media lines))
          × (parsed.url ≡ some url)
    hls_parse-media playlist url lines named found is_lines readable =
        let (sublist, loops, adds) =
          parse_loop_lem lines (length (text lines) + 1) 0 playlist.sublist is_lines readable
            (omega arith) in
        (
          record playlist { sublist = sublist },
          hls_parse_url playlist url named ∙ rw (found, loops) refl,
          adds,
          named,
        )
