-- ===== src/Hls/Parse.antt =====
-- `hls_parse`: it ends on every playlist file, and it adds a stream for every line without a `#`.
use mpegts_reader.Common.{
  ℕ, zero, suc, ◌+◌, ◌≤◌, ◌<◌, ◌≢◌, List, [], ◌∷◌, length, Option, none, some, arith,
}
use mpegts_reader.Common.Outcome.{stuck}
use mpegts_reader.Common.Outcome.Runs.{
  Runs, Runs-ne-stuck, returns, exits, faults, if-Runs, option-Runs, >>=-Runs,
}
use mpegts_reader.Dlist.{Dlist}
use mpegts_reader.Ts.{Segment}
use mpegts_reader.Stream.{Stream, Memory, copy_url, stream_init}
use mpegts_reader.Stream.ReadWrite.{read_segment-Runs}
use mpegts_reader.Hls.{
  Playlist, Machine, newline, until, has_char, fgets, line_size, load_stream, load_media,
  parse_line, parse_loop, parse_opened, hls_parse,
}

fgets_rest : (n : ℕ) (bs : List ℕ) → length (fgets n bs).1 ≤ length bs
fgets_rest zero bs = omega arith
fgets_rest (suc n) [] = omega arith
fgets_rest (suc n) (b ∷ bs) = ground (arith, fgets_rest n bs)

-- A line that `fgets` reads takes a byte at least.
fgets_takes : (b : ℕ) (bs : List ℕ) → length (fgets line_size (b ∷ bs)).1 < length (b ∷ bs)
fgets_takes b bs = ground (arith, fgets_rest 510 bs)

copy_url-Runs : (usable : ℕ → Option ℕ) (url : List ℕ) → Runs (copy_url usable url)
unfolding copy_url
copy_url-Runs usable url =
    option-Runs (usable (length url)) exits λ capacity. if-Runs _ returns faults

module _ {E F : Type 0} (l : Dlist E Segment) (f : Dlist F (Stream E)) where
  stream_init-Runs : (usable : ℕ → Option ℕ) (url : List ℕ) → Runs (stream_init l usable url)
  unfolding stream_init
  stream_init-Runs usable url = >>=-Runs _ (copy_url-Runs usable url) λ copy. returns

  load_stream-Runs :
      (machine : Machine) (memory : Memory) (path : List ℕ) (sublist : F)
      → Runs (load_stream l f machine memory path sublist)
  load_stream-Runs machine memory path sublist =
      >>=-Runs _ (stream_init-Runs machine.usable path)
        λ stream. >>=-Runs _ (read_segment-Runs l machine.file memory stream) λ read. returns

  load_media-Runs :
      (machine : Machine) (k : ℕ) (path : List ℕ) (sublist : F)
      → Runs (load_media l f machine k path sublist)
  unfolding load_media
  load_media-Runs machine k path sublist =
      option-Runs (machine.stream_memory k) exits
        λ memory. load_stream-Runs machine memory (until newline path) sublist

  parse_line-Runs :
      (machine : Machine) (k : ℕ) (cb : List ℕ) (sublist : F)
      → Runs (parse_line l f machine k cb sublist)
  parse_line-Runs machine k cb sublist =
      if-Runs (has_char 35 cb) returns
        (>>=-Runs _ (load_media-Runs machine k cb sublist) λ longer. returns)

  parse_loop-Runs :
      (fuel : ℕ) (machine : Machine) (k : ℕ) (fp : List ℕ) (sublist : F)
      → length fp < fuel
      → Runs (parse_loop l f fuel machine k fp sublist)
  unfolding parse_loop
  parse_loop-Runs zero machine k fp sublist h = absurd (omega arith)
  parse_loop-Runs (suc fuel) machine k [] sublist h = returns
  parse_loop-Runs (suc fuel) machine k (b ∷ bs) sublist h =
      let cb = until 0 (fgets line_size (b ∷ bs)).0 in
      let rest = (fgets line_size (b ∷ bs)).1 in
      >>=-Runs _ (parse_line-Runs machine k cb sublist) λ (longer, next).
        parse_loop-Runs fuel machine next rest longer (omega (arith, fgets_takes b bs))

  parse_opened-Runs :
      (machine : Machine) (playlist : Playlist F) (fp : Option (List ℕ))
      → Runs (parse_opened l f machine playlist fp)
  parse_opened-Runs machine playlist none = returns
  parse_opened-Runs machine playlist (some fp) =
      >>=-Runs _ (parse_loop-Runs (length fp + 1) machine 0 fp playlist.sublist (omega arith))
        λ sublist. returns

  -- `hls_parse` ends on every playlist, whatever its file, the media files and the memory hold: its loop
  -- takes a line from the file in each round, and is never out of fuel.
  pub hls_parse-ne-stuck :
      (machine : Machine) (playlist : Playlist F) → hls_parse l f machine playlist ≢ stuck
  unfolding hls_parse
  hls_parse-ne-stuck machine playlist =
      Runs-ne-stuck (
        option-Runs playlist.url faults
          λ url. parse_opened-Runs machine playlist (machine.file url))
