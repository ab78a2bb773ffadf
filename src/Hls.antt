-- ===== src/Hls.antt =====
-- The playlists of hls_parser.c: a list of streams, read from the lines of a playlist file, and the
-- operations of `mpegts_stream_*` on every stream of it.
pub mod Parse
pub mod Lines
pub mod Discontinuity
pub mod Loaded
pub mod Update
pub mod Media
pub mod Numbered
pub mod Below
use mpegts_reader.Common.{
  ℕ, zero, suc, ◌+◌, Bool, true, false, ◌==◌, if◌then◌else◌, ◌||◌, ◌&&◌, List, [], ◌∷◌, ◌++◌,
  length, map, Option, none, some,
}
use mpegts_reader.Common.Outcome.{Outcome, done, exited, fault, stuck, ◌>>=◌}
use mpegts_reader.Dlist.{Dlist}
use mpegts_reader.Ts.{Segment}
use mpegts_reader.Stream.{
  Stream, Memory, enomem, copy_url, stream_init, read_segment, fix_keyframe, update_pcr_by_pts,
  update_cc, stream_write,
}

-- `hls_playlist_t` without `dl` and `parent`, which is written and never read.
pub record Playlist (F : Type 0) : Type 0 where
  pub sublist : F
  pub url : Option (List ℕ)

-- What the program runs in: the content of the file at a path, the size of the block that `malloc(n)`
-- gives, and for the `k`-th stream NULL or the memory that its segments are read into.
pub record Machine : Type 0 where
  pub file : List ℕ → Option (List ℕ)
  pub usable : ℕ → Option ℕ
  pub stream_memory : ℕ → Option Memory

abbrev pub newline : ℕ
newline = 10

-- The bytes in front of the first `c`: of the NUL for a C string.
abbrev pub until : ℕ → List ℕ → List ℕ
until c [] = []
until c (b ∷ bs) = if b == c then [] else b ∷ until c bs

-- `strchr(s, c) != NULL` for the bytes in front of the NUL.
abbrev pub has_char : ℕ → List ℕ → Bool
has_char c [] = false
has_char c (b ∷ bs) = b == c || has_char c bs

-- `fgets` with room for `n` bytes: those up to a newline, and the rest of the file.
abbrev pub fgets : ℕ → List ℕ → List ℕ × List ℕ
fgets zero bs = ([], bs)
fgets (suc n) [] = ([], [])
fgets (suc n) (b ∷ bs) =
    let (line, rest) = fgets n bs in if b == newline then (b ∷ [], bs) else (b ∷ line, rest)

-- `sizeof(cb)` less the NUL
abbrev pub line_size : ℕ
line_size = 511

abbrev pub same_path : List ℕ → List ℕ → Bool
same_path [] [] = true
same_path [] (b ∷ bs) = false
same_path (a ∷ path) [] = false
same_path (a ∷ path) (b ∷ bs) = a == b && same_path path bs

-- The file that `open(url)` gives: none for NULL.
abbrev pub opened : (List ℕ → Option (List ℕ)) → Option (List ℕ) → Option (List ℕ)
opened file none = none
opened file (some url) = file url

-- The files after a write to the one at `url`.
abbrev pub overwrite :
    (List ℕ → Option (List ℕ)) → Option (List ℕ) → Option (List ℕ) → List ℕ → Option (List ℕ)
overwrite file none content path = file path
overwrite file (some url) none path = file path
overwrite file (some url) (some bytes) path = if same_path url path then some bytes else file path

module _ {E F : Type 0} (l : Dlist E Segment) (f : Dlist F (Stream E)) where
  -- `cdsl_dlistPutTail(&parent->sublist, &playlist->dl)`
  abbrev pub put_below : Option (Playlist F) → Stream E → Option (Playlist F)
  put_below none node = none
  put_below (some parent) node = some (record parent { sublist = f.put_tail parent.sublist node })

  -- `hls_playlist_init`: the new playlist, and the parent with the new one at the end of its sublist. What
  -- goes through that sublist takes the node for one of a stream: `sublist`, which has no nodes yet, and
  -- `url` stand where a stream has `segment_list` and `url`.
  unfoldable pub playlist_init :
      (ℕ → Option ℕ) → Option (Playlist F) → List ℕ → Outcome (Playlist F × Option (Playlist F))
  playlist_init usable parent url = do
    copy ← copy_url usable url
    done (
      record { sublist = f.entry_init; url = some copy },
      put_below parent (record { segment_list = l.entry_init; url = some copy }),
    )

  unfoldable pub playlist_size : Playlist F → ℕ
  playlist_size playlist = f.size playlist.sublist

  -- The part of `load_media` behind its `malloc`.
  abbrev pub load_stream : Machine → Memory → List ℕ → F → Outcome F
  load_stream machine memory path sublist = do
    stream ← stream_init l machine.usable path
    stream ← read_segment l machine.file memory stream
    done (f.put_tail sublist stream)

  -- `load_media` for the `k`-th stream.
  unfoldable pub load_media : Machine → ℕ → List ℕ → F → Outcome F
  load_media machine k path sublist = elim (machine.stream_memory k) [
    | none ↦ exited enomem
    | some memory ↦ load_stream machine memory (until newline path) sublist
  ]

  -- The body of the loop of `hls_parse` for the string in `cb`: the sublist, and the number of streams.
  abbrev pub parse_line : Machine → ℕ → List ℕ → F → Outcome (F × ℕ)
  parse_line machine k cb sublist =
      if has_char 35 cb
      then done (sublist, k)
      else load_media machine k cb sublist >>= (λ longer. done (longer, k + 1))

  -- The loop of `hls_parse` on the rest of the file.
  unfoldable pub parse_loop : ℕ → Machine → ℕ → List ℕ → F → Outcome F
  parse_loop zero machine k fp sublist = stuck
  parse_loop (suc fuel) machine k [] sublist = done sublist
  parse_loop (suc fuel) machine k (b ∷ bs) sublist = do
    let (cb, rest) = fgets line_size (b ∷ bs)
    (longer, k) ← parse_line machine k (until 0 cb) sublist
    parse_loop fuel machine k rest longer

  abbrev pub parse_opened : Machine → Playlist F → Option (List ℕ) → Outcome (Playlist F)
  parse_opened machine playlist none = done playlist
  parse_opened machine playlist (some fp) = do
    sublist ← parse_loop (length fp + 1) machine 0 fp playlist.sublist
    done (record playlist { sublist = sublist })

  -- `hls_parse`; `fopen` of NULL is no call that C defines.
  unfoldable pub hls_parse : Machine → Playlist F → Outcome (Playlist F)
  unfolding parse_loop
  hls_parse machine playlist = elim playlist.url [
    | none ↦ fault
    | some url ↦ parse_opened machine playlist (machine.file url)
  ]

  -- The playlist after writes into its streams.
  abbrev pub with_streams : Playlist F → List (Stream E) → Playlist F
  with_streams playlist streams = record playlist {
    sublist = f.with_nodes playlist.sublist streams;
  }

  unfoldable pub hls_fix_key_frame_info : Playlist F → ℕ → Playlist F
  unfolding fix_keyframe
  hls_fix_key_frame_info playlist pid =
      with_streams playlist (map (λ stream. fix_keyframe l stream pid) (f.nodes playlist.sublist))

  unfoldable pub hls_update_pcr_by_pts : Playlist F → ℕ → Playlist F
  unfolding update_pcr_by_pts
  hls_update_pcr_by_pts playlist pid =
      with_streams playlist
        (map (λ stream. update_pcr_by_pts l stream pid) (f.nodes playlist.sublist))

  -- The inner loop of `hls_fix_discontinuity`, through the streams that the iterator has left.
  unfoldable pub update_all : ℕ → List (Stream E) → List (Stream E)
  unfolding update_cc
  update_all cc [] = []
  update_all cc (stream ∷ streams) =
      let (updated, next) = update_cc l stream 0x100 cc in updated ∷ update_all next streams

  -- The outer loop for `count` more PIDs: the streams that the iterator has passed, and those it has left;
  -- the inner loop leaves none.
  unfoldable pub fix_pids : ℕ → List (Stream E) → List (Stream E) → List (Stream E)
  unfolding update_all
  fix_pids zero passed left = passed ++ left
  fix_pids (suc count) passed left = fix_pids count (passed ++ update_all 0 left) []

  -- `hls_fix_discontinuity`: of `pids` it looks at the count only.
  unfoldable pub hls_fix_discontinuity : Playlist F → List ℕ → ℕ → Playlist F
  unfolding fix_pids
  hls_fix_discontinuity playlist pids pid_count =
      with_streams playlist (fix_pids pid_count [] (f.nodes playlist.sublist))

  -- `mpegts_stream_write(stream, NULL)` in a file system: a file that is opened gets the new content.
  unfoldable pub write_stream :
      (List ℕ → Option (List ℕ)) → Stream E → Outcome (Stream E × (List ℕ → Option (List ℕ)))
  unfolding stream_write
  write_stream file stream = do
    (written, content) ← stream_write l (opened file stream.url) stream
    done (written, overwrite file stream.url content)

  -- The loop of `hls_update`.
  unfoldable pub write_streams :
      (List ℕ → Option (List ℕ))
      → List (Stream E)
      → Outcome (List (Stream E) × (List ℕ → Option (List ℕ)))
  unfolding write_stream
  write_streams file [] = done ([], file)
  write_streams file (stream ∷ streams) = do
    (written, file) ← write_stream file stream
    (rest, file) ← write_streams file streams
    done (written ∷ rest, file)

  unfoldable pub hls_update :
      (List ℕ → Option (List ℕ)) → Playlist F → Outcome (Playlist F × (List ℕ → Option (List ℕ)))
  unfolding write_streams
  hls_update file playlist = do
    (streams, file) ← write_streams file (f.nodes playlist.sublist)
    done (with_streams playlist streams, file)
