-- ===== src/Hls/Below.antt =====
-- `hls_playlist_init` with a parent, and `hls_update` on the parent.
use mpegts_reader.Common.{
  ℕ, ◌+◌, ◌≡◌, refl, sym, ap, ◌∙◌, subst, List, [], ◌∷◌, ◌++◌, length, length-append, Option, none,
  some, some-injective,
}
use mpegts_reader.Common.Outcome.{done, >>=-eq-done, done-injective}
use mpegts_reader.Dlist.{Dlist, IsDlist}
use mpegts_reader.Ts.{Segment}
use mpegts_reader.Stream.{Stream, copy_url, write_all, stream_write}
use mpegts_reader.Hls.{
  Playlist, overwrite, playlist_init, playlist_size, write_stream, write_streams, hls_update,
}
use mpegts_reader.Hls.Update.{overwrite_same}

module _ {E F : Type 0} (l : Dlist E Segment) (laws : IsDlist l) (f : Dlist F (Stream E))
    (f_laws : IsDlist f) where
  -- The node of a new playlist, taken for one of a stream.
  abbrev node_of : List ℕ → Stream E
  node_of url = record { segment_list = l.entry_init; url = some url }

  -- Nothing is written for it: a file that is opened keeps its bytes.
  write_stream-node_of :
      (url : List ℕ) (file : List ℕ → Option (List ℕ)) (content : Option (List ℕ))
      → file url ≡ content
      → (written : Stream E) × (after : List ℕ → Option (List ℕ)) × (write_stream l f file
            (node_of url)
          ≡ done (written, after))
        × ((at : List ℕ) → after at ≡ file at)
  unfolding write_stream stream_write write_all
  write_stream-node_of url file none held =
      (node_of url, file, rw (write_stream, stream_write, held) refl, λ at. refl)
  write_stream-node_of url file (some old) held = (
    record (node_of url) { segment_list = l.with_nodes l.entry_init [] },
    overwrite file (some url) (some old),
    rw (write_stream, stream_write, held, laws.nodes-entry_init, write_all) refl,
    λ at. overwrite_same file url old at held,
  )

  write_streams_step :
      (file : List ℕ → Option (List ℕ)) (s : Stream E) (ss : List (Stream E))
      {file1 after : List ℕ → Option (List ℕ)} {w : Stream E} {rest : List (Stream E)}
      → write_stream l f file s ≡ done (w, file1)
      → write_streams l f file1 ss ≡ done (rest, after)
      → write_streams l f file (s ∷ ss) ≡ done (w ∷ rest, after)
  unfolding write_streams
  write_streams_step file s ss e es = rw (write_streams, e, es) refl

  write_streams-append_one :
      (file mid after : List ℕ → Option (List ℕ)) (ss ws : List (Stream E)) (s w : Stream E)
      → write_streams l f file ss ≡ done (ws, mid)
      → write_stream l f mid s ≡ done (w, after)
      → (all : List (Stream E)) × (write_streams l f file (ss ++ (s ∷ [])) ≡ done (all, after))
  unfolding write_streams
  write_streams-append_one file mid after [] ws s w e e' =
      let same : mid ≡ file = sym (ap (λ r. r.1) (done-injective ([], file) (ws, mid) e)) in
      let one : write_stream l f file s ≡ done (w, after) =
        subst (λ m. write_stream l f m s ≡ done (w, after)) same e' in
      (w ∷ [], rw (write_streams, one) refl)
  write_streams-append_one file mid after (s0 ∷ ss) ws s w e e' =
      let ((w0, file1), e1, e2) = >>=-eq-done (write_stream l f file s0) _ e in
      let ((rest, mid1), e3, e4) = >>=-eq-done (write_streams l f file1 ss) _ e2 in
      let same : mid ≡ mid1 = sym (ap (λ r. r.1) (done-injective (w0 ∷ rest, mid1) (ws, mid) e4)) in
      let one : write_stream l f mid1 s ≡ done (w, after) =
        subst (λ m. write_stream l f m s ≡ done (w, after)) same e' in
      let (all, es) = write_streams-append_one file1 mid1 after ss rest s w e3 one in
      (w0 ∷ all, write_streams_step file s0 (ss ++ (s ∷ [])) e1 es)

  -- What the longer playlist has, and what `hls_update` does with it.
  AddsNothing :
      (List ℕ → Option (List ℕ)) → (List ℕ → Option (List ℕ)) → Playlist F → Playlist F → Type 0
  AddsNothing file after parent longer =
      (playlist_size l f longer ≡ playlist_size l f parent + 1)
      × (last : Playlist F) × (files : List ℕ → Option (List ℕ)) × (hls_update l f file longer
          ≡ done (last, files))
      × ((at : List ℕ) → files at ≡ after at)

  update_below :
      (file after : List ℕ → Option (List ℕ)) (parent updated : Playlist F) (copy : List ℕ)
      → hls_update l f file parent ≡ done (updated, after)
      → AddsNothing file after parent
          (record parent { sublist = f.put_tail parent.sublist (node_of copy) })
  unfolding AddsNothing hls_update playlist_size
  update_below file after parent updated copy writes =
      let ss = f.nodes parent.sublist in
      let sublist = f.put_tail parent.sublist (node_of copy) in
      let nodes : f.nodes sublist ≡ ss ++ (node_of copy ∷ []) =
        f_laws.nodes-put_tail parent.sublist (node_of copy) in
      let ((ws, mid), e1, e2) = >>=-eq-done (write_streams l f file ss) _ writes in
      let is_after : mid ≡ after = ap (λ r. r.1) (done-injective _ (updated, after) e2) in
      let (w, files, e3, kept) = write_stream-node_of copy mid (mid copy) refl in
      let (all, es) = write_streams-append_one file mid files ss ws (node_of copy) w e1 e3 in
      (
        f_laws.size-nodes sublist
            ∙ ap length nodes
            ∙ length-append ss (node_of copy ∷ [])
            ∙ ap (λ n. n + 1) (sym (f_laws.size-nodes parent.sublist)),
        record parent { sublist = f.with_nodes sublist all },
        files,
        rw (hls_update, nodes, es) refl,
        λ at. kept at ∙ ap (λ g. g at) is_after,
      )

  -- A playlist that was initialised below a parent is one node more in it, and `hls_update` on the parent
  -- returns if it did before, and leaves every file with the bytes that it left it with before.
  pub hls_update-playlist_init :
      (usable : ℕ → Option ℕ) (file after : List ℕ → Option (List ℕ))
      (parent child longer updated : Playlist F) (url : List ℕ)
      → playlist_init l f usable (some parent) url ≡ done (child, some longer)
      → hls_update l f file parent ≡ done (updated, after)
      → (playlist_size l f longer ≡ playlist_size l f parent + 1)
        × (last : Playlist F) × (files : List ℕ → Option (List ℕ)) × (hls_update l f file longer
            ≡ done (last, files))
        × ((at : List ℕ) → files at ≡ after at)
  unfolding playlist_init AddsNothing
  hls_update-playlist_init usable file after parent child longer updated url e writes =
      let (copy, ec, e1) = >>=-eq-done (copy_url usable url) _ e in
      let below : Playlist F = record parent {
        sublist = f.put_tail parent.sublist (node_of copy);
      } in
      let same : below ≡ longer =
        some-injective below longer (ap (λ r. r.1) (done-injective _ (child, some longer) e1)) in
      subst (AddsNothing file after parent) same
        (update_below file after parent updated copy writes)
