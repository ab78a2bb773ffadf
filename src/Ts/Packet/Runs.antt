-- ===== src/Ts/Packet/Runs.antt =====
-- The parser of a packet has no loop: it is never out of fuel.
use mpegts_reader.Common.{
  ℕ, ◌<◌, ◌≡◌, Bool, true, List, [], ◌∷◌, Option, length, take, drop, length-drop, ◌==◌, Bool-cases,
  inl, inr, arith,
}
use mpegts_reader.Common.Outcome.{done, >>=-eq-done}
use mpegts_reader.Common.Outcome.Runs.{Runs, returns, runs}
use mpegts_reader.Ts.{PesHeader, AdaptField, Segment, payload_size}
use mpegts_reader.Ts.Header.{parse_header}
use mpegts_reader.Ts.Pts.{get_pes_pts}
use mpegts_reader.Ts.Pcr.{parse_pcr}
use mpegts_reader.Ts.Adaptation.{
  optional_pcr, optional_byte, read_adaptation, parse_adaptation_field,
}
use mpegts_reader.Ts.Pes.{
  read_pts, read_dts, read_optional_header, read_pes_header, parse_pes_header,
}
use mpegts_reader.Ts.Packet.{word_of_bytes, parse_body, parse_ts_segment}

parse_pcr-Runs : (bytes : List ℕ) (i : ℕ) → Runs (parse_pcr bytes i)
unfolding parse_pcr
parse_pcr-Runs bytes i = search runs depth 20

get_pes_pts-Runs : (marker : ℕ) (bytes : List ℕ) (i : ℕ) → Runs (get_pes_pts marker bytes i)
unfolding get_pes_pts
get_pes_pts-Runs marker bytes i = search runs depth 20

optional_pcr-Runs :
    (flag : Bool) (bytes : List ℕ) (i old : ℕ) → Runs (optional_pcr flag bytes i old)
unfolding optional_pcr
optional_pcr-Runs flag bytes i old = search (runs, parse_pcr-Runs)

optional_byte-Runs :
    (flag : Bool) (bytes : List ℕ) (i old : ℕ) → Runs (optional_byte flag bytes i old)
unfolding optional_byte
optional_byte-Runs flag bytes i old = search runs

read_adaptation-Runs : (bytes : List ℕ) (dest : AdaptField) → Runs (read_adaptation bytes dest)
unfolding read_adaptation
read_adaptation-Runs bytes dest = search (runs, optional_pcr-Runs, optional_byte-Runs) depth 20

parse_adaptation_field-Runs : (s : Segment) → Runs (parse_adaptation_field s)
unfolding parse_adaptation_field
parse_adaptation_field-Runs s = search (runs, read_adaptation-Runs)

read_pts-Runs : (pts_ind : ℕ) (bytes : List ℕ) (i old : ℕ) → Runs (read_pts pts_ind bytes i old)
unfolding read_pts
read_pts-Runs pts_ind bytes i old = search (runs, get_pes_pts-Runs)

read_dts-Runs : (pts_ind : ℕ) (bytes : List ℕ) (i old : ℕ) → Runs (read_dts pts_ind bytes i old)
unfolding read_dts
read_dts-Runs pts_ind bytes i old = search (runs, get_pes_pts-Runs)

read_optional_header-Runs :
    (header : PesHeader) (bytes : List ℕ) (c : ℕ) → Runs (read_optional_header header bytes c)
unfolding read_optional_header
read_optional_header-Runs header bytes c = search (runs, read_pts-Runs, read_dts-Runs) depth 20

read_pes_header-Runs :
    (memory : Option PesHeader) (bytes : List ℕ) (c : ℕ) → Runs (read_pes_header memory bytes c)
unfolding read_pes_header
read_pes_header-Runs memory bytes c = search (runs, read_optional_header-Runs) depth 20

parse_pes_header-Runs :
    (memory : Option PesHeader) (s : Segment) (c : ℕ) → Runs (parse_pes_header memory s c)
unfolding parse_pes_header
parse_pes_header-Runs memory s c = search (runs, read_pes_header-Runs) depth 20

parse_body-Runs :
    (memory : Option PesHeader) (body : List ℕ) (s : Segment) → Runs (parse_body memory body s)
unfolding parse_body
parse_body-Runs memory body s =
    search (runs, parse_adaptation_field-Runs, parse_pes_header-Runs) depth 20

parse_header-Runs : (v : ℕ) (s : Segment) → Runs (parse_header v s)
unfolding parse_header
parse_header-Runs v s = search runs

pub parse_ts_segment-Runs :
    (memory : Option PesHeader) (fd : List ℕ) (s : Segment) → Runs (parse_ts_segment memory fd s)
unfolding parse_ts_segment
parse_ts_segment-Runs memory [] s = returns
parse_ts_segment-Runs memory (b ∷ bs) s = search (runs, parse_header-Runs, parse_body-Runs) depth 20

-- A packet takes bytes from the file.
pub parse_ts_segment_takes :
    (memory : Option PesHeader) (fd : List ℕ) (s : Segment) {rest : List ℕ} {t : Segment}
    → parse_ts_segment memory fd s ≡ done (true, rest, t)
    → length rest < length fd
unfolding parse_ts_segment
parse_ts_segment_takes memory [] s e = cc
parse_ts_segment_takes memory (b ∷ bs) s {rest} {t} e =
    let (u, e1, e2) = >>=-eq-done (parse_header (word_of_bytes (take 4 (b ∷ bs))) s) _ e in
    elim (Bool-cases (length (take payload_size (drop 4 (b ∷ bs))) == payload_size)) [
      | inl whole ↦
          let (v, e3, e4) =
            >>=-eq-done (parse_body memory (take payload_size (drop 4 (b ∷ bs))) u) _
              (rw whole at e2) in
          let left : rest ≡ drop payload_size (drop 3 bs) = ground (arith, e4) in
          rw left (omega (arith, length-drop payload_size (drop 3 bs), length-drop 3 bs))
      | inr short ↦ absurd (let f = rw short at e2 in cc f)
    ]
