-- ===== src/Hls/Media.antt =====
-- The media of a playlist as files of packets: numbered through, and written over the files.
use mpegts_reader.Common.{
  ℕ, ◌+◌, ◌%◌, ◌≡◌, refl, sym, ap, ◌∙◌, Bool-cases, inl, inr, List, [], ◌∷◌, length, All, Option,
  some, some-injective, arith,
}
use mpegts_reader.Stream.ReadWrite.{Packet, file_of}
use mpegts_reader.Stream.Settled.{IsStable}
use mpegts_reader.Stream.Numbered.{number_packets, number_packets_mod, count_packets}
use mpegts_reader.Hls.{Machine, same_path, overwrite}
use mpegts_reader.Hls.Update.{same_path_lem}

-- A file of packets, by its path.
pub record Medium : Type 0 where
  pub path : List ℕ
  pub packets : List Packet

pub record IsStableMedium (machine : Machine) (m : Medium) : Type 0 where
  pub held : machine.file m.path ≡ some (file_of m.packets)
  pub stable : All IsStable m.packets

-- The packets of PID 0x100 numbered on from `c` through the media.
unfoldable pub number_media : ℕ → List Medium → List Medium
number_media c [] = []
number_media c (m ∷ ms) =
    record m { packets = number_packets 0x100 c m.packets }
    ∷ number_media (c + count_packets 0x100 m.packets) ms

-- The files after each medium was written over the file at its path, in their order.
unfoldable pub written_over : List Medium → (List ℕ → Option (List ℕ)) → List ℕ → Option (List ℕ)
written_over [] file = file
written_over (m ∷ ms) file =
    written_over ms (overwrite file (some m.path) (some (file_of m.packets)))

pub number_media_mod :
    (c d : ℕ) (ms : List Medium) → c % 16 ≡ d % 16 → number_media c ms ≡ number_media d ms
unfolding number_media
number_media_mod c d [] e = refl
number_media_mod c d (m ∷ ms) e =
    let k = count_packets 0x100 m.packets in
    ap (λ ps. record m { packets = ps } ∷ number_media (c + k) ms)
      (number_packets_mod 0x100 c d m.packets e)
    ∙ ap (λ xs. record m { packets = number_packets 0x100 d m.packets } ∷ xs)
        (number_media_mod (c + k) (d + k) ms (omega (arith, e)))

-- The file at the path of a medium is as long as the medium.
abbrev pub HasLength : (List ℕ → Option (List ℕ)) → Medium → Type 0
HasLength file m =
    (old : List ℕ) × (file m.path ≡ some old) × (length (file_of m.packets) ≡ length old)

overwrite-HasLength :
    (file : List ℕ → Option (List ℕ)) (m n : Medium)
    → HasLength file m
    → HasLength file n
    → HasLength (overwrite file (some m.path) (some (file_of m.packets))) n
overwrite-HasLength file m n (old, at, e) (old', at', e') =
    elim (Bool-cases (same_path m.path n.path)) [
      | inl same ↦
          let one : old' ≡ old =
            some-injective _ _ (sym at' ∙ ap file (sym (same_path_lem m.path n.path same)) ∙ at) in
          (file_of m.packets, rw same refl, e' ∙ ap length one ∙ sym e)
      | inr other ↦ (old', rw other at', e')
    ]

pub overwrite_every :
    (file : List ℕ → Option (List ℕ)) (m : Medium) (ms : List Medium)
    → HasLength file m
    → All (HasLength file) ms
    → All (HasLength (overwrite file (some m.path) (some (file_of m.packets)))) ms
overwrite_every file m [] h hs = tt
overwrite_every file m (n ∷ ms) h (h', hs) =
    (overwrite-HasLength file m n h h', overwrite_every file m ms h hs)
