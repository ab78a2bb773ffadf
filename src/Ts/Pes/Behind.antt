-- ===== src/Ts/Pes/Behind.antt =====
-- `write_pes_header` behind the first two bytes of a payload.
use mpegts_reader.Common.{
  ℕ, zero, suc, ◌+◌, ◌≡◌, refl, sym, ap, ◌∙◌, Bool-cases, inl, inr, true, false, ltb, length, set,
  drop, List, ◌∷◌, Option, none, some, bit_and, arith,
}
use mpegts_reader.Common.Words.{◌>>◌, u8}
use mpegts_reader.Common.Outcome.{Outcome, done, ◌>>=◌, >>=-eq-done, done-injective}
use mpegts_reader.Ts.{PesHeader, Segment}
use mpegts_reader.Ts.Array.{store}
use mpegts_reader.Ts.Pes.{write_pes_header}

store_then :
    {B : Type 0} (a b : ℕ) (tail : List ℕ) (j i v : ℕ) (f g : List ℕ → Outcome B)
    → j ≡ i + 2
    → ((t : List ℕ) → f (a ∷ b ∷ t) ≡ g t)
    → (store (a ∷ b ∷ tail) j v >>= f) ≡ (store tail i v >>= g)
store_then a b tail zero i v f g e h = absurd (omega (arith, e))
store_then a b tail (suc zero) i v f g e h = absurd (omega (arith, e))
store_then a b tail (suc (suc j)) i v f g e h =
    let same : j ≡ i = omega (arith, e) in
    elim (Bool-cases (ltb i (length tail))) [
      | inl below ↦
          let below' : ltb (suc (suc j)) (length (a ∷ b ∷ tail)) ≡ true =
            ground (arith, same, below) in
          rw (below, below') (ap (λ k. f (a ∷ b ∷ set tail k v)) same ∙ h (set tail i v))
      | inr beyond ↦
          let beyond' : ltb (suc (suc j)) (length (a ∷ b ∷ tail)) ≡ false =
            ground (arith, same, beyond) in
          rw (beyond, beyond') refl
    ]

-- The four stores, and what follows on them.
write_tail : {B : Type 0} → Option PesHeader → List ℕ → ℕ → (List ℕ → Outcome B) → Outcome B
write_tail none tail c rest = rest tail
write_tail (some header) tail c rest = do
  t ← store tail c 1
  t ← store t (c + 1) header.stream_id
  t ← store t (c + 2) (u8 (header.len >> 8))
  t ← store t (c + 3) (bit_and header.len 0xff)
  rest t

write_end : Option PesHeader → ℕ → ℕ
write_end none c = c
write_end (some header) c = c + 6 + header.pes_header_len

write_pes_header_tail :
    (s : Segment) (header : Option PesHeader) (a b : ℕ) (tail : List ℕ) (c : ℕ)
    → write_pes_header (record s { payload = a ∷ b ∷ tail; pes_header = header }) c
      ≡ write_tail header tail c
          (λ t. done (record s { payload = a ∷ b ∷ t; pes_header = header }, write_end header c))
unfolding write_pes_header write_tail write_end
write_pes_header_tail s none a b tail c = refl
write_pes_header_tail s (some header) a b tail c = store_then a b tail (c + 2) c 1 _ _ refl (λ t.
    store_then a b t (c + 3) (c + 1) header.stream_id _ _ (omega arith) (λ t.
      store_then a b t (c + 4) (c + 2) (u8 (header.len >> 8)) _ _ (omega arith) (λ t.
        store_then a b t (c + 5) (c + 3) (bit_and header.len 0xff) _ _ (omega arith) (λ t. refl))))

-- Stores that come to an end leave the same bytes whatever follows.
write_tail_done :
    {B : Type 0} (header : Option PesHeader) (tail : List ℕ) (c : ℕ) (rest : List ℕ → Outcome B)
    {r : B}
    → write_tail header tail c rest ≡ done r
    → (t : List ℕ) × (rest t ≡ done r)
      × ((k : List ℕ → Outcome B) → write_tail header tail c k ≡ k t)
unfolding write_tail
write_tail_done none tail c rest e = (tail, e, λ k. refl)
write_tail_done (some header) tail c rest e =
    let (t1, e1, h1) = >>=-eq-done (store tail c 1) _ e in
    let (t2, e2, h2) = >>=-eq-done (store t1 (c + 1) header.stream_id) _ h1 in
    let (t3, e3, h3) = >>=-eq-done (store t2 (c + 2) (u8 (header.len >> 8))) _ h2 in
    let (t4, e4, h4) = >>=-eq-done (store t3 (c + 3) (bit_and header.len 0xff)) _ h3 in
    (t4, h4, λ k. rw (e1, e2, e3, e4) refl)

-- A header that is written as it stands, is so whatever the second byte of the payload is.
pub write_pes_header_behind :
    (s : Segment) (header : Option PesHeader) (a b x : ℕ) (tail : List ℕ) (c m : ℕ)
    → write_pes_header (record s { payload = a ∷ b ∷ tail; pes_header = header }) c
      ≡ done (record s { payload = a ∷ b ∷ tail; pes_header = header }, m)
    → write_pes_header (record s { payload = a ∷ x ∷ tail; pes_header = header }) c
      ≡ done (record s { payload = a ∷ x ∷ tail; pes_header = header }, m)
write_pes_header_behind s header a b x tail c m e =
    let (t, is, any) =
      write_tail_done header tail c _ (sym (write_pes_header_tail s header a b tail c) ∙ e) in
    let known = done-injective _ _ is in
    let same : t ≡ tail = ap (λ (r : Segment × ℕ). drop 2 r.0.payload) known in
    let end : write_end header c ≡ m = ap (λ (r : Segment × ℕ). r.1) known in
    write_pes_header_tail s header a x tail c
    ∙ any _
    ∙ ap (λ u. done (record s { payload = a ∷ x ∷ u; pes_header = header }, write_end header c))
        same
    ∙ ap (λ n. done (record s { payload = a ∷ x ∷ tail; pes_header = header }, n)) end
