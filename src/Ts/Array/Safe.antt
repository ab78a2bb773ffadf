-- ===== src/Ts/Array/Safe.antt =====
-- Accesses within the array are no faults.
use mpegts_reader.Common.{
  ℕ, zero, suc, ◌≤◌, ◌⊎◌, inl, inr, Option-cases, ◌∷◌, [], get_elem?, some, set-get_elem?, ap, ◌∙◌,
  ◌<◌, ◌≡◌, refl, List, length, get_elem?_lt, set, arith,
}
use mpegts_reader.Common.Outcome.{done, fault}
use mpegts_reader.Ts.Array.{load, store}

pub load_lt : (bytes : List ℕ) (i : ℕ) → i < length bytes → (v : ℕ) × (load bytes i ≡ done v)
load_lt bytes i h = let (v, e) = get_elem?_lt bytes i h in (v, rw e refl)

pub store_lt :
    (bytes : List ℕ) (i v : ℕ) → i < length bytes → store bytes i v ≡ done (set bytes i v)
store_lt bytes i v h = ground arith

-- Any other is a fault.
pub load_ge : (bytes : List ℕ) (i : ℕ) → length bytes ≤ i → load bytes i ≡ fault
load_ge [] i h = refl
load_ge (b ∷ bytes) zero h = absurd (omega arith)
load_ge (b ∷ bytes) (suc i) h = load_ge bytes i (omega arith)

get_elem?_lt_length : (bytes : List ℕ) (i v : ℕ) → get_elem? bytes i ≡ some v → i < length bytes
get_elem?_lt_length [] i v e = cc
get_elem?_lt_length (b ∷ bytes) zero v e = omega arith
get_elem?_lt_length (b ∷ bytes) (suc i) v e = omega (arith, get_elem?_lt_length bytes i v e)

-- Storing what stands there changes nothing.
pub store_same :
    (bytes : List ℕ) (i v : ℕ) → get_elem? bytes i ≡ some v → store bytes i v ≡ done bytes
store_same bytes i v e =
    store_lt bytes i v (get_elem?_lt_length bytes i v e) ∙ ap done (set-get_elem? bytes i v e)

pub load_cases :
    (bytes : List ℕ) (i : ℕ) → ((v : ℕ) × (load bytes i ≡ done v)) ⊎ (load bytes i ≡ fault)
load_cases bytes i = elim (Option-cases (get_elem? bytes i)) [
  | inl e ↦ inr (rw e refl)
  | inr (v, e) ↦ inl (v, rw e refl)
]
