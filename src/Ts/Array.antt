-- ===== src/Ts/Array.antt =====
-- Reads and writes through a pointer into the payload. An index outside the array is a fault.
pub mod Safe
use mpegts_reader.Common.{ℕ, ltb, if◌then◌else◌, List, get_elem?, set, length}
use mpegts_reader.Common.Outcome.{Outcome, done, fault, checked}

-- `bytes[i]`
abbrev pub load : List ℕ → ℕ → Outcome ℕ
load bytes i = checked (get_elem? bytes i)

-- `bytes[i] = v`
abbrev pub store : List ℕ → ℕ → ℕ → Outcome (List ℕ)
store bytes i v = if ltb i (length bytes) then done (set bytes i v) else fault
