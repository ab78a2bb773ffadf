-- ===== src/Common/Outcome/Runs.antt =====
-- Code that is not out of fuel: it returns, exits or faults.
use Prim.Native.Nat.{ℕ}
use mathlib.Core.Bool.{Bool, true, false}
use mathlib.Core.Path.{◌≡◌, refl}
use mathlib.Core.Logic.{◌≢◌}
use mathlib.Core.Option.{Option, none, some}
use mpegts_reader.Common.Outcome.{Outcome, done, exited, fault, stuck, ◌>>=◌, checked}
use mpegts_reader.Common.Tests.{if◌then◌else◌}

pub data Runs {ℓ} {A : Type ℓ} : Outcome A → Type ℓ where
  returns : {a : A} → Runs (done a)
  exits : {e : ℕ} → Runs (exited e)
  faults : Runs fault

module _ {ℓ} {A : Type ℓ} where
  pub Runs-ne-stuck : {m : Outcome A} → Runs m → m ≢ stuck
  Runs-ne-stuck returns = λ h. cc
  Runs-ne-stuck exits = λ h. cc
  Runs-ne-stuck faults = λ h. cc

  pub checked-Runs : (o : Option A) → Runs (checked o)
  checked-Runs none = faults
  checked-Runs (some a) = returns

  pub if-Runs : (b : Bool) {m n : Outcome A} → Runs m → Runs n → Runs (if b then m else n)
  if-Runs true hm hn = hm
  if-Runs false hm hn = hn

  pub option-Runs {κ} :
      {B : Type κ} (o : Option B) {m : Outcome A} {f : B → Outcome A}
      → Runs m
      → ((b : B) → Runs (f b))
      → Runs (elim o [ none ↦ m | some b ↦ f b ])
  option-Runs none hm hf = hm
  option-Runs (some b) hm hf = hf b

  pub >>=-Runs {κ} :
      {B : Type κ} {m : Outcome A} (f : A → Outcome B)
      → Runs m
      → ((a : A) → Runs (f a))
      → Runs (m >>= f)
  >>=-Runs f returns hf = hf _
  >>=-Runs f exits hf = exits
  >>=-Runs f faults hf = faults

  -- The rest of a chain may use what its start gave.
  pub >>=-Runs_done {κ} :
      {B : Type κ} {m : Outcome A} (f : A → Outcome B)
      → Runs m
      → ((a : A) → m ≡ done a → Runs (f a))
      → Runs (m >>= f)
  >>=-Runs_done f returns hf = hf _ refl
  >>=-Runs_done f exits hf = exits
  >>=-Runs_done f faults hf = faults

pub ruleset runs = (returns, exits, faults, checked-Runs, if-Runs, >>=-Runs)
