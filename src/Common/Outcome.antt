-- ===== src/Common/Outcome.antt =====
-- The outcome of code that may stop: `exited` is the `exit(err)` of LOG_ERR, and `fault` an access
-- outside an array or through a pointer that points to nothing, which C leaves undefined. `stuck` is
-- no run of the program: the fuel of a loop ran out.
pub mod Ends
pub mod Runs
use Prim.Native.Nat.{ℕ}
use mathlib.Core.Option.{Option, none, some}
use mathlib.Core.Path.{◌≡◌, refl, sym, ap, subst, ◌∙◌}

pub data Outcome {ℓ} (A : Type ℓ) : Type ℓ where
  done : A → Outcome A
  exited : ℕ → Outcome A
  fault : Outcome A
  stuck : Outcome A

infixl 5 ◌>>=◌
abbrev pub ◌>>=◌ {ℓ κ} : {A : Type ℓ} {B : Type κ} → Outcome A → (A → Outcome B) → Outcome B
done a >>= f = f a
exited e >>= f = exited e
fault >>= f = fault
stuck >>= f = stuck

-- An access that an array refuses is a fault.
abbrev pub checked {ℓ} : {A : Type ℓ} → Option A → Outcome A
checked none = fault
checked (some a) = done a

-- Inversion of a chain that ran to its end.
pub >>=-eq-done {ℓ κ} :
    {A : Type ℓ} {B : Type κ} (m : Outcome A) (f : A → Outcome B) {b : B}
    → (m >>= f) ≡ done b
    → (a : A) × (m ≡ done a) × (f a ≡ done b)
>>=-eq-done (done a) f h = (a, refl, h)
>>=-eq-done (exited e) f h = cc
>>=-eq-done fault f h = cc
>>=-eq-done stuck f h = cc

pub done-injective {ℓ} : {A : Type ℓ} (a b : A) → done a ≡ done b → a ≡ b
done-injective a b e = cc

-- What holds of the result that is known holds of the result that is named.
pub holds_of_result {ℓ κ} :
    {A : Type ℓ} (P : A → Type κ) {m : Outcome A} {a b : A} → m ≡ done a → P a → m ≡ done b → P b
holds_of_result P {m} {a} {b} known p named = subst P (done-injective a b (sym known ∙ named)) p

pub checked_done {ℓ} : {A : Type ℓ} (m : Option A) (a : A) → checked m ≡ done a → m ≡ some a
checked_done none a e = cc
checked_done (some b) a e = ap some (done-injective b a e)
