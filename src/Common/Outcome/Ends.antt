-- ===== src/Common/Outcome/Ends.antt =====
-- What holds of the result of code, if it returns one: the rules for the chains of a do block.
use mathlib.Core.Bool.{Bool, true, false}
use mathlib.Core.Path.{◌≡◌, refl, subst}
use mpegts_reader.Common.Outcome.{Outcome, done, exited, fault, stuck, ◌>>=◌, done-injective}
use mpegts_reader.Common.Tests.{if◌then◌else◌}

module _ {ℓ κ} {A : Type ℓ} where
  abbrev pub Ends : (A → Type κ) → Outcome A → Type κ
  Ends P (done a) = P a
  Ends P (exited e) = Unit {κ}
  Ends P fault = Unit {κ}
  Ends P stuck = Unit {κ}

  pub Ends-done : (P : A → Type κ) (m : Outcome A) {a : A} → Ends P m → m ≡ done a → P a
  Ends-done P (done b) {a} h e = subst P (done-injective b a e) h
  Ends-done P (exited c) h e = cc
  Ends-done P fault h e = cc
  Ends-done P stuck h e = cc

  pub if-Ends :
      (P : A → Type κ) (b : Bool) (m n : Outcome A)
      → Ends P m
      → Ends P n
      → Ends P (if b then m else n)
  if-Ends P true m n hm hn = hm
  if-Ends P false m n hm hn = hn

-- A result is what the code gives.
pub Ends-same {ℓ} : {A : Type ℓ} (m : Outcome A) → Ends (λ a. m ≡ done a) m
Ends-same (done a) = refl
Ends-same (exited e) = tt
Ends-same fault = tt
Ends-same stuck = tt

-- The rest of a chain, whatever its start gives, and with what is known of that.
module _ {ℓ κ μ} {A : Type ℓ} {B : Type κ} (P : B → Type μ) where
  pub >>=-Ends : (m : Outcome A) (f : A → Outcome B) → ((a : A) → Ends P (f a)) → Ends P (m >>= f)
  >>=-Ends (done a) f h = h a
  >>=-Ends (exited e) f h = tt
  >>=-Ends fault f h = tt
  >>=-Ends stuck f h = tt

  pub >>=-Ends_then {ν} :
      (Q : A → Type ν) (m : Outcome A) (f : A → Outcome B)
      → Ends Q m
      → ((a : A) → Q a → Ends P (f a))
      → Ends P (m >>= f)
  >>=-Ends_then Q (done a) f q h = h a q
  >>=-Ends_then Q (exited e) f q h = tt
  >>=-Ends_then Q fault f q h = tt
  >>=-Ends_then Q stuck f q h = tt
