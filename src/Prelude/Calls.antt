-- ===== src/Prelude/Calls.antt =====
-- Programs that make calls to the outside: a run takes the calls made so far and gives them back
-- with its own behind them, and with its end.
pub mod Yields
pub mod Leads
pub mod Finishes
pub mod Follow
use mathlib.Core.Path.{◌≡◌, refl}
use mathlib.Core.List.{List}
use mathlib.Core.Bool.{Bool, true, false}
use solutions_library.Prelude.Tests.{if◌then◌else◌}

-- A value, an exception, or `no_fuel`, which is a bound of the model.
pub data Ending {ℓ} (E A : Type ℓ) : Type ℓ where
  ok : A → Ending E A
  raised : E → Ending E A
  no_fuel : Ending E A

abbrev pub Run {ℓ} : Type ℓ → Type ℓ → Type ℓ → Type ℓ
Run C E A = List C → List C × Ending E A

abbrev pub pure : {C E A : Type 0} → A → Run C E A
pure a calls = (calls, ok a)

abbrev pub raise : {C E A : Type 0} → E → Run C E A
raise e calls = (calls, raised e)

abbrev pub out_of_fuel : {C E A : Type 0} → Run C E A
out_of_fuel calls = (calls, no_fuel)

infixl 5 ◌>>=◌ ◌>>◌
abbrev pub ◌>>=◌ : {C E A B : Type 0} → Run C E A → (A → Run C E B) → Run C E B
◌>>=◌ m f calls =
    let (calls', end) = m calls in
    elim end [ ok a ↦ f a calls' | raised e ↦ (calls', raised e) | no_fuel ↦ (calls', no_fuel) ]

abbrev pub ◌>>◌ : {C E A B : Type 0} → Run C E A → Run C E B → Run C E B
m >> k = m >>= λ _. k
