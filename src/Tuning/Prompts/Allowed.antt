-- ===== src/Tuning/Prompts/Allowed.antt =====
-- helper.py: the values that the prompt for a hyperparameter accepts.
use solutions_library.Prelude.{ℕ, ◌≤◌, ◌≡◌, ◌⊎◌, true, Option, none, some, List, [], ◌∷◌}
use solutions_library.Prelude.Text.{codes}
use solutions_library.Prelude.Json.{Json}
use solutions_library.Tuning.Schema.{
  Kind, one_of, one_of_or_null, int_or_auto, float_or_auto, int_or_null, float_or_null, Spec,
}
use solutions_library.Tuning.Service.{World}
use solutions_library.Tuning.Prompts.{Value, plain, real, or_empty, holds}

abbrev pub IsAmong : Json → List Json → Type 0
IsAmong v [] = ⊥
IsAmong v (c ∷ cs) = (c ≡ v) ⊎ IsAmong v cs

-- A bound that is a number.
abbrev pub IsLower : Json → ℕ → Type 0
IsLower (Json.num lo) n = lo ≤ n
IsLower _ n = ⊥

abbrev pub IsUpper : Json → ℕ → Type 0
IsUpper (Json.num hi) n = n ≤ hi
IsUpper _ n = ⊥

abbrev pub auto : Json
auto = Json.str (codes "auto")

module _ {F : Type 0} (w : World F) where
  -- What the prompt of each kind accepts, which need not heed all bounds of the catalog.
  abbrev pub IsWithin : Kind → Spec → Value F → Type 0
  IsWithin one_of spec (plain v) = IsAmong v (or_empty spec.choices)
  IsWithin one_of_or_null spec (plain v) = IsAmong v (or_empty spec.choices)
  IsWithin int_or_auto spec (plain v) =
      (v ≡ auto) ⊎ ((n : ℕ) × (v ≡ Json.num n) × IsLower spec.min n × IsUpper spec.max n)
  IsWithin float_or_auto spec (plain v) = v ≡ auto
  IsWithin float_or_auto spec (real x) = w.builtins.is_positive x ≡ true
  IsWithin int_or_null spec (plain v) = (n : ℕ) × (v ≡ Json.num n) × IsLower spec.min n
  IsWithin float_or_null spec (real x) =
      (holds w (w.builtins.is_at_least x) spec.min ≡ some true)
      × (holds w (w.builtins.is_at_most x) spec.max ≡ some true)
  IsWithin _ spec _ = ⊥

  -- A value that is given is allowed; `None` leaves the default to the service.
  abbrev pub IsGiven : Kind → Spec → Option (Value F) → Type 0
  IsGiven kind spec none = Unit
  IsGiven kind spec (some v) = IsWithin kind spec v
