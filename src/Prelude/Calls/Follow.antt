-- ===== src/Prelude/Calls/Follow.antt =====
-- Calls as the input of an automaton, which refuses a call by `none`.
use mathlib.Core.Path.{◌≡◌, refl}
use mathlib.Core.List.{List, [], ◌∷◌, ◌++◌}
use mathlib.Core.Option.{Option, none, some}
use solutions_library.Prelude.Options.{◌>>=◌}

module _ {S C : Type 0} (step : S → C → Option S) where
  -- The state behind all the calls.
  unfoldable pub follow : S → List C → Option S
  follow s [] = some s
  follow s (c ∷ calls) = step s c >>= λ t. follow t calls

  pub follow-snoc :
      (s : S) (calls : List C) (c : C)
      → follow s (calls ++ (c ∷ [])) ≡ (follow s calls >>= λ t. step t c)
  unfolding follow
  follow-snoc s [] c = elim (step s c) as (λ o. (o >>= λ t. follow t []) ≡ o) [
    | none ↦ refl
    | some t ↦ refl
  ]
  follow-snoc s (d ∷ calls) c =
      elim (step s d)
        as (λ o.
          (o >>= λ t. follow t (calls ++ (c ∷ [])))
          ≡ ((o >>= λ t. follow t calls) >>= λ t. step t c)) [
            | none ↦ refl
            | some t ↦ follow-snoc t calls c
          ]
