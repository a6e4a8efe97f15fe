-- ===== src/Prelude/Dict.antt =====
-- Python's `dict` with text keys, as an association list in insertion order.
use mathlib.Core.Path.{◌≡◌, refl}
use mathlib.Core.Bool.{Bool}
use mathlib.Core.Option.{Option, none, some}
use mathlib.Core.List.{List, [], ◌∷◌}
use native.Mathlib.Omega.{arith}
use solutions_library.Prelude.Tests.{if◌then◌else◌, is_some}
use solutions_library.Prelude.Text.{Text, text_eq, text_eq_iff}

abbrev pub Dict {ℓ} : Type ℓ → Type ℓ
Dict V = List (Text × V)

module _ {ℓ} {V : Type ℓ} where
  -- `d.get(k)`
  unfoldable pub lookup : Text → Dict V → Option V
  lookup k [] = none
  lookup k ((j, v) ∷ d) = if text_eq j k then some v else lookup k d

  -- `k in d`
  abbrev pub contains : Text → Dict V → Bool
  contains k d = is_some (lookup k d)

  -- `d[k] = v`
  unfoldable pub insert : Text → V → Dict V → Dict V
  insert k v [] = (k, v) ∷ []
  insert k v ((j, w) ∷ d) = if text_eq j k then (j, v) ∷ d else (j, w) ∷ insert k v d

  pub lookup-insert :
      (k j : Text) (v : V) (d : Dict V)
      → lookup j (insert k v d) ≡ (if text_eq k j then some v else lookup j d)
  unfolding lookup insert
  lookup-insert k j v [] = refl
  lookup-insert k j v ((i, w) ∷ d) =
      ground (arith, text_eq_iff k j, text_eq_iff i k, text_eq_iff i j, lookup-insert k j v d)

  -- No key occurs twice.
  abbrev pub HasUniqueKeys : Dict V → Type ℓ
  HasUniqueKeys [] = Unit
  HasUniqueKeys ((k, v) ∷ d) = (lookup k d ≡ none) × HasUniqueKeys d

  pub insert-HasUniqueKeys :
      (k : Text) (v : V) (d : Dict V) → HasUniqueKeys d → HasUniqueKeys (insert k v d)
  unfolding lookup insert
  insert-HasUniqueKeys k v [] h = (refl, tt)
  insert-HasUniqueKeys k v ((j, w) ∷ d) h = ground (
    arith,
    text_eq_iff j k,
    text_eq_iff k j,
    lookup-insert k j v d,
    insert-HasUniqueKeys k v d h.1,
  )

  -- `{k: v for k, v in d.items() if p(v)}`
  unfoldable pub select_values : (V → Bool) → Dict V → Dict V
  select_values p [] = []
  select_values p ((k, v) ∷ d) = let rest = select_values p d in if p v then (k, v) ∷ rest else rest

  abbrev pub keep_if : (V → Bool) → Option V → Option V
  keep_if p none = none
  keep_if p (some v) = if p v then some v else none

  lookup-select_values-none :
      (p : V → Bool) (j : Text) (d : Dict V)
      → lookup j d ≡ none
      → lookup j (select_values p d) ≡ none
  unfolding lookup select_values
  lookup-select_values-none p j [] h = refl
  lookup-select_values-none p j ((k, v) ∷ d) h = ground (arith, lookup-select_values-none p j d)

  pub lookup-select_values :
      (p : V → Bool) (j : Text) (d : Dict V)
      → HasUniqueKeys d
      → lookup j (select_values p d) ≡ keep_if p (lookup j d)
  unfolding lookup select_values
  lookup-select_values p j [] h = refl
  lookup-select_values p j ((k, v) ∷ d) h =
      ground (
        arith,
        text_eq_iff k j,
        lookup-select_values p j d h.1,
        lookup-select_values-none p k d h.0,
      )

  pub select_values-HasUniqueKeys :
      (p : V → Bool) (d : Dict V) → HasUniqueKeys d → HasUniqueKeys (select_values p d)
  unfolding select_values
  select_values-HasUniqueKeys p [] h = tt
  select_values-HasUniqueKeys p ((k, v) ∷ d) h =
      ground (arith, lookup-select_values-none p k d h.0, select_values-HasUniqueKeys p d h.1)
