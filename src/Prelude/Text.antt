-- ===== src/Prelude/Text.antt =====
-- Texts as lists of code points, with Python's equality of strings.
use Prim.Native.Nat.{ℕ}
use Prim.Native.Char.{code}
use Prim.Native.String.{String}
use mathlib.Core.Path.{◌≡◌, refl, ap}
use mathlib.Core.Logic.{◌↔◌}
use mathlib.Core.Bool.{Bool, true, false, ◌&&◌}
use mathlib.Core.List.{List, [], ◌∷◌, ◌++◌}
use native.Mathlib.Omega.{arith}
use solutions_library.Prelude.Tests.{◌==◌, if◌then◌else◌}
use solutions_library.Prelude.Lists.{All}

abbrev pub Text : Type 0
Text = List ℕ

-- A literal of the source, as its code points.
abbrev pub codes : String → Text
codes String.[] = []
codes (String.◌∷◌ c s) = code c ∷ codes s

-- `s == t`
unfoldable pub text_eq : Text → Text → Bool
text_eq [] [] = true
text_eq (a ∷ s) (b ∷ t) = (a == b) && text_eq s t
text_eq _ _ = false

text_eq→eq : (s t : Text) → text_eq s t ≡ true → s ≡ t
unfolding text_eq
text_eq→eq [] [] h = refl
text_eq→eq (a ∷ s) (b ∷ t) h = ground (arith, text_eq→eq s t)
text_eq→eq [] (b ∷ t) h = cc
text_eq→eq (a ∷ s) [] h = cc

pub text_eq_refl : (s : Text) → text_eq s s ≡ true
unfolding text_eq
text_eq_refl [] = refl
text_eq_refl (a ∷ s) = ground (arith, text_eq_refl s)

pub text_eq_iff : (s t : Text) → (text_eq s t ≡ true) ↔ (s ≡ t)
text_eq_iff s t = (text_eq→eq s t, λ e. rw e (text_eq_refl t))

-- `sep.join(parts)`
unfoldable pub join : Text → List Text → Text
join sep [] = []
join sep (p ∷ []) = p
join sep (p ∷ q ∷ ps) = p ++ (sep ++ join sep (q ∷ ps))

-- The first piece of `s.split(c)` for a separator of one character, and the other pieces.
unfoldable pub split_first : ℕ → Text → Text × List Text
split_first c [] = ([], [])
split_first c (x ∷ s) =
    let (p, ps) = split_first c s in if x == c then ([], p ∷ ps) else (x ∷ p, ps)

-- The character does not occur in the text.
abbrev pub IsFreeOf : ℕ → Text → Type 0
IsFreeOf c [] = Unit
IsFreeOf c (x ∷ s) = ((x == c) ≡ false) × IsFreeOf c s

split_first-append :
    (c : ℕ) (p r : Text)
    → IsFreeOf c p
    → split_first c (p ++ (c ∷ r)) ≡ (p, (split_first c r).0 ∷ (split_first c r).1)
unfolding split_first
split_first-append c [] r h = ground arith
split_first-append c (x ∷ p) r h = ground (arith, split_first-append c p r h.1)

split_first_free : (c : ℕ) (p : Text) → IsFreeOf c p → split_first c p ≡ (p, [])
unfolding split_first
split_first_free c [] h = refl
split_first_free c (x ∷ p) h = ground (arith, split_first_free c p h.1)

-- Splitting at the separator undoes joining with it, if no piece has the separator.
pub split_first-join :
    (c : ℕ) (p : Text) (ps : List Text)
    → All (IsFreeOf c) (p ∷ ps)
    → split_first c (join (c ∷ []) (p ∷ ps)) ≡ (p, ps)
unfolding join
split_first-join c p [] h = split_first_free c p h.0
split_first-join c p (q ∷ ps) h =
    rw (split_first-append c p (join (c ∷ []) (q ∷ ps)) h.0) (rw (split_first-join c q ps h.1))

pub join-injective :
    (c : ℕ) (p q : Text) (ps qs : List Text)
    → All (IsFreeOf c) (p ∷ ps)
    → All (IsFreeOf c) (q ∷ qs)
    → join (c ∷ []) (p ∷ ps) ≡ join (c ∷ []) (q ∷ qs)
    → p ∷ ps ≡ q ∷ qs
join-injective c p q ps qs hp hq e =
    ground (arith, split_first-join c p ps hp, split_first-join c q qs hq, ap (split_first c) e)
