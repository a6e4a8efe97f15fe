-- ===== src/Prelude/Lines.antt =====
-- Texts as lines: what a file gives line by line, and what `rstrip` takes off a line.
use Prim.Native.Nat.{ℕ}
use mathlib.Core.Path.{◌≡◌, refl, ap}
use mathlib.Core.Bool.{Bool, true, false, ◌&&◌}
use mathlib.Core.List.{List, [], ◌∷◌, ◌++◌, append_assoc}
use native.Mathlib.Omega.{arith}
use solutions_library.Prelude.Tests.{◌==◌, if◌then◌else◌}
use solutions_library.Prelude.Lists.{All, is_nil}
use solutions_library.Prelude.Text.{Text, codes, join, split_first, IsFreeOf, split_first-join}

-- `s.rstrip(...)`, for the characters that the test accepts.
unfoldable pub rstrip : (ℕ → Bool) → Text → Text
rstrip p [] = []
rstrip p (c ∷ s) = let rest = rstrip p s in if is_nil rest && p c then [] else c ∷ rest

pub is_nil-append : (s t : Text) → is_nil t ≡ false → is_nil (s ++ t) ≡ false
is_nil-append [] t n = n
is_nil-append (c ∷ s) t n = refl

pub rstrip-append :
    (p : ℕ → Bool) (s t : Text) → is_nil t ≡ false → rstrip p t ≡ t → rstrip p (s ++ t) ≡ s ++ t
unfolding rstrip
rstrip-append p [] t n h = h
rstrip-append p (c ∷ s) t n h = rw (rstrip-append p s t n h) (rw (is_nil-append s t n) refl)

pub rstrip-snoc :
    (p : ℕ → Bool) (s : Text) (c : ℕ) → p c ≡ true → rstrip p (s ++ (c ∷ [])) ≡ rstrip p s
unfolding rstrip
rstrip-snoc p [] c h = rw h refl
rstrip-snoc p (x ∷ s) c h = rw (rstrip-snoc p s c h) refl

pub rstrip_weaken :
    (p q : ℕ → Bool) (s : Text)
    → ((c : ℕ) → q c ≡ true → p c ≡ true)
    → rstrip p s ≡ s
    → rstrip q s ≡ s
unfolding rstrip
rstrip_weaken p q [] w h = refl
rstrip_weaken p q (c ∷ s) w h = ground (arith, rstrip_weaken p q s w, w c)

-- The lines of a text that end in a line break.
abbrev pub init : List Text → List Text
init [] = []
init (p ∷ []) = []
init (p ∷ q ∷ ps) = p ∷ init (q ∷ ps)

unfoldable pub read_lines : Text → List Text
read_lines s = let (p, ps) = split_first b'\n' s in init (p ∷ ps)

join-snoc-nil :
    (k : Text) (ks : List Text)
    → join (codes "\n") (k ∷ ks) ++ codes "\n" ≡ join (codes "\n") (k ∷ (ks ++ ([] ∷ [])))
unfolding join
join-snoc-nil k [] = refl
join-snoc-nil k (l ∷ ks) =
    rw (append_assoc k (b'\n' ∷ join (codes "\n") (l ∷ ks)) (codes "\n"))
      (ap (λ r. k ++ (b'\n' ∷ r)) (join-snoc-nil l ks))

init-snoc : (k : Text) (ks : List Text) → init (k ∷ (ks ++ ([] ∷ []))) ≡ k ∷ ks
init-snoc k [] = refl
init-snoc k (l ∷ ks) = ap (◌∷◌ k) (init-snoc l ks)

All-snoc-nil : (ks : List Text) → All (IsFreeOf b'\n') ks → All (IsFreeOf b'\n') (ks ++ ([] ∷ []))
All-snoc-nil [] h = (tt, tt)
All-snoc-nil (k ∷ ks) h = (h.0, All-snoc-nil ks h.1)

-- The lines of a text that is made of lines without a line break.
pub read_lines-join :
    (k : Text) (ks : List Text)
    → All (IsFreeOf b'\n') (k ∷ ks)
    → read_lines (join (codes "\n") (k ∷ ks) ++ codes "\n") ≡ k ∷ ks
unfolding join split_first read_lines
read_lines-join k ks h =
    rw (join-snoc-nil k ks)
      (rw (split_first-join b'\n' k (ks ++ ([] ∷ [])) (h.0, All-snoc-nil ks h.1)) (init-snoc k ks))

-- A text without a line break is its own line.
pub rstrip_free : (s : Text) → IsFreeOf b'\n' s → rstrip (λ c. c == b'\n') s ≡ s
unfolding rstrip
rstrip_free [] h = refl
rstrip_free (c ∷ s) h = ground (arith, rstrip_free s h.1)
