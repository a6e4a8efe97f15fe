-- ===== src/Tuning/Runtime/Replies.antt =====
-- runtime.py: a pick gives back one of its options.
use solutions_library.Prelude.{
  ℕ, zero, suc, ◌≡◌, refl, true, some, List, [], ◌∷◌, leb, length, get_elem?, inl, inr, Bool-cases,
  Option-cases, arith,
}
use solutions_library.Prelude.Options.{>>=-eq-some}
use solutions_library.Prelude.Text.{Text, text_eq_refl}
use solutions_library.Prelude.Int.{ℤ, pos, negsuc}
use solutions_library.Tuning.Runtime.{Builtins, numbered, first_reply, read_pick, input_pick}
use solutions_library.Tuning.Selection.{has_text}

has_text-get_elem? :
    (options : List Text) (i : ℕ) (t : Text)
    → get_elem? options i ≡ some t
    → has_text t options ≡ true
has_text-get_elem? [] i t h = absurd (cc h)
has_text-get_elem? (x ∷ options) zero t h =
    let same : x ≡ t = cc in rw same (rw (text_eq_refl t) refl)
has_text-get_elem? (x ∷ options) (suc i) t h = ground (arith, has_text-get_elem? options i t h)

has_text-numbered :
    (options : List Text) (idx : ℤ) (t : Text)
    → numbered options idx ≡ some t
    → has_text t options ≡ true
unfolding numbered
has_text-numbered options (pos zero) t h = absurd (cc h)
has_text-numbered options (pos (suc i)) t h = elim (Bool-cases (leb (suc i) (length options))) [
  | inl e ↦ has_text-get_elem? options i t (ground arith)
  | inr e ↦ absurd (ground arith)
]
has_text-numbered options (negsuc i) t h = absurd (cc h)

module _ {F : Type 0} (py : Builtins F) (options : List Text) where
  has_text-read_pick :
      (raw t : Text) → read_pick py options raw ≡ some t → has_text t options ≡ true
  unfolding read_pick
  has_text-read_pick raw t h =
      let (idx, read, found) = >>=-eq-some (py.int_of _) _ h in
      has_text-numbered options idx t found

  has_text-first_reply :
      (lines : List Text) (t : Text)
      → first_reply (read_pick py options) lines ≡ some t
      → has_text t options ≡ true
  unfolding first_reply
  has_text-first_reply [] t h = absurd (cc h)
  has_text-first_reply (raw ∷ lines) t h = elim (Option-cases (read_pick py options raw)) [
    | inl e ↦ has_text-first_reply lines t (ground arith)
    | inr (u, e) ↦ has_text-read_pick raw t (ground arith)
  ]

  pub has_text-input_pick :
      (lines : List Text) (t : Text)
      → input_pick py options lines ≡ some t
      → has_text t options ≡ true
  unfolding input_pick
  has_text-input_pick lines t h = has_text-first_reply lines t h
