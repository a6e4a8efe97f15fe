-- ===== src/Tuning/Prompts/Chosen.antt =====
-- helper.py: what is chosen for a hyperparameter is one of its choices.
use solutions_library.Prelude.{
  ◌≡◌, refl, sym, inl, inr, true, false, none, some, List, [], ◌∷◌, ◌++◌, map, if◌then◌else◌,
  Bool-cases, arith, subst,
}
use solutions_library.Prelude.Text.{Text, codes, text_eq, text_eq_iff}
use solutions_library.Prelude.Json.{Json}
use solutions_library.Prelude.Calls.Yields.{Yields-bind, Yields-pure}
use solutions_library.Tuning.Schema.{Kind, Spec}
use solutions_library.Tuning.Selection.{has_text}
use solutions_library.Tuning.Service.{World}
use solutions_library.Tuning.Prompts.{
  plain, starts_with, or_empty, display_default, chosen_value, prompt_choice,
}
use solutions_library.Tuning.Prompts.Answers.{Offers, Returns, Returns-pick}
use solutions_library.Tuning.Prompts.Allowed.{IsAmong, IsWithin, IsGiven}

module _ {F : Type 0} (w : World F) where
  first_option :
      (rest : Text)
      → starts_with (codes "(server default)") (codes "(server default)  current: " ++ rest) ≡ true
  unfolding starts_with
  first_option rest = refl

  -- An option other than the first is one of the choices.
  chosen_value-IsAmong :
      (choices : List Json) (chosen : Text)
      → has_text chosen (map w.builtins.str_of choices) ≡ true
      → IsAmong (chosen_value w choices chosen) choices
  unfolding chosen_value
  chosen_value-IsAmong [] chosen h = absurd (cc h)
  chosen_value-IsAmong (c ∷ choices) chosen h =
      elim (Bool-cases (text_eq (w.builtins.str_of c) chosen)) [
        | inl e ↦ let this : chosen_value w (c ∷ choices) chosen ≡ c = rw e refl in inl (sym this)
        | inr e ↦
            let later : chosen_value w (c ∷ choices) chosen ≡ chosen_value w choices chosen =
              rw e refl in
            let rest = chosen_value-IsAmong choices chosen (ground arith) in
            inr (subst (λ v. IsAmong v choices) (sym later) rest)
      ]

  choice_made :
      (kind : Kind) (spec : Spec) (first chosen : Text)
      → ((v : Json) → IsAmong v (or_empty spec.choices) → IsWithin w kind spec (plain v))
      → starts_with (codes "(server default)") first ≡ true
      → has_text chosen (first ∷ map w.builtins.str_of (or_empty spec.choices)) ≡ true
      → IsGiven w kind spec (
          if starts_with (codes "(server default)") chosen
          then none
          else some (plain (chosen_value w (or_empty spec.choices) chosen)))
  choice_made kind spec first chosen allowed default h =
      elim (Bool-cases (starts_with (codes "(server default)") chosen)) [
        | inl e ↦ rw e tt
        | inr e ↦
            let other : text_eq first chosen ≡ false = ground (arith, text_eq_iff first chosen) in
            rw e (allowed _ (chosen_value-IsAmong (or_empty spec.choices) chosen (ground arith)))
      ]

  pub Returns-choice :
      (kind : Kind) (spec : Spec)
      → Offers w
      → ((v : Json) → IsAmong v (or_empty spec.choices) → IsWithin w kind spec (plain v))
      → Returns (IsGiven w kind spec) (prompt_choice w spec)
  unfolding prompt_choice
  Returns-choice kind spec offers allowed = Yields-bind _ (Returns-pick w _ offers) (λ chosen.
      Yields-pure (λ calls h.
        choice_made kind spec _ chosen allowed (first_option (display_default w spec.default)) h))
