-- ===== src/Tuning/Prompts/Bounds.antt =====
-- helper.py: a value that the user gives for a hyperparameter is one that its specification allows.
use solutions_library.Prelude.{
  ℕ, ◌≡◌, refl, inl, inr, Bool, true, false, Option, none, some, [], arith,
}
use solutions_library.Prelude.Int.{ℤ, pos, pos_part, leb_ℤ}
use solutions_library.Prelude.Json.{Json}
use solutions_library.Prelude.Calls.Yields.{Yields-any, Yields-bind, Yields-if}
use solutions_library.Tuning.Swagger.{is_none}
use solutions_library.Tuning.Schema.{
  Kind, one_of, one_of_or_null, int_or_auto, float_or_auto, int_or_null, float_or_null, Spec,
}
use solutions_library.Tuning.Service.{World, text}
use solutions_library.Tuning.Prompts.{
  Value, as_num, refuse, below, between, above, is_auto, is_blank, take_int, take_positive,
  take_above, prompt_int_or_auto, prompt_float_or_auto, prompt_int_or_null, holds, check_upper,
  check_range, take_float, prompt_float_or_null, prompt_for, prompt_for_hyperparam,
}
use solutions_library.Tuning.Prompts.Answers.{
  Offers, Anything, Returns, Returns-pure, Returns-raise, Returns-abort,
}
use solutions_library.Tuning.Prompts.Allowed.{IsGiven}
use solutions_library.Tuning.Prompts.Chosen.{Returns-choice}

module _ {F : Type 0} (w : World F) where
  Returns-refuse : {Good : Option (Value F) → Type 0} (bound : Json) → Returns Good (refuse w bound)
  unfolding refuse
  Returns-refuse bound = Yields-if (is_none bound) (λ _. Returns-raise) (λ _. Returns-abort w 1)

  Returns-below :
      (spec : Spec) (v : ℤ) (lo : ℕ) (hi : Json)
      → spec.min ≡ Json.num lo
      → spec.max ≡ hi
      → leb_ℤ (pos lo) v ≡ true
      → Returns (IsGiven w int_or_auto spec) (below w v (as_num hi))
  unfolding below
  Returns-below spec v lo (Json.num hi) e f above_min =
      Yields-if (leb_ℤ v (pos hi))
        (λ below_max.
          Returns-pure (inr (pos_part v, refl, (rw e (ground arith)), (rw f (ground arith)))))
        (λ _. Returns-abort w 1)
  Returns-below spec v lo _ e f above_min = Returns-raise

  Returns-between :
      (spec : Spec) (v : ℤ) (lo : Json)
      → spec.min ≡ lo
      → Returns (IsGiven w int_or_auto spec) (between w v (as_num lo) (as_num spec.max))
  unfolding between
  Returns-between spec v (Json.num lo) e =
      Yields-if (leb_ℤ (pos lo) v) (λ above_min. Returns-below spec v lo spec.max e refl above_min)
        (λ _. Returns-abort w 1)
  Returns-between spec v _ e = Returns-raise

  Returns-take_int :
      (spec : Spec) (o : Option ℤ) → Returns (IsGiven w int_or_auto spec) (take_int w spec o)
  unfolding take_int
  Returns-take_int spec none = Returns-refuse spec.min
  Returns-take_int spec (some v) = Returns-between spec v spec.min refl

  Returns-int_or_auto :
      (spec : Spec) → Returns (IsGiven w int_or_auto spec) (prompt_int_or_auto w spec)
  unfolding prompt_int_or_auto
  Returns-int_or_auto spec =
      Yields-if (is_none spec.max) (λ _. Returns-raise)
        (λ _.
          Yields-bind (λ raw. Anything) (Yields-any (text w (w.builtins.str_of spec.default)))
            (λ raw.
              Yields-if (is_auto w raw) (λ _. Returns-pure (inl refl))
                (λ _. Returns-take_int spec _)))

  Returns-take_positive :
      (spec : Spec) (o : Option F) → Returns (IsGiven w float_or_auto spec) (take_positive w o)
  unfolding take_positive
  Returns-take_positive spec none = Returns-abort w 1
  Returns-take_positive spec (some v) =
      Yields-if (w.builtins.is_positive v) (λ e. Returns-pure e) (λ _. Returns-abort w 1)

  Returns-float_or_auto :
      (spec : Spec) → Returns (IsGiven w float_or_auto spec) (prompt_float_or_auto w spec)
  unfolding prompt_float_or_auto
  Returns-float_or_auto spec =
      Yields-bind (λ raw. Anything) (Yields-any (text w (w.builtins.str_of spec.default)))
        (λ raw.
          Yields-if (is_auto w raw) (λ _. Returns-pure refl) (λ _. Returns-take_positive spec _))

  Returns-above :
      (spec : Spec) (v : ℤ) (lo : Json)
      → spec.min ≡ lo
      → Returns (IsGiven w int_or_null spec) (above w v (as_num lo))
  unfolding above
  Returns-above spec v (Json.num lo) e =
      Yields-if (leb_ℤ (pos lo) v)
        (λ above_min. Returns-pure (pos_part v, refl, (rw e (ground arith))))
        (λ _. Returns-abort w 1)
  Returns-above spec v _ e = Returns-raise

  Returns-take_above :
      (spec : Spec) (o : Option ℤ) → Returns (IsGiven w int_or_null spec) (take_above w spec o)
  unfolding take_above
  Returns-take_above spec none = Returns-abort w 1
  Returns-take_above spec (some v) = Returns-above spec v spec.min refl

  Returns-int_or_null :
      (spec : Spec) → Returns (IsGiven w int_or_null spec) (prompt_int_or_null w spec)
  unfolding prompt_int_or_null
  Returns-int_or_null spec =
      Yields-if (is_none spec.min) (λ _. Returns-raise)
        (λ _.
          Yields-bind (λ raw. Anything) (Yields-any (text w []))
            (λ raw.
              Yields-if (is_blank w raw) (λ _. Returns-pure tt) (λ _. Returns-take_above spec _)))

  Returns-check_upper :
      (spec : Spec) (v : F) (upper : Option Bool)
      → holds w (w.builtins.is_at_least v) spec.min ≡ some true
      → holds w (w.builtins.is_at_most v) spec.max ≡ upper
      → Returns (IsGiven w float_or_null spec) (check_upper w v upper)
  unfolding check_upper
  Returns-check_upper spec v none e f = Returns-raise
  Returns-check_upper spec v (some true) e f = Returns-pure (e, f)
  Returns-check_upper spec v (some false) e f = Returns-abort w 1

  Returns-check_range :
      (spec : Spec) (v : F) (lower : Option Bool)
      → holds w (w.builtins.is_at_least v) spec.min ≡ lower
      → Returns
          (IsGiven w float_or_null spec)
          (check_range w v lower (holds w (w.builtins.is_at_most v) spec.max))
  unfolding check_range
  Returns-check_range spec v none e = Returns-raise
  Returns-check_range spec v (some true) e = Returns-check_upper spec v _ e refl
  Returns-check_range spec v (some false) e = Returns-abort w 1

  Returns-take_float :
      (spec : Spec) (o : Option F) → Returns (IsGiven w float_or_null spec) (take_float w spec o)
  unfolding take_float
  Returns-take_float spec none = Returns-abort w 1
  Returns-take_float spec (some v) = Returns-check_range spec v _ refl

  Returns-float_or_null :
      (spec : Spec) → Returns (IsGiven w float_or_null spec) (prompt_float_or_null w spec)
  unfolding prompt_float_or_null
  Returns-float_or_null spec =
      Yields-bind (λ raw. Anything) (Yields-any (text w []))
        (λ raw. Yields-if (is_blank w raw) (λ _. Returns-pure tt) (λ _. Returns-take_float spec _))

  Returns-prompt_for :
      (kind : Kind) (spec : Spec)
      → Offers w
      → Returns (IsGiven w kind spec) (prompt_for w kind spec)
  unfolding prompt_for
  Returns-prompt_for one_of spec offers = Returns-choice w one_of spec offers (λ v h. h)
  Returns-prompt_for one_of_or_null spec offers =
      Returns-choice w one_of_or_null spec offers (λ v h. h)
  Returns-prompt_for int_or_auto spec offers = Returns-int_or_auto spec
  Returns-prompt_for float_or_auto spec offers = Returns-float_or_auto spec
  Returns-prompt_for int_or_null spec offers = Returns-int_or_null spec
  Returns-prompt_for float_or_null spec offers = Returns-float_or_null spec

  pub Returns-prompt_for_hyperparam :
      (spec : Spec) → Offers w → Returns (IsGiven w spec.kind spec) (prompt_for_hyperparam w spec)
  unfolding prompt_for_hyperparam
  Returns-prompt_for_hyperparam spec offers = Returns-prompt_for spec.kind spec offers
