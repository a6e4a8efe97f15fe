-- ===== src/Tuning/Run/Asking.antt =====
-- helper.py: the questions only ask.
use solutions_library.Prelude.{ℕ, Bool, Option, none, some, List, [], ◌∷◌}
use solutions_library.Prelude.Text.{Text}
use solutions_library.Prelude.Dict.{Dict}
use solutions_library.Prelude.Int.{ℤ}
use solutions_library.Prelude.Json.{Json}
use solutions_library.Tuning.Schema.{
  Kind, one_of, one_of_or_null, int_or_auto, float_or_auto, int_or_null, float_or_null, Spec,
}
use solutions_library.Tuning.Service.{World}
use solutions_library.Tuning.Prompts.{
  Value, prompt_choice, refuse, below, between, above, prompt_int_or_auto, prompt_float_or_auto,
  prompt_int_or_null, check_upper, check_range, take_int, take_positive, take_above, take_float,
  prompt_float_or_null, prompt_for, prompt_for_hyperparam,
}
use solutions_library.Tuning.Overrides.{ask_values}
use solutions_library.Tuning.Run.Stages.{Stage}
use solutions_library.Tuning.Run.Rules.{
  Phase, Stays, stays_rules, Stays-abort, Stays-pick, Stays-text,
}

module _ {F : Type 0} (w : World F) (first : Stage) (p : Phase) where
  ruleset asking = (stays_rules, Stays-abort, Stays-pick, Stays-text)

  Stays-choice : (spec : Spec) → Stays first p (prompt_choice w spec)
  unfolding prompt_choice
  Stays-choice spec = search asking

  Stays-refuse : (bound : Json) → Stays first p (refuse w bound)
  unfolding refuse
  Stays-refuse bound = search asking

  Stays-below : (v : ℤ) (hi : Option ℕ) → Stays first p (below w v hi)
  unfolding below
  Stays-below v none = search asking
  Stays-below v (some hi) = search asking

  Stays-between : (v : ℤ) (lo hi : Option ℕ) → Stays first p (between w v lo hi)
  unfolding between
  Stays-between v none hi = search asking
  Stays-between v (some lo) hi = search (asking, Stays-below)

  Stays-above : (v : ℤ) (lo : Option ℕ) → Stays first p (above w v lo)
  unfolding above
  Stays-above v none = search asking
  Stays-above v (some lo) = search asking

  Stays-check_upper : (v : F) (upper : Option Bool) → Stays first p (check_upper w v upper)
  unfolding check_upper
  Stays-check_upper v none = search asking
  Stays-check_upper v (some good) = search asking

  Stays-check_range :
      (v : F) (lower upper : Option Bool) → Stays first p (check_range w v lower upper)
  unfolding check_range
  Stays-check_range v none upper = search asking
  Stays-check_range v (some good) upper = search (asking, Stays-check_upper)

  Stays-take_int : (spec : Spec) (o : Option ℤ) → Stays first p (take_int w spec o)
  unfolding take_int
  Stays-take_int spec none = Stays-refuse spec.min
  Stays-take_int spec (some v) = Stays-between v _ _

  Stays-take_positive : (o : Option F) → Stays first p (take_positive w o)
  unfolding take_positive
  Stays-take_positive none = search asking
  Stays-take_positive (some v) = search asking

  Stays-take_above : (spec : Spec) (o : Option ℤ) → Stays first p (take_above w spec o)
  unfolding take_above
  Stays-take_above spec none = search asking
  Stays-take_above spec (some v) = Stays-above v _

  Stays-take_float : (spec : Spec) (o : Option F) → Stays first p (take_float w spec o)
  unfolding take_float
  Stays-take_float spec none = search asking
  Stays-take_float spec (some v) = Stays-check_range v _ _

  Stays-int_or_auto : (spec : Spec) → Stays first p (prompt_int_or_auto w spec)
  unfolding prompt_int_or_auto
  Stays-int_or_auto spec = search (asking, Stays-take_int)

  Stays-float_or_auto : (spec : Spec) → Stays first p (prompt_float_or_auto w spec)
  unfolding prompt_float_or_auto
  Stays-float_or_auto spec = search (asking, Stays-take_positive)

  Stays-int_or_null : (spec : Spec) → Stays first p (prompt_int_or_null w spec)
  unfolding prompt_int_or_null
  Stays-int_or_null spec = search (asking, Stays-take_above)

  Stays-float_or_null : (spec : Spec) → Stays first p (prompt_float_or_null w spec)
  unfolding prompt_float_or_null
  Stays-float_or_null spec = search (asking, Stays-take_float)

  Stays-prompt_for : (kind : Kind) (spec : Spec) → Stays first p (prompt_for w kind spec)
  unfolding prompt_for
  Stays-prompt_for one_of spec = Stays-choice spec
  Stays-prompt_for one_of_or_null spec = Stays-choice spec
  Stays-prompt_for int_or_auto spec = Stays-int_or_auto spec
  Stays-prompt_for float_or_auto spec = Stays-float_or_auto spec
  Stays-prompt_for int_or_null spec = Stays-int_or_null spec
  Stays-prompt_for float_or_null spec = Stays-float_or_null spec

  Stays-prompt_for_hyperparam : (spec : Spec) → Stays first p (prompt_for_hyperparam w spec)
  unfolding prompt_for_hyperparam
  Stays-prompt_for_hyperparam spec = Stays-prompt_for spec.kind spec

  pub Stays-ask_values :
      (specs : List Spec) (selected : List Text) (overrides : Dict (Value F))
      → Stays first p (ask_values w specs selected overrides)
  unfolding ask_values
  Stays-ask_values specs [] overrides = search asking
  Stays-ask_values specs (item ∷ selected) overrides =
      search (asking, Stays-prompt_for_hyperparam, Stays-ask_values specs selected)
