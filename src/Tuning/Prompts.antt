-- ===== src/Tuning/Prompts.antt =====
-- crusoe-managed-finetuning-example/src/helper.py: the questions for the values of hyperparameters.

pub mod Answers
pub mod Allowed
pub mod Chosen
pub mod Bounds
use solutions_library.Prelude.{
  ℕ, ◌==◌, Bool, true, false, Option, none, some, List, [], ◌∷◌, ◌++◌, map, if◌then◌else◌, is_nil,
}
use solutions_library.Prelude.Calls.{pure, raise, ◌>>=◌}
use solutions_library.Prelude.Text.{Text, codes, text_eq}
use solutions_library.Prelude.Int.{ℤ, pos, pos_part, leb_ℤ}
use solutions_library.Prelude.Json.{Json, null}
use solutions_library.Transfer.Config.Sources.{strip}
use solutions_library.Tuning.Swagger.{is_str, is_none}
use solutions_library.Tuning.Schema.{
  Kind, one_of, one_of_or_null, int_or_auto, float_or_auto, int_or_null, float_or_null, Spec,
}
use solutions_library.Tuning.Service.{World, Action, other_error, abort, pick, text}

-- A value that is sent: one that JSON has, or a float.
pub data Value (F : Type 0) : Type 0 where
  plain : Json → Value F
  real : F → Value F

unfoldable pub starts_with : Text → Text → Bool
starts_with [] s = true
starts_with (c ∷ p) [] = false
starts_with (c ∷ p) (d ∷ s) = let rest = starts_with p s in if c == d then rest else false

abbrev pub as_num : Json → Option ℕ
as_num (Json.num n) = some n
as_num _ = none

abbrev or_empty : Option (List Json) → List Json
or_empty none = []
or_empty (some cs) = cs

module _ {F : Type 0} (w : World F) where
  unfoldable pub display_default : Json → Text
  display_default value =
      if is_str (codes "auto") value
      then codes "auto"
      else if is_none value
      then codes "server default"
      else w.builtins.str_of value

  -- The loop that finds the choice behind its text.
  unfoldable pub chosen_value : List Json → Text → Json
  chosen_value [] chosen = Json.str chosen
  chosen_value (c ∷ choices) chosen =
      let rest = chosen_value choices chosen in
      if text_eq (w.builtins.str_of c) chosen then c else rest

  unfoldable pub prompt_choice : Spec → Action (Option (Value F))
  prompt_choice spec = do
    let first = codes "(server default)  current: " ++ display_default spec.default
    chosen ← pick w (first ∷ map w.builtins.str_of (or_empty spec.choices))
    pure (
        if starts_with (codes "(server default)") chosen
        then none
        else some (plain (chosen_value (or_empty spec.choices) chosen)))

  -- Behind a value that is refused; the message reads the bound, which can be missing.
  unfoldable pub refuse : Json → Action (Option (Value F))
  refuse bound = if is_none bound then raise other_error else abort w 1

  -- `v <= spec["max"]`, and the value where it holds.
  unfoldable pub below : ℤ → Option ℕ → Action (Option (Value F))
  below v none = raise other_error
  below v (some hi) =
      if leb_ℤ v (pos hi) then pure (some (plain (Json.num (pos_part v)))) else abort w 1

  -- `spec["min"] <= v <= spec["max"]`
  unfoldable pub between : ℤ → Option ℕ → Option ℕ → Action (Option (Value F))
  between v none hi = raise other_error
  between v (some lo) hi = if leb_ℤ (pos lo) v then below v hi else abort w 1

  -- `spec["min"] <= v`
  unfoldable pub above : ℤ → Option ℕ → Action (Option (Value F))
  above v none = raise other_error
  above v (some lo) =
      if leb_ℤ (pos lo) v then pure (some (plain (Json.num (pos_part v)))) else abort w 1

  abbrev pub is_auto : Text → Bool
  is_auto raw = text_eq (w.builtins.lower raw) (codes "auto")

  abbrev pub is_blank : Text → Bool
  is_blank raw = is_nil (strip w.builtins.is_space raw)

  -- The numbers that were read; `none` is the `ValueError`.
  unfoldable pub take_int : Spec → Option ℤ → Action (Option (Value F))
  take_int spec none = refuse spec.min
  take_int spec (some v) = between v (as_num spec.min) (as_num spec.max)

  unfoldable pub take_positive : Option F → Action (Option (Value F))
  take_positive none = abort w 1
  take_positive (some v) = if w.builtins.is_positive v then pure (some (real v)) else abort w 1

  unfoldable pub take_above : Spec → Option ℤ → Action (Option (Value F))
  take_above spec none = abort w 1
  take_above spec (some v) = above v (as_num spec.min)

  unfoldable pub prompt_int_or_auto : Spec → Action (Option (Value F))
  prompt_int_or_auto spec = if is_none spec.max then raise other_error else (do
    raw ← text w (w.builtins.str_of spec.default)
    (if is_auto raw
        then pure (some (plain (Json.str (codes "auto"))))
        else take_int spec (w.builtins.int_of raw)))

  unfoldable pub prompt_float_or_auto : Spec → Action (Option (Value F))
  prompt_float_or_auto spec = do
    raw ← text w (w.builtins.str_of spec.default)
    (if is_auto raw
        then pure (some (plain (Json.str (codes "auto"))))
        else take_positive (w.builtins.float_of raw))

  unfoldable pub prompt_int_or_null : Spec → Action (Option (Value F))
  prompt_int_or_null spec = if is_none spec.min then raise other_error else (do
    raw ← text w []
    (if is_blank raw then pure none else take_above spec (w.builtins.int_of raw)))

  -- A bound that is missing holds; `none` is the `TypeError` of one that is no number.
  unfoldable pub holds : (ℕ → Bool) → Json → Option Bool
  holds test null = some true
  holds test (Json.num n) = some (test n)
  holds test _ = none

  -- `(lo is None or v >= lo) and (hi is None or v <= hi)`
  unfoldable pub check_upper : F → Option Bool → Action (Option (Value F))
  check_upper v none = raise other_error
  check_upper v (some good) = if good then pure (some (real v)) else abort w 1

  unfoldable pub check_range : F → Option Bool → Option Bool → Action (Option (Value F))
  check_range v none upper = raise other_error
  check_range v (some good) upper = if good then check_upper v upper else abort w 1

  unfoldable pub take_float : Spec → Option F → Action (Option (Value F))
  take_float spec none = abort w 1
  take_float spec (some v) =
      check_range v (holds (w.builtins.is_at_least v) spec.min)
        (holds (w.builtins.is_at_most v) spec.max)

  unfoldable pub prompt_float_or_null : Spec → Action (Option (Value F))
  prompt_float_or_null spec = do
    raw ← text w []
    (if is_blank raw then pure none else take_float spec (w.builtins.float_of raw))

  unfoldable pub prompt_for : Kind → Spec → Action (Option (Value F))
  prompt_for one_of spec = prompt_choice spec
  prompt_for one_of_or_null spec = prompt_choice spec
  prompt_for int_or_auto spec = prompt_int_or_auto spec
  prompt_for float_or_auto spec = prompt_float_or_auto spec
  prompt_for int_or_null spec = prompt_int_or_null spec
  prompt_for float_or_null spec = prompt_float_or_null spec

  unfoldable pub prompt_for_hyperparam : Spec → Action (Option (Value F))
  prompt_for_hyperparam spec = prompt_for spec.kind spec
