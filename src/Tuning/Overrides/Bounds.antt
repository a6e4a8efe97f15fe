-- ===== src/Tuning/Overrides/Bounds.antt =====
-- helper.py: the values that a job is given are ones that the prompts of their kinds accept.
use solutions_library.Prelude.{
  ◌≡◌, refl, sym, subst, inl, inr, Option, none, some, List, [], ◌∷◌, All, Bool-cases, arith,
}
use solutions_library.Prelude.Text.{Text, text_eq, text_eq_iff}
use solutions_library.Prelude.Dict.{Dict, insert}
use solutions_library.Prelude.Calls.{Ending, ok, raised, no_fuel}
use solutions_library.Prelude.Calls.Yields.{
  Gives, Yields-bind, Yields-pure, Yields-raise, Yields-after, Yields-frame, Yields-fact,
}
use solutions_library.Tuning.Schema.{Spec}
use solutions_library.Tuning.Service.{World, Call, Stop, or_error}
use solutions_library.Tuning.Prompts.{Value}
use solutions_library.Tuning.Prompts.Allowed.{IsWithin, IsGiven}
use solutions_library.Tuning.Prompts.Bounds.{Returns-prompt_for_hyperparam}
use solutions_library.Tuning.Prompts.Answers.{Offers, Returns}
use solutions_library.Tuning.Overrides.{spec_named, before_gap, add_override, ask_values}

All-insert :
    {V : Type 0} (P : Text × V → Type 0) (k : Text) (v : V) (d : Dict V)
    → P (k, v)
    → All P d
    → All P (insert k v d)
unfolding insert
All-insert P k v [] h all = (h, tt)
All-insert P k v ((j, x) ∷ d) h all = elim (Bool-cases (text_eq j k)) [
  | inl e ↦
      let same : j ≡ k = (text_eq_iff j k).0 e in rw e (subst (λ i. P (i, v)) (sym same) h, all.1)
  | inr e ↦ rw e (all.0, All-insert P k v d h all.1)
]

module _ {F : Type 0} (w : World F) (specs : List Spec) where
  -- A value for a setting of the catalog that the prompt of its kind accepts.
  abbrev pub IsAllowedValue : Text × Value F → Type 0
  IsAllowedValue (name, v) =
      (spec : Spec) × (spec_named name specs ≡ some spec) × IsWithin w spec.kind spec v

  AllAllowed-add :
      (name : Text) (spec : Spec) (v : Option (Value F)) (overrides : Dict (Value F))
      → spec_named name specs ≡ some spec
      → IsGiven w spec.kind spec v
      → All IsAllowedValue overrides
      → All IsAllowedValue (add_override w name v overrides)
  unfolding add_override
  AllAllowed-add name spec none overrides found given all = all
  AllAllowed-add name spec (some v) overrides found given all =
      All-insert IsAllowedValue name v overrides (spec, found, given) all

  abbrev Found : Text → Spec → Type 0
  Found name spec = spec_named name specs ≡ some spec

  Returns-spec :
      (name : Text) (o : Option Spec)
      → spec_named name specs ≡ o
      → Returns (Found name) (or_error o)
  Returns-spec name none e = Yields-raise (λ calls u. u)
  Returns-spec name (some spec) e = Yields-pure (λ calls u. e)

  Returns-ask_values :
      (selected : List Text) (overrides : Dict (Value F))
      → Offers w
      → All IsAllowedValue overrides
      → Returns (All IsAllowedValue) (ask_values w specs selected overrides)
  unfolding ask_values
  Returns-ask_values [] overrides offers all = Yields-pure (λ calls u. all)
  Returns-ask_values (item ∷ selected) overrides offers all =
      let name = before_gap item in
      Yields-bind (λ spec calls. Found name spec) (Returns-spec name (spec_named name specs) refl)
        (λ spec.
          Yields-bind (λ value calls. Found name spec × IsGiven w spec.kind spec value)
            (Yields-after (λ calls found. (found, tt))
              (Yields-frame (Returns-prompt_for_hyperparam w spec offers)))
            (λ value.
              Yields-after (λ calls h. (h, tt))
                (Yields-fact (λ h.
                  Returns-ask_values selected (add_override w name value overrides) offers
                    (AllAllowed-add name spec value overrides h.0 h.1 all)))))

value_of :
    {A : Type 0} (Good : A → Type 0) (r : List Call × Ending Stop A) (a : A)
    → Gives (λ a calls. Good a) (λ calls. Unit {0}) r
    → r.1 ≡ ok a
    → Good a
value_of Good (calls, ok b) a g e = let same : b ≡ a = ground arith in subst Good same g
value_of Good (calls, raised x) a g e = absurd (ground arith)
value_of Good (calls, no_fuel) a g e = absurd (ground arith)

-- Whatever the user answers, and whatever was selected: where the questions end with values, each
-- of them is for a setting of the catalog and is one that the prompt of its kind accepts: a choice
-- of the setting; "auto" or an integer from its minimum to its maximum; "auto" or a positive
-- number; an integer from its minimum on, whatever its maximum; or a number within those of its
-- bounds that it has. The menus of questionary are taken to give one of their options.
pub ask_values-IsAllowedValue :
    {F : Type 0} (w : World F) (specs : List Spec) (selected : List Text) (calls : List Call)
    (overrides : Dict (Value F))
    → Offers w
    → (ask_values w specs selected [] calls).1 ≡ ok overrides
    → All (IsAllowedValue w specs) overrides
ask_values-IsAllowedValue w specs selected calls overrides offers e =
    value_of (All (IsAllowedValue w specs)) (ask_values w specs selected [] calls) overrides
      ((Returns-ask_values w specs selected [] offers tt).from calls tt) e
