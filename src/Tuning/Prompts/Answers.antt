-- ===== src/Tuning/Prompts/Answers.antt =====
-- runtime.py: what the answers to the prompts are known to be.
use solutions_library.Prelude.{
  ℕ, ◌≡◌, refl, ap, inl, inr, ◌⊎◌, Bool, true, false, Option, none, some, List, is_nil,
}
use mathlib.Core.Option.{some-injective}
use solutions_library.Prelude.Text.{Text}
use solutions_library.Prelude.Calls.{pure, raise}
use solutions_library.Prelude.Calls.Yields.{
  Yields, Yields-any, Yields-bind, Yields-pure, Yields-raise, Yields-if,
}
use solutions_library.Tuning.Runtime.{Menu, answered, interrupted, broken, ask}
use solutions_library.Tuning.Runtime.Replies.{has_text-input_pick}
use solutions_library.Tuning.Selection.{has_text}
use solutions_library.Tuning.Service.{
  World, Action, Call, Stop, prompt, call, abort, or_abort, pick,
}

answer_of :
    {A : Type 0} (isatty installed : Bool) (menu : Menu A) (reply : Option A) (a : A)
    → ask isatty installed menu reply ≡ some a
    → (menu ≡ answered a) ⊎ (reply ≡ some a)
unfolding ask
answer_of true true (answered b) reply a e = inl (ap answered (some-injective _ _ e))
answer_of true true interrupted reply a e = absurd (cc e)
answer_of true true broken reply a e = inr e
answer_of true false menu reply a e = inr e
answer_of false installed menu reply a e = inr e

abbrev pub Anything : List Call → Type 0
Anything calls = Unit

abbrev pub Returns : {A : Type 0} → (A → Type 0) → Action A → Type 0
Returns Good m = Yields Anything (λ a calls. Good a) Anything m

pub Returns-pure : {A : Type 0} {Good : A → Type 0} {a : A} → Good a → Returns Good (pure a)
Returns-pure h = Yields-pure (λ calls u. h)

pub Returns-raise : {A : Type 0} {Good : A → Type 0} {e : Stop} → Returns Good (raise {A = A} e)
Returns-raise = Yields-raise (λ calls u. u)

module _ {F : Type 0} (w : World F) where
  -- The answer of a menu is one of its options.
  abbrev pub Offers : Type 0
  Offers =
      (k : ℕ) (options : List Text) (t : Text)
      → w.select k options ≡ answered t
      → has_text t options ≡ true

  pub Returns-abort :
      {A : Type 0} {Good : A → Type 0} (status : ℕ) → Returns Good (abort w {A = A} status)
  unfolding abort
  Returns-abort status = Yields-if w.kernel (λ _. Returns-raise) (λ _. Returns-raise)

  pub Returns-or_abort :
      {A : Type 0} {Good : A → Type 0} (o : Option A)
      → ((a : A) → o ≡ some a → Good a)
      → Returns Good (or_abort w o)
  Returns-or_abort none h = Returns-abort 1
  Returns-or_abort (some a) h = Returns-pure (h a refl)

  pub Returns-pick :
      (options : List Text) → Offers → Returns (λ t. has_text t options ≡ true) (pick w options)
  unfolding pick
  Returns-pick options offers =
      Yields-if (is_nil options) (λ _. Returns-raise)
        (λ _.
          Yields-bind (λ k. Anything) (Yields-any (call prompt))
            (λ k. Returns-or_abort _ (λ t e.
              elim (answer_of (w.isatty) (w.questionary) (w.select k options) _ t e) [
                | inl chosen ↦ offers k options t chosen
                | inr typed ↦ has_text-input_pick w.builtins options (w.typed k) t typed
              ])))
