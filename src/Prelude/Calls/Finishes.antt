-- ===== src/Prelude/Calls/Finishes.antt =====
-- Programs that come to a value, whatever calls were made before.
use mathlib.Core.Path.{◌≡◌, refl, ap, ◌∙◌}
use mathlib.Core.List.{List}
use solutions_library.Prelude.Calls.{Ending, ok, raised, no_fuel, Run, pure, ◌>>=◌}
use solutions_library.Prelude.Calls.Yields.{Gives, Yields, Yields-bind, Yields-pure}

-- The run gives a value with `Q`.
abbrev pub Ends : {C E A : Type 0} → (A → Type 0) → Run C E A → Type 0
Ends Q m = Yields (λ calls. Unit {0}) (λ a calls. Q a) (λ calls. ⊥) m

abbrev pub Finishes : {C E A : Type 0} → Run C E A → Type 0
Finishes m = Ends (λ a. Unit {0}) m

module _ {C E A B : Type 0} {m : Run C E A} {f : A → Run C E B} where
  pub Finishes-bind : Finishes m → ((a : A) → Finishes (f a)) → Finishes (m >>= f)
  Finishes-bind h k = Yields-bind (λ a calls. Unit {0}) h k

  -- The rest may rely on what holds of the value.
  pub Ends-bind :
      (Q : A → Type 0) → Ends Q m → ((a : A) → Q a → Finishes (f a)) → Finishes (m >>= f)
  Ends-bind Q h k =
      Yields-bind {f = f} (λ a calls. Q a) h
        (λ a. record { from = λ calls q. (k a q).from calls tt })

pub Finishes-pure : {C E A : Type 0} {a : A} → Finishes (pure {C = C} {E = E} a)
Finishes-pure = Yields-pure (λ calls u. u)

-- Where a run stops for nothing, it has a value.
pub value_of :
    {C E A : Type 0} (Q : A → List C → Type 0) (r : List C × Ending E A)
    → Gives Q (λ calls. ⊥) r
    → (a : A) × ((r.1 ≡ ok a) × Q a r.0)
value_of Q (calls, ok a) q = (a, (refl, q))
value_of Q (calls, raised x) q = absurd q
value_of Q (calls, no_fuel) q = absurd q

pub bind-ok :
    {C E A B : Type 0} (m : Run C E A) (f : A → Run C E B) (calls : List C) (a : A)
    → (m calls).1 ≡ ok a
    → (m >>= f) calls ≡ f a (m calls).0
bind-ok {C} {E} {A} {B} m f calls a e =
    ap
      (λ end. elim end as (λ e. List C × Ending E B) [
        | ok a ↦ f a (m calls).0
        | raised e ↦ ((m calls).0, raised e)
        | no_fuel ↦ ((m calls).0, no_fuel)
      ])
      e

pub bind-eq :
    {C E A B : Type 0} (m : Run C E A) (f : A → Run C E B) (calls calls' : List C) (a : A)
    → m calls ≡ (calls', ok a)
    → (m >>= f) calls ≡ f a calls'
bind-eq m f calls calls' a e = bind-ok m f calls a (ap (λ r. r.1) e) ∙ ap (λ r. f a r.0) e
