-- ===== src/Prelude/Calls/Yields.antt =====
-- What a program does to its calls, where the condition behind it may speak of its value.
use mathlib.Core.Path.{◌≡◌, refl}
use mathlib.Core.List.{List}
use mathlib.Core.Bool.{Bool, true, false}
use solutions_library.Prelude.Tests.{if◌then◌else◌}
use solutions_library.Prelude.Calls.{
  Ending, ok, raised, no_fuel, Run, pure, raise, out_of_fuel, ◌>>=◌,
}

abbrev pub Gives :
    {C E A : Type 0} → (A → List C → Type 0) → (List C → Type 0) → List C × Ending E A → Type 0
Gives Q R (calls, ok a) = Q a calls
Gives Q R (calls, raised e) = R calls
Gives Q R (calls, no_fuel) = R calls

-- From calls with `P` the run comes to a value and calls with `Q`, or stops at calls with `R`.
pub record Yields {C E A : Type 0} (P : List C → Type 0) (Q : A → List C → Type 0)
    (R : List C → Type 0) (m : Run C E A) : Type 0 where
  pub from : (calls : List C) → P calls → Gives Q R (m calls)

Gives-bind :
    {C E A B : Type 0} (Q : A → List C → Type 0) (S : B → List C → Type 0) (R : List C → Type 0)
    (f : A → Run C E B) (r : List C × Ending E A)
    → Gives Q R r
    → ((a : A) → Yields (Q a) S R (f a))
    → Gives S R (elim r.1 as (λ e. List C × Ending E B) [
      | ok a ↦ f a r.0
      | raised e ↦ (r.0, raised e)
      | no_fuel ↦ (r.0, no_fuel)
    ])
Gives-bind Q S R f (calls, ok a) h k = (k a).from calls h
Gives-bind Q S R f (calls, raised e) h k = h
Gives-bind Q S R f (calls, no_fuel) h k = h

Gives-weaken :
    {C E A : Type 0} {Q Q' : A → List C → Type 0} {R R' : List C → Type 0} (r : List C × Ending E A)
    → Gives Q R r
    → ((a : A) (calls : List C) → Q a calls → Q' a calls)
    → ((calls : List C) → R calls → R' calls)
    → Gives Q' R' r
Gives-weaken (calls, ok a) h f g = f a calls h
Gives-weaken (calls, raised e) h f g = g calls h
Gives-weaken (calls, no_fuel) h f g = g calls h

module _ {C E : Type 0} {P R : List C → Type 0} where
  pub Yields-bind :
      {A B : Type 0} {S : B → List C → Type 0} {m : Run C E A} {f : A → Run C E B}
      (Q : A → List C → Type 0)
      → Yields P Q R m
      → ((a : A) → Yields (Q a) S R (f a))
      → Yields P S R (m >>= f)
  Yields-bind {S = S} {m = m} {f = f} Q h k = record {
    from = λ calls p. Gives-bind Q S R f (m calls) (h.from calls p) k;
  }

  pub Yields-pure :
      {A : Type 0} {Q : A → List C → Type 0} {a : A}
      → ((calls : List C) → P calls → Q a calls)
      → Yields {E = E} P Q R (pure a)
  Yields-pure h = record { from = h }

  pub Yields-raise :
      {A : Type 0} {Q : A → List C → Type 0} {e : E}
      → ((calls : List C) → P calls → R calls)
      → Yields P Q R (raise {A = A} e)
  Yields-raise h = record { from = h }

  pub Yields-out_of_fuel :
      {A : Type 0} {Q : A → List C → Type 0}
      → ((calls : List C) → P calls → R calls)
      → Yields P Q R (out_of_fuel {C = C} {E = E} {A = A})
  Yields-out_of_fuel h = record { from = h }

module _ {C E A : Type 0} {R : List C → Type 0} {Q : A → List C → Type 0} where
  -- A condition that holds of something.
  pub Yields-some :
      {X : Type 0} {P : X → List C → Type 0} {m : Run C E A}
      → ((x : X) → Yields (P x) Q R m)
      → Yields (λ calls. (x : X) × P x calls) Q R m
  Yields-some h = record { from = λ calls (x, p). (h x).from calls p }

  pub Yields-after :
      {P P' : List C → Type 0} {m : Run C E A}
      → ((calls : List C) → P' calls → P calls)
      → Yields P Q R m
      → Yields P' Q R m
  Yields-after g h = record { from = λ calls p. h.from calls (g calls p) }

module _ {C E A : Type 0} {P R : List C → Type 0} {Q : A → List C → Type 0} where
  pub Yields-if :
      {m n : Run C E A} (b : Bool)
      → (b ≡ true → Yields P Q R m)
      → (b ≡ false → Yields P Q R n)
      → Yields P Q R (if b then m else n)
  Yields-if true h k = h refl
  Yields-if false h k = k refl

  -- What is known of the state before the run does not depend on the calls.
  pub Yields-fact :
      {X : Type 0} {m : Run C E A} → (X → Yields P Q R m) → Yields (λ calls. X × P calls) Q R m
  Yields-fact h = record { from = λ calls (x, p). (h x).from calls p }

  -- What is known of the state stays known behind a run that leaves it as it is.
  pub Yields-frame :
      {X : Type 0} {m : Run C E A}
      → Yields P Q R m
      → Yields (λ calls. X × P calls) (λ a calls. X × Q a calls) R m
  Yields-frame {X = X} {m = m} h = record {
    from = λ calls (x, p).
        Gives-weaken {Q = Q} {Q' = λ a calls. X × Q a calls} {R = R} {R' = R} (m calls)
          (h.from calls p) (λ a calls q. (x, q)) (λ calls r. r);
  }

  pub Yields-weaken :
      {Q' : A → List C → Type 0} {R' : List C → Type 0} {m : Run C E A}
      → Yields P Q R m
      → ((a : A) (calls : List C) → Q a calls → Q' a calls)
      → ((calls : List C) → R calls → R' calls)
      → Yields P Q' R' m
  Yields-weaken {m = m} h f g = record {
    from = λ calls p. Gives-weaken (m calls) (h.from calls p) f g;
  }

-- What holds in all cases.
pub Gives-all :
    {C E A : Type 0} (R : List C → Type 0) (r : List C × Ending E A)
    → Gives (λ a calls. R calls) R r
    → R r.0
Gives-all R (calls, ok a) h = h
Gives-all R (calls, raised e) h = h
Gives-all R (calls, no_fuel) h = h

Gives-any :
    {C E A : Type 0} (r : List C × Ending E A) → Gives (λ a calls. Unit {0}) (λ calls. Unit {0}) r
Gives-any (calls, ok a) = tt
Gives-any (calls, raised e) = tt
Gives-any (calls, no_fuel) = tt

pub Yields-any :
    {C E A : Type 0} (m : Run C E A)
    → Yields (λ calls. Unit {0}) (λ a calls. Unit {0}) (λ calls. Unit {0}) m
Yields-any m = record { from = λ calls u. Gives-any (m calls) }
