-- ===== src/Prelude/Calls/Leads.antt =====
-- What a program does to its calls, where the condition behind it does not speak of its value.
use mathlib.Core.Path.{◌≡◌}
use mathlib.Core.List.{List}
use mathlib.Core.Bool.{Bool, true, false}
use mathlib.Core.Option.{Option, none, some}
use solutions_library.Prelude.Tests.{if◌then◌else◌}
use solutions_library.Prelude.Calls.{Run, pure, raise, ◌>>=◌}
use solutions_library.Prelude.Calls.Yields.{
  Yields, Yields-bind, Yields-pure, Yields-raise, Yields-if, Yields-weaken, Yields-after,
}

-- From calls with `P` the run comes to calls with `Q` where it gives a value, and with `R` where it
-- does not.
abbrev pub Leads : {C E A : Type 0} → (P Q R : List C → Type 0) → Run C E A → Type 0
Leads P Q R m = Yields P (λ a. Q) R m

module _ {C E : Type 0} {P Q R : List C → Type 0} where
  pub Leads-bind :
      {A B : Type 0} {S : List C → Type 0} {m : Run C E A} {f : A → Run C E B}
      → Leads P Q R m
      → ((a : A) → Leads Q S R (f a))
      → Leads P S R (m >>= f)
  Leads-bind h k = Yields-bind (λ a. Q) h k

module _ {C E : Type 0} {P R : List C → Type 0} where
  pub Leads-pure : {A : Type 0} {a : A} → Leads {E = E} P P R (pure a)
  Leads-pure = Yields-pure (λ calls p. p)

  pub Leads-if :
      {A : Type 0} {Q : List C → Type 0} {m n : Run C E A} (b : Bool)
      → (b ≡ true → Leads P Q R m)
      → (b ≡ false → Leads P Q R n)
      → Leads P Q R (if b then m else n)
  Leads-if b h k = Yields-if b h k

  pub Leads-option :
      {A B : Type 0} {Q : List C → Type 0} {n : Run C E B} {f : A → Run C E B} (o : Option A)
      → Leads P Q R n
      → ((a : A) → Leads P Q R (f a))
      → Leads P Q R (elim o as (λ x. Run C E B) [ none ↦ n | some a ↦ f a ])
  Leads-option none h k = h
  Leads-option (some a) h k = k a

  pub Leads-raise :
      {A : Type 0} {Q : List C → Type 0} {e : E}
      → ((calls : List C) → P calls → R calls)
      → Leads {A = A} P Q R (raise e)
  Leads-raise h = Yields-raise h

module _ {C E A : Type 0} {P Q Q' R R' : List C → Type 0} where
  pub Leads-weaken :
      {m : Run C E A}
      → Leads P Q R m
      → ((calls : List C) → Q calls → Q' calls)
      → ((calls : List C) → R calls → R' calls)
      → Leads P Q' R' m
  Leads-weaken h f g = Yields-weaken h (λ a. f) g

module _ {C E A : Type 0} {P P' Q R : List C → Type 0} where
  pub Leads-after :
      {m : Run C E A} → ((calls : List C) → P' calls → P calls) → Leads P Q R m → Leads P' Q R m
  Leads-after g h = Yields-after g h
