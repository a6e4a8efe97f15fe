-- ===== src/Prelude/Sort.antt =====
-- A stable sort by a Boolean order, as Python's `sorted` and `list.sort` do it.
use mathlib.Core.Path.{◌≡◌, refl, ap, ap₂, ◌∙◌}
use mathlib.Core.Logic.{inl, inr}
use mathlib.Core.Bool.{Bool, true, false}
use mathlib.Core.List.{List, [], ◌∷◌, Permᴰ}
use mathlib.Core.List.Permᴰ
use native.Mathlib.Omega.{arith}
use solutions_library.Prelude.Tests.{if◌then◌else◌, Bool-cases}
use solutions_library.Prelude.Lists.{All}

module _ {ℓ} {A : Type ℓ} (le : A → A → Bool) where
  -- Before the first element that is not less.
  unfoldable pub insert_sorted : A → List A → List A
  insert_sorted a [] = a ∷ []
  insert_sorted a (x ∷ xs) = if le a x then a ∷ x ∷ xs else x ∷ insert_sorted a xs

  unfoldable pub sorted : List A → List A
  sorted [] = []
  sorted (x ∷ xs) = insert_sorted x (sorted xs)

  abbrev pub IsSorted : List A → Type 0
  IsSorted [] = Unit
  IsSorted (x ∷ xs) = All (λ y. le x y ≡ true) xs × IsSorted xs

-- A total order.
pub record IsTotalOrder {ℓ} {A : Type ℓ} (le : A → A → Bool) : Type ℓ where
  pub total : (a b : A) → le a b ≡ false → le b a ≡ true
  pub trans : (a b c : A) → le a b ≡ true → le b c ≡ true → le a c ≡ true
  pub antisym : (a b : A) → le a b ≡ true → le b a ≡ true → a ≡ b

module _ {ℓ} {A : Type ℓ} (le : A → A → Bool) where
  pub insert_sorted-Permᴰ : (a : A) (xs : List A) → Permᴰ (insert_sorted le a xs) (a ∷ xs)
  unfolding insert_sorted
  insert_sorted-Permᴰ a [] = Permᴰ.refl (a ∷ [])
  insert_sorted-Permᴰ a (x ∷ xs) = elim (Bool-cases (le a x)) [
    | inl e ↦ rw e (Permᴰ.refl (a ∷ x ∷ xs))
    | inr e ↦ rw e (Permᴰ.trans (Permᴰ.cons refl (insert_sorted-Permᴰ a xs)) (Permᴰ.swap refl refl))
  ]

  -- Sorting only moves elements.
  pub sorted-Permᴰ : (xs : List A) → Permᴰ (sorted le xs) xs
  unfolding sorted
  sorted-Permᴰ [] = Permᴰ.nil
  sorted-Permᴰ (x ∷ xs) =
      Permᴰ.trans (insert_sorted-Permᴰ x (sorted le xs)) (Permᴰ.cons refl (sorted-Permᴰ xs))

  module _ (order : IsTotalOrder le) where
    All-le_trans :
        (a x : A) (xs : List A)
        → le a x ≡ true
        → All (λ y. le x y ≡ true) xs
        → All (λ y. le a y ≡ true) xs
    All-le_trans a x [] h t = tt
    All-le_trans a x (y ∷ xs) h t = (order.trans a x y h t.0, All-le_trans a x xs h t.1)

    All-insert :
        (p a : A) (xs : List A)
        → le p a ≡ true
        → All (λ y. le p y ≡ true) xs
        → All (λ y. le p y ≡ true) (insert_sorted le a xs)
    unfolding insert_sorted
    All-insert p a [] h t = (h, tt)
    All-insert p a (x ∷ xs) h t = ground (arith, All-insert p a xs h t.1)

    pub insert_sorted-IsSorted :
        (a : A) (xs : List A) → IsSorted le xs → IsSorted le (insert_sorted le a xs)
    unfolding insert_sorted
    insert_sorted-IsSorted a [] s = (tt, tt)
    insert_sorted-IsSorted a (x ∷ xs) s = elim (Bool-cases (le a x)) [
      | inl e ↦ rw e ((e, All-le_trans a x xs e s.0), s)
      | inr e ↦ rw e (All-insert x a xs (order.total a x e) s.0, insert_sorted-IsSorted a xs s.1)
    ]

    pub sorted-IsSorted : (xs : List A) → IsSorted le (sorted le xs)
    unfolding sorted
    sorted-IsSorted [] = tt
    sorted-IsSorted (x ∷ xs) = insert_sorted-IsSorted x (sorted le xs) (sorted-IsSorted xs)

    insert_sorted_comm :
        (a b : A) (xs : List A)
        → insert_sorted le a (insert_sorted le b xs) ≡ insert_sorted le b (insert_sorted le a xs)
    unfolding insert_sorted
    insert_sorted_comm a b [] = ground (arith, order.total a b, order.total b a, order.antisym a b)
    insert_sorted_comm a b (x ∷ xs) = ground (
      arith,
      order.total a b,
      order.total b a,
      order.antisym a b,
      order.trans a b x,
      order.trans b a x,
      insert_sorted_comm a b xs,
    )

    -- The result depends on the elements alone, not on the order in which they stood.
    pub sorted_of_Permᴰ : {xs ys : List A} → Permᴰ xs ys → sorted le xs ≡ sorted le ys
    unfolding sorted
    sorted_of_Permᴰ Permᴰ.nil = refl
    sorted_of_Permᴰ (Permᴰ.cons {b = b} {l₁ = l₁} e p) =
        ap (λ c. insert_sorted le c (sorted le l₁)) e ∙ ap (insert_sorted le b) (sorted_of_Permᴰ p)
    sorted_of_Permᴰ (Permᴰ.swap {a = a} {b = b} {l = l} e f) =
        insert_sorted_comm a b (sorted le l)
        ∙ ap₂ (λ c d. insert_sorted le c (insert_sorted le d (sorted le l))) f e
    sorted_of_Permᴰ (Permᴰ.trans p q) = sorted_of_Permᴰ p ∙ sorted_of_Permᴰ q
