-- ===== src/Transfer/Shard/Heap.antt =====
-- shard_manifest.py: the heap of `bin_pack` holds each bin once, with the size it has.
use solutions_library.Prelude.{
  ℕ, zero, suc, ◌+◌, ◌-◌, ◌≤◌, ◌≡◌, refl, ap, subst, true, false, some, List, [], ◌∷◌, map, ◌==◌,
  if◌then◌else◌, get_elem?, set, replicate, All, All-map, arith,
}
use mathlib.Core.List.{Permᴰ}
use mathlib.Core.List.Permᴰ
use solutions_library.Prelude.Int.{ℤ, pos}
use solutions_library.Prelude.Sort.{insert_sorted, insert_sorted-Permᴰ}
use solutions_library.Transfer.Shard.{Slot, empty_slots, slot_le}

-- What holds of all elements holds after a permutation.
pub All-Permᴰ {ℓ κ} :
    {A : Type ℓ} (P : A → Type κ) {xs ys : List A} → Permᴰ xs ys → All P xs → All P ys
All-Permᴰ P Permᴰ.nil h = tt
All-Permᴰ P (Permᴰ.cons e p) h = (subst P e h.0, All-Permᴰ P p h.1)
All-Permᴰ P (Permᴰ.swap e f) h = (subst P f h.1.0, (subst P e h.0, h.1.1))
All-Permᴰ P (Permᴰ.trans p q) h = All-Permᴰ P q (All-Permᴰ P p h)

-- The slots of the sizes, from the index `k` on.
unfoldable pub slots : ℕ → List ℤ → List Slot
slots k [] = []
slots k (s ∷ sizes) = (s, k) ∷ slots (suc k) sizes

-- No bin occurs twice.
abbrev pub IsDistinct : List Slot → Type 0
IsDistinct [] = Unit
IsDistinct (e ∷ heap) = All (λ f. (f.1 == e.1) ≡ false) heap × IsDistinct heap

-- The bin of the slot is another one.
abbrev pub Differs : Slot → Slot → Type 0
Differs e f = (f.1 == e.1) ≡ false

Differs-swap : (a b : Slot) → Differs a b → Differs b a
Differs-swap a b h = ground arith

IsDistinct-Permᴰ : {xs ys : List Slot} → Permᴰ xs ys → IsDistinct xs → IsDistinct ys
IsDistinct-Permᴰ Permᴰ.nil d = tt
IsDistinct-Permᴰ (Permᴰ.cons {b = b} {l₁ = l} e p) d =
    (All-Permᴰ (Differs b) p (subst (λ x. All (Differs x) l) e d.0), IsDistinct-Permᴰ p d.1)
IsDistinct-Permᴰ (Permᴰ.swap {a = a} {b = b} {b' = b'} {l = l} e f) d = (
  (
    subst (λ x. Differs x b') f (subst (Differs b) e (Differs-swap a b d.0.0)),
    subst (λ x. All (Differs x) l) f d.1.0,
  ),
  (subst (λ x. All (Differs x) l) e d.0.1, d.1.1),
)
IsDistinct-Permᴰ (Permᴰ.trans p q) d = IsDistinct-Permᴰ q (IsDistinct-Permᴰ p d)

slots-beyond :
    (k j : ℕ) (sizes : List ℤ) → suc k ≤ j → All (λ f. (f.1 == k) ≡ false) (slots j sizes)
unfolding slots
slots-beyond k j [] h = tt
slots-beyond k j (s ∷ sizes) h = (ground arith, slots-beyond k (suc j) sizes (omega arith))

slots-IsDistinct : (k : ℕ) (sizes : List ℤ) → IsDistinct (slots k sizes)
unfolding slots
slots-IsDistinct k [] = tt
slots-IsDistinct k (s ∷ sizes) =
    (slots-beyond k (suc k) sizes (omega arith), slots-IsDistinct (suc k) sizes)

-- The slot holds the size of its bin.
abbrev pub HoldsSize : ℕ → List ℤ → Slot → Type 0
HoldsSize k sizes e = (k ≤ e.1) × (get_elem? sizes (e.1 - k) ≡ some e.0)

HoldsSize-cons :
    (k : ℕ) (s : ℤ) (sizes : List ℤ) (e : Slot)
    → HoldsSize (suc k) sizes e
    → HoldsSize k (s ∷ sizes) e
HoldsSize-cons k s sizes e h =
    let step : e.1 - k ≡ suc (e.1 - suc k) = omega (arith, h.0) in (omega (arith, h.0), rw step h.1)

slots-HoldsSize : (k : ℕ) (sizes : List ℤ) → All (HoldsSize k sizes) (slots k sizes)
unfolding slots
slots-HoldsSize k [] = tt
slots-HoldsSize k (s ∷ sizes) =
    let here : k - k ≡ 0 = omega arith in
    (
      (omega arith, rw here refl),
      All-map (HoldsSize (suc k) sizes) (HoldsSize k (s ∷ sizes)) (HoldsSize-cons k s sizes)
          (slots (suc k) sizes) (slots-HoldsSize (suc k) sizes),
    )

-- The slot of the bin `idx` with another size.
abbrev pub resize : ℕ → ℤ → Slot → Slot
resize idx new (c, i) = ((if i == idx then new else c), i)

map-resize :
    (idx : ℕ) (new : ℤ) (heap : List Slot)
    → All (λ f. (f.1 == idx) ≡ false) heap
    → map (resize idx new) heap ≡ heap
map-resize idx new [] h = refl
map-resize idx new ((s, i) ∷ heap) h = ground (arith, map-resize idx new heap h.1)

slots-set :
    (k idx : ℕ) (new : ℤ) (sizes : List ℤ)
    → map (resize (idx + k) new) (slots k sizes) ≡ slots k (set sizes idx new)
unfolding slots
slots-set k idx new [] = refl
slots-set k zero new (s ∷ sizes) =
    ground
      (arith, map-resize k new (slots (suc k) sizes) (slots-beyond k (suc k) sizes (omega arith)))
slots-set k (suc idx) new (s ∷ sizes) =
    let there : (k == (suc idx + k)) ≡ false = ground arith in
    let e : suc idx + k ≡ idx + suc k = omega arith in
    let rest : map (resize (suc idx + k) new) (slots (suc k) sizes)
        ≡ slots (suc k) (set sizes idx new) =
      rw e (slots-set (suc k) idx new sizes) in
    rw there (ap (◌∷◌ (s, k)) rest)

-- After a round the heap still holds the slots of the sizes.
pub heap-set :
    (cur new : ℤ) (idx : ℕ) (rest : List Slot) (sizes : List ℤ)
    → Permᴰ ((cur, idx) ∷ rest) (slots 0 sizes)
    → Permᴰ (insert_sorted slot_le (new, idx) rest) (slots 0 (set sizes idx new))
heap-set cur new idx rest sizes p =
    let distinct : IsDistinct ((cur, idx) ∷ rest) =
      IsDistinct-Permᴰ (Permᴰ.symm p) (slots-IsDistinct 0 sizes) in
    let here : (idx == idx) ≡ true = ground arith in
    let e : idx + 0 ≡ idx = omega arith in
    let all : map (resize idx new) (slots 0 sizes) ≡ slots 0 (set sizes idx new) =
      subst (λ i. map (resize i new) (slots 0 sizes) ≡ slots 0 (set sizes idx new)) e
        (slots-set 0 idx new sizes) in
    let one : map (resize idx new) ((cur, idx) ∷ rest) ≡ (new, idx) ∷ rest =
      rw here (ap (◌∷◌ (new, idx)) (map-resize idx new rest distinct.0)) in
    Permᴰ.trans (insert_sorted-Permᴰ slot_le (new, idx) rest) (
      subst (λ l. Permᴰ l (slots 0 (set sizes idx new))) one
        (subst (Permᴰ _) all (Permᴰ.map (resize idx new) p)))

pub heap-get :
    (cur : ℤ) (idx : ℕ) (rest : List Slot) (sizes : List ℤ)
    → Permᴰ ((cur, idx) ∷ rest) (slots 0 sizes)
    → get_elem? sizes idx ≡ some cur
heap-get cur idx rest sizes p =
    let e : idx - 0 ≡ idx = omega arith in
    subst (λ i. get_elem? sizes i ≡ some cur) e
      (All-Permᴰ (HoldsSize 0 sizes) (Permᴰ.symm p) (slots-HoldsSize 0 sizes)).0.1

pub empty_slots-eq : (k n : ℕ) → empty_slots k n ≡ slots k (replicate n (pos 0))
unfolding empty_slots slots
empty_slots-eq k zero = refl
empty_slots-eq k (suc n) = ap (◌∷◌ (pos 0, k)) (empty_slots-eq (suc k) n)
