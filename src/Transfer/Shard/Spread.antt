-- ===== src/Transfer/Shard/Spread.antt =====
-- shard_manifest.py: how far the sizes of the bins of `bin_pack` lie apart.
use solutions_library.Prelude.{
  ℕ, suc, ◌+◌, ◌≡◌, subst, true, false, some, List, [], ◌∷◌, map, get_elem?, set, replicate, All,
  All-map, All-set, All-get, All-replicate, arith, leb,
}
use mathlib.Core.List.{Permᴰ}
use mathlib.Core.List.Permᴰ
use solutions_library.Prelude.Text.{Text}
use solutions_library.Prelude.Int.{ℤ, pos, ◌+ℤ◌, ◌≤ℤ◌, int_laws, eq_of_parts}
use solutions_library.Prelude.Sort.{
  insert_sorted, sorted, sorted-Permᴰ, IsSorted, IsTotalOrder, insert_sorted-IsSorted,
  sorted-IsSorted,
}
use solutions_library.Transfer.Shard.{
  Object, Slot, slot_le, object_le, append_at, empty_slots, packed, pack_loop, bin_pack,
}
use solutions_library.Transfer.Shard.Heap.{slots, heap-set, heap-get, All-Permᴰ}
use solutions_library.Transfer.Shard.Balance.{start-Permᴰ, bin_pack_partitions, paths, total}

slot_le-antisym : (e f : Slot) → slot_le e f ≡ true → slot_le f e ≡ true → e ≡ f
unfolding slot_le
slot_le-antisym (a, i) (b, j) h k =
    let size : a ≡ b = eq_of_parts a b (ground arith) in let index : i ≡ j = ground arith in cc

slot_le-IsTotalOrder : IsTotalOrder slot_le
unfolding slot_le
slot_le-IsTotalOrder = record {
  total = λ (a, i) (b, j) h. ground arith;
  trans = λ (a, i) (b, j) (c, k) h h'. ground arith;
  antisym = slot_le-antisym;
}

slot_le-le : (e f : Slot) → slot_le e f ≡ true → e.0 ≤ℤ f.0
unfolding slot_le
slot_le-le e f h = ground arith

-- No two of the sizes differ by more than `m`.
abbrev pub IsBalanced : ℕ → List ℤ → Type 0
IsBalanced m sizes = All (λ a. All (λ b. a ≤ℤ b +ℤ pos m) sizes) sizes

-- The size of an object is from 0 to `m`.
abbrev pub IsWithin : ℕ → Object → Type 0
IsWithin m o = (pos 0 ≤ℤ o.0) × (o.0 ≤ℤ pos m)

All-slots :
    (P : ℤ → Type 0) (k : ℕ) (sizes : List ℤ) → All (λ e. P e.0) (slots k sizes) → All P sizes
unfolding slots
All-slots P k [] h = tt
All-slots P k (s ∷ sizes) h = (h.0, All-slots P (suc k) sizes h.1)

-- The first entry of the heap has the least size.
heap-least :
    (cur : ℤ) (idx : ℕ) (rest : List Slot) (sizes : List ℤ)
    → Permᴰ ((cur, idx) ∷ rest) (slots 0 sizes)
    → IsSorted slot_le ((cur, idx) ∷ rest)
    → All (λ b. cur ≤ℤ b) sizes
heap-least cur idx rest sizes p s =
    All-slots (λ b. cur ≤ℤ b) 0 sizes
      (All-Permᴰ (λ e. cur ≤ℤ e.0) p
        (
          omega arith,
          All-map (λ f. slot_le (cur, idx) f ≡ true) (λ f. cur ≤ℤ f.0)
              (λ f. slot_le-le (cur, idx) f) rest s.0,
        ))

-- To put an object into the least bin keeps the sizes balanced.
set-IsBalanced :
    (m : ℕ) (size cur : ℤ) (idx : ℕ) (path : Text) (sizes : List ℤ)
    → get_elem? sizes idx ≡ some cur
    → All (λ b. cur ≤ℤ b) sizes
    → IsWithin m (size, path)
    → IsBalanced m sizes
    → IsBalanced m (set sizes idx (cur +ℤ size))
set-IsBalanced m size cur idx path sizes held least within balanced =
    let new = cur +ℤ size in
    let P : ℤ → ℤ → Type 0 = λ a b. a ≤ℤ b +ℤ pos m in
    All-set (λ a. All (P a) (set sizes idx new)) sizes idx new
      (All-set (P new) sizes idx new (omega int_laws)
        (All-map (λ b. cur ≤ℤ b) (P new) (λ b h. omega int_laws) sizes least))
      (All-map (λ a. All (P a) sizes) (λ a. All (P a) (set sizes idx new))
        (λ a h.
          (let above : a ≤ℤ cur +ℤ pos m = All-get (P a) sizes idx cur held h in
            All-set (P a) sizes idx new (omega int_laws) h))
        sizes balanced)

pack_loop-IsBalanced :
    (m : ℕ) (objects : List Object) (heap : List Slot) (bins bins' : List (List Text))
    (sizes sizes' : List ℤ)
    → Permᴰ heap (slots 0 sizes)
    → IsSorted slot_le heap
    → IsBalanced m sizes
    → All (IsWithin m) objects
    → pack_loop objects heap bins sizes ≡ packed bins' sizes'
    → IsBalanced m sizes'
unfolding pack_loop
pack_loop-IsBalanced m [] heap bins bins' sizes sizes' p s b w e =
    let same : sizes ≡ sizes' = ground arith in subst (IsBalanced m) same b
pack_loop-IsBalanced m (o ∷ objects) [] bins bins' sizes sizes' p s b w e = absurd (ground arith)
pack_loop-IsBalanced m ((size, path) ∷ objects) ((cur, idx) ∷ rest) bins bins' sizes sizes' p s b w
      e =
    pack_loop-IsBalanced m objects (insert_sorted slot_le (cur +ℤ size, idx) rest)
      (append_at bins idx path) bins' (set sizes idx (cur +ℤ size)) sizes'
      (heap-set cur (cur +ℤ size) idx rest sizes p)
      (insert_sorted-IsSorted slot_le slot_le-IsTotalOrder (cur +ℤ size, idx) rest s.1)
      (set-IsBalanced m size cur idx path sizes (heap-get cur idx rest sizes p)
        (heap-least cur idx rest sizes p s) w.0 b)
      w.1 e

replicate-IsBalanced : (m n : ℕ) → IsBalanced m (replicate n (pos 0))
replicate-IsBalanced m n =
    All-replicate (λ a. All (λ b. a ≤ℤ b +ℤ pos m) (replicate n (pos 0))) n (pos 0)
      (All-replicate (λ b. pos 0 ≤ℤ b +ℤ pos m) n (pos 0) (omega int_laws))

-- For a positive number of bins and objects of sizes from 0 to `m`, the sizes of two bins never
-- differ by more than `m`.
pub bin_pack-IsBalanced :
    (m n : ℕ) (objects : List Object)
    → All (IsWithin m) objects
    → (bins : List (List Text)) × (sizes : List ℤ) × ((bin_pack objects (pos (suc n))
          ≡ packed bins sizes)
        × IsBalanced m sizes)
unfolding bin_pack
bin_pack-IsBalanced m n objects within =
    let test : leb (suc n + 0) (0 + 0) ≡ false = ground arith in
    let (groups, (eq, other)) = bin_pack_partitions objects n in
    let queue = sorted object_le objects in
    let heap = sorted slot_le (empty_slots 0 (suc n)) in
    (
      map paths groups,
      map total groups,
      (
        eq,
        pack_loop-IsBalanced m queue heap (replicate (suc n) []) (map paths groups)
            (replicate (suc n) (pos 0)) (map total groups) (start-Permᴰ (suc n))
            (sorted-IsSorted slot_le slot_le-IsTotalOrder (empty_slots 0 (suc n)))
            (replicate-IsBalanced m (suc n))
            (All-Permᴰ (IsWithin m) (Permᴰ.symm (sorted-Permᴰ object_le objects)) within)
            (simp test at eq),
      ),
    )
