-- ===== src/Transfer/Shard/Balance.antt =====
-- shard_manifest.py: the bins of `bin_pack` partition the objects, and their sizes are balanced.
use solutions_library.Prelude.{
  ℕ, zero, suc, ◌+◌, ◌≤◌, ◌≡◌, refl, sym, ap, subst, ◌∙◌, true, false, some, List, [], ◌∷◌, ◌++◌,
  map, flatten, get_elem?, set, length, replicate, length-replicate, arith, leb,
}
use mathlib.Core.List.{Permᴰ}
use mathlib.Core.List.Permᴰ
use mathlib.Core.List.{append_assoc}
use solutions_library.Prelude.Text.{Text}
use solutions_library.Prelude.Int.{ℤ, pos, ◌+ℤ◌, +ℤ_assoc, +ℤ_comm}
use solutions_library.Prelude.Sort.{insert_sorted, sorted, sorted-Permᴰ}
use solutions_library.Transfer.Shard.{
  Object, Slot, slot_le, object_le, append_at, empty_slots, Packed, packed, pack_loop, bin_pack,
}
use solutions_library.Transfer.Shard.Heap.{slots, heap-set, heap-get, empty_slots-eq, All-Permᴰ}

-- The sum of the sizes of the objects.
abbrev pub total : List Object → ℤ
total [] = pos 0
total ((size, path) ∷ objects) = size +ℤ total objects

abbrev pub paths : List Object → List Text
paths = map (λ o. o.1)

total-snoc : (g : List Object) (o : Object) → total (g ++ (o ∷ [])) ≡ total g +ℤ o.0
total-snoc [] o = +ℤ_comm o.0 (pos 0)
total-snoc ((size, path) ∷ g) o = rw (total-snoc g o) (sym (+ℤ_assoc size (total g) o.0))

paths-snoc : (g : List Object) (o : Object) → paths (g ++ (o ∷ [])) ≡ paths g ++ (o.1 ∷ [])
paths-snoc [] o = refl
paths-snoc (p ∷ g) o = ap (◌∷◌ p.1) (paths-snoc g o)

map-append_at :
    (groups : List (List Object)) (idx : ℕ) (o : Object)
    → map paths (append_at groups idx o) ≡ append_at (map paths groups) idx o.1
unfolding append_at
map-append_at [] idx o = refl
map-append_at (g ∷ groups) zero o = ap (λ b. b ∷ map paths groups) (paths-snoc g o)
map-append_at (g ∷ groups) (suc idx) o = ap (◌∷◌ (paths g)) (map-append_at groups idx o)

total-append_at :
    (groups : List (List Object)) (idx : ℕ) (o : Object) (cur : ℤ)
    → get_elem? (map total groups) idx ≡ some cur
    → map total (append_at groups idx o) ≡ set (map total groups) idx (cur +ℤ o.0)
unfolding append_at
total-append_at [] idx o cur h = refl
total-append_at (g ∷ groups) zero o cur h =
    let e : total g ≡ cur = ground arith in
    rw (total-snoc g o) (ap (λ c. (c +ℤ o.0) ∷ map total groups) e)
total-append_at (g ∷ groups) (suc idx) o cur h =
    ap (◌∷◌ (total g)) (total-append_at groups idx o cur h)

flatten-append_at :
    (groups : List (List Object)) (idx : ℕ) (o : Object) (cur : ℤ)
    → get_elem? (map total groups) idx ≡ some cur
    → Permᴰ (flatten (append_at groups idx o)) (o ∷ flatten groups)
unfolding append_at flatten
flatten-append_at [] idx o cur h = absurd (ground arith)
flatten-append_at (g ∷ groups) zero o cur h =
    rw (append_assoc g (o ∷ []) (flatten groups)) (Permᴰ.middle o g (flatten groups))
flatten-append_at (g ∷ groups) (suc idx) o cur h =
    Permᴰ.trans (Permᴰ.append_left g (flatten-append_at groups idx o cur h))
      (Permᴰ.middle o g (flatten groups))

length-append_at {ℓ} :
    {A : Type ℓ} (bins : List (List A)) (idx : ℕ) (x : A)
    → length (append_at bins idx x) ≡ length bins
unfolding append_at
length-append_at [] idx x = refl
length-append_at (b ∷ bins) zero x = refl
length-append_at (b ∷ bins) (suc idx) x = ap suc (length-append_at bins idx x)

-- What the loop makes of the groups of objects that are in the bins so far.
abbrev Partitions : List Object → List (List Object) → Packed → List (List Object) → Type 0
Partitions objects groups p groups' =
    (p ≡ packed (map paths groups') (map total groups'))
    × (Permᴰ (flatten groups') (flatten groups ++ objects) × (length groups' ≡ length groups))

pack_loop-Partitions :
    (objects : List Object) (heap : List Slot) (groups : List (List Object))
    → 1 ≤ length groups
    → Permᴰ heap (slots 0 (map total groups))
    → (groups' : List (List Object)) × Partitions objects groups
        (pack_loop objects heap (map paths groups) (map total groups))
        groups'
unfolding pack_loop slots
pack_loop-Partitions [] heap groups n p =
    (groups, (refl, (Permᴰ.symm (Permᴰ.append-nil (flatten groups)), refl)))
pack_loop-Partitions (o ∷ objects) [] (g ∷ groups) n p =
    absurd (cc (All-Permᴰ (λ e. true ≡ false) p tt).0)
pack_loop-Partitions (o ∷ objects) [] [] n p = absurd (omega (arith, n))
pack_loop-Partitions ((size, path) ∷ objects) ((cur, idx) ∷ rest) groups n p =
    let groups1 = append_at groups idx (size, path) in
    let held = heap-get cur idx rest (map total groups) p in
    let sizes1 = total-append_at groups idx (size, path) cur held in
    let paths1 = map-append_at groups idx (size, path) in
    let size1 = length-append_at groups idx (size, path) in
    let heap1 = insert_sorted slot_le (cur +ℤ size, idx) rest in
    let (groups', (eq, (perm, len))) =
      pack_loop-Partitions objects heap1 groups1 (omega (arith, n, size1)) (
        subst (λ z. Permᴰ heap1 (slots 0 z)) (sym sizes1)
          (heap-set cur (cur +ℤ size) idx rest (map total groups) p)) in
    (
      groups',
      (
        subst
            (λ b.
              pack_loop objects heap1 b (set (map total groups) idx (cur +ℤ size))
              ≡ packed (map paths groups') (map total groups'))
            paths1
            (subst
              (λ z.
                pack_loop objects heap1 (map paths groups1) z
                ≡ packed (map paths groups') (map total groups'))
              sizes1 eq),
        (
          Permᴰ.trans perm (
              Permᴰ.trans
                (Permᴰ.append_right objects (flatten-append_at groups idx (size, path) cur held))
                (Permᴰ.symm (Permᴰ.middle (size, path) (flatten groups) objects))),
          len ∙ size1,
        ),
      ),
    )

flatten-replicate-nil : (n : ℕ) → flatten (replicate {A = List Object} n []) ≡ []
unfolding flatten
flatten-replicate-nil zero = refl
flatten-replicate-nil (suc n) = flatten-replicate-nil n

map-replicate {ℓ κ} :
    {A : Type ℓ} {B : Type κ} (f : A → B) (n : ℕ) (a : A)
    → map f (replicate n a) ≡ replicate n (f a)
map-replicate f zero a = refl
map-replicate f (suc n) a = ap (◌∷◌ (f a)) (map-replicate f n a)

pub start-Permᴰ : (n : ℕ) → Permᴰ (sorted slot_le (empty_slots 0 n)) (slots 0 (replicate n (pos 0)))
start-Permᴰ n = subst (Permᴰ _) (empty_slots-eq 0 n) (sorted-Permᴰ slot_le (empty_slots 0 n))

-- For a positive number of bins the objects are divided into that many groups, where each object
-- stands in exactly one: the bins are the paths of the groups, and the sizes are their sums.
pub bin_pack_partitions :
    (objects : List Object) (n : ℕ)
    → (groups : List (List Object)) × ((bin_pack objects (pos (suc n))
          ≡ packed (map paths groups) (map total groups))
        × (Permᴰ (flatten groups) objects × (length groups ≡ suc n)))
unfolding bin_pack
bin_pack_partitions objects n =
    let test : leb (suc n + 0) (0 + 0) ≡ false = ground arith in
    let empty = replicate {A = List Object} (suc n) [] in
    let sizes0 = map-replicate total (suc n) [] in
    let heap = sorted slot_le (empty_slots 0 (suc n)) in
    let queue = sorted object_le objects in
    let (groups, (eq, (perm, len))) =
      pack_loop-Partitions queue heap empty (omega arith)
        (subst (λ z. Permᴰ heap (slots 0 z)) (sym sizes0) (start-Permᴰ (suc n))) in
    (
      groups,
      (
        rw test (
            subst
              (λ z.
                pack_loop queue heap (replicate (suc n) []) z
                ≡ packed (map paths groups) (map total groups))
              sizes0
              (subst
                (λ b.
                  pack_loop queue heap b (map total empty)
                  ≡ packed (map paths groups) (map total groups))
                (map-replicate paths (suc n) []) eq)),
        (
          Permᴰ.trans perm (
              subst (λ l. Permᴰ (l ++ queue) objects) (sym (flatten-replicate-nil (suc n)))
                (sorted-Permᴰ object_le objects)),
          len ∙ length-replicate (suc n) [],
        ),
      ),
    )
