-- ===== src/Aria/Shards.antt =====
-- aria2c-download.py: which entries a shard holds.
use solutions_library.Prelude.{
  ℕ, zero, suc, ◌+◌, ◌%◌, ◌<◌, ◌≡◌, refl, sym, ap, subst, ◌∙◌, false, some, List, [], ◌∷◌, ◌++◌,
  ◌==◌, if◌then◌else◌, get_elem?, replicate, arith, Bool-cases, inl, inr,
}
use mathlib.Core.List.{append_assoc, append-nil, append_cancel_left, append_cancel_right}
use solutions_library.Prelude.Text.{Text, codes, text_eq, text_eq_iff, text_eq_refl}
use solutions_library.Prelude.Dict.{Dict, lookup, insert, lookup-insert}
use solutions_library.Transfer.Shard.{append_at}
use solutions_library.Aria.{Runtime, deal, shard_name, shard_content, shard_files, split_entries}

-- The entries whose index leaves the rest `b`, where the first one has the index `i`.
unfoldable pub dealt : ℕ → ℕ → ℕ → List Text → List Text
dealt n b i [] = []
dealt n b i (entry ∷ entries) =
    let rest = dealt n b (suc i) entries in if (i % n) == b then entry ∷ rest else rest

get-append_at :
    (bins : List (List Text)) (idx b : ℕ) (entry : Text) (bucket : List Text)
    → get_elem? bins b ≡ some bucket
    → get_elem? (append_at bins idx entry) b
      ≡ some (if idx == b then bucket ++ (entry ∷ []) else bucket)
unfolding append_at
get-append_at [] idx b entry bucket h = absurd (ground arith)
get-append_at (x ∷ bins) zero zero entry bucket h = ground arith
get-append_at (x ∷ bins) zero (suc b) entry bucket h = ground arith
get-append_at (x ∷ bins) (suc idx) zero entry bucket h = ground arith
get-append_at (x ∷ bins) (suc idx) (suc b) entry bucket h =
    ground (arith, get-append_at bins idx b entry bucket h)

get-deal :
    (n b i : ℕ) (entries : List Text) (bins : List (List Text)) (bucket : List Text)
    → get_elem? bins b ≡ some bucket
    → get_elem? (deal n i entries bins) b ≡ some (bucket ++ dealt n b i entries)
unfolding deal dealt
get-deal n b i [] bins bucket h = h ∙ ap some (sym (append-nil bucket))
get-deal n b i (entry ∷ entries) bins bucket h = elim (Bool-cases ((i % n) == b)) [
  | inl e ↦
      let next = get-append_at bins (i % n) b entry bucket h in
      let more = bucket ++ (entry ∷ []) in
      let bins' = append_at bins (i % n) entry in
      let rest = get-deal n b (suc i) entries bins' more (simp e at next) in
      rw e (rest ∙ ap some (append_assoc bucket (entry ∷ []) (dealt n b (suc i) entries)))
  | inr e ↦
      let next = get-append_at bins (i % n) b entry bucket h in
      let bins' = append_at bins (i % n) entry in
      rw e (get-deal n b (suc i) entries bins' bucket (simp e at next))
]

get-replicate : (n b : ℕ) → b < n → get_elem? (replicate {A = List Text} n []) b ≡ some []
get-replicate zero b h = absurd (omega arith)
get-replicate (suc n) zero h = refl
get-replicate (suc n) (suc b) h = get-replicate n b (omega arith)

module _ (rt : Runtime) (str_of-injective : (i j : ℕ) → rt.str_of i ≡ rt.str_of j → i ≡ j) where
  shard_name-injective : (i j : ℕ) → shard_name rt i ≡ shard_name rt j → i ≡ j
  unfolding shard_name
  shard_name-injective i j e =
      let tails =
        append_cancel_left (codes "aria2-shard-") (rt.str_of i ++ codes ".txt")
          (rt.str_of j ++ codes ".txt") e in
      str_of-injective i j (append_cancel_right (rt.str_of i) (rt.str_of j) (codes ".txt") tails)

  text_eq-shard_name : (i j : ℕ) → j < i → text_eq (shard_name rt i) (shard_name rt j) ≡ false
  text_eq-shard_name i j h = elim (Bool-cases (text_eq (shard_name rt i) (shard_name rt j))) [
    | inl e ↦ absurd (omega (arith, shard_name-injective i j ((text_eq_iff _ _).0 e)))
    | inr e ↦ e
  ]

  lookup-shard_files_before :
      (i j : ℕ) (bins : List (List Text)) (shards : Dict Text)
      → j < i
      → lookup (shard_name rt j) (shard_files rt i bins shards) ≡ lookup (shard_name rt j) shards
  unfolding shard_files
  lookup-shard_files_before i j [] shards h = refl
  lookup-shard_files_before i j (bucket ∷ bins) shards h =
      let inserted =
        lookup-insert (shard_name rt i) (shard_name rt j) (shard_content bucket) shards in
      let shards' = insert (shard_name rt i) (shard_content bucket) shards in
      lookup-shard_files_before (suc i) j bins shards' (omega arith)
      ∙ simp (text_eq-shard_name i j h) at inserted

  lookup-shard_files :
      (i b : ℕ) (bins : List (List Text)) (bucket : List Text) (shards : Dict Text)
      → get_elem? bins b ≡ some bucket
      → lookup (shard_name rt (i + b)) (shard_files rt i bins shards) ≡ some (shard_content bucket)
  unfolding shard_files
  lookup-shard_files i b [] bucket shards h = absurd (ground arith)
  lookup-shard_files i zero (x ∷ bins) bucket shards h =
      let e : i + 0 ≡ i = omega arith in
      let same : x ≡ bucket = ground arith in
      let shards' = insert (shard_name rt i) (shard_content x) shards in
      let inserted = lookup-insert (shard_name rt i) (shard_name rt i) (shard_content x) shards in
      rw e (
        lookup-shard_files_before (suc i) i bins shards' (omega arith)
        ∙ (simp (text_eq_refl (shard_name rt i)) at inserted
            ∙ ap (λ y. some (shard_content y)) same))
  lookup-shard_files i (suc b) (x ∷ bins) bucket shards h =
      let e : i + suc b ≡ suc i + b = omega arith in
      rw e (
        lookup-shard_files (suc i) b bins bucket (insert (shard_name rt i) (shard_content x) shards)
          h)

  -- If `str` gives different texts for different numbers, then for a number of shards above `b` the
  -- split succeeds, and the file of the b-th shard holds the entries whose index leaves the rest
  -- `b` when divided by that number, in order.
  pub lookup-split_entries :
      (entries : List Text) (n b : ℕ)
      → b < n
      → (shards : Dict Text) × (split_entries rt entries n ≡ some shards)
        × (lookup (shard_name rt b) shards ≡ some (shard_content (dealt n b 0 entries)))
  unfolding split_entries
  lookup-split_entries entries n b h =
      let test : (n == 0) ≡ false = ground arith in
      let start : 0 + b ≡ b = omega arith in
      let bins = deal n 0 entries (replicate n []) in
      (
        shard_files rt 0 bins [],
        rw test refl,
        subst
            (λ j.
              lookup (shard_name rt j) (shard_files rt 0 bins [])
              ≡ some (shard_content (dealt n b 0 entries)))
            start
            (lookup-shard_files 0 b bins (dealt n b 0 entries) []
              (get-deal n b 0 entries (replicate n []) [] (get-replicate n b h))),
      )
