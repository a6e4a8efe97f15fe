-- ===== src/Tests/Codec.antt =====
-- A text form of JSON values, with a reader that inverts it: it stands for `json.dumps` and
-- `json.loads` at the concrete inputs.
use solutions_library.Prelude.{
  ℕ, zero, suc, ◌+◌, ◌≤◌, ◌<◌, ◌≡◌, refl, true, false, Option, none, some, [], ◌∷◌, ◌++◌, arith,
  length, take, drop, length-append, ap,
}
use mathlib.Core.Option
use solutions_library.Prelude.Text.{Text}
use solutions_library.Prelude.Json.{
  Json, null, bool, num, str, arr, obj, Items, nil, cons, Fields, end, field,
}

unfoldable mutual
  pub dump_onto : Json → Text → Text
  dump_onto null r = 0 ∷ r
  dump_onto (bool true) r = 1 ∷ r
  dump_onto (bool false) r = 2 ∷ r
  dump_onto (num n) r = 3 ∷ n ∷ r
  dump_onto (str s) r = 4 ∷ length s ∷ (s ++ r)
  dump_onto (arr xs) r = 5 ∷ dump_items xs r
  dump_onto (obj fs) r = 6 ∷ dump_fields fs r

  pub dump_items : Items → Text → Text
  dump_items nil r = 0 ∷ r
  dump_items (cons x xs) r = 1 ∷ dump_onto x (dump_items xs r)

  pub dump_fields : Fields → Text → Text
  dump_fields end r = 0 ∷ r
  dump_fields (field k v fs) r = 1 ∷ length k ∷ (k ++ dump_onto v (dump_fields fs r))

unfoldable mutual
  pub size : Json → ℕ
  size null = 1
  size (bool b) = 1
  size (num n) = 1
  size (str s) = 1
  size (arr xs) = 1 + size_items xs
  size (obj fs) = 1 + size_fields fs

  pub size_items : Items → ℕ
  size_items nil = 1
  size_items (cons x xs) = 1 + size x + size_items xs

  pub size_fields : Fields → ℕ
  size_fields end = 1
  size_fields (field k v fs) = 1 + size v + size_fields fs

unfoldable mutual
  pub read : ℕ → Text → Option (Json × Text)
  read zero t = none
  read (suc f) [] = none
  read (suc f) (zero ∷ r) = some (null, r)
  read (suc f) (suc zero ∷ r) = some (bool true, r)
  read (suc f) (suc (suc zero) ∷ r) = some (bool false, r)
  read (suc f) (suc (suc (suc zero)) ∷ []) = none
  read (suc f) (suc (suc (suc zero)) ∷ n ∷ r) = some (num n, r)
  read (suc f) (suc (suc (suc (suc zero))) ∷ []) = none
  read (suc f) (suc (suc (suc (suc zero))) ∷ n ∷ r) = some (str (take n r), drop n r)
  read (suc f) (suc (suc (suc (suc (suc zero)))) ∷ r) = elim (read_items f r) [
    | none ↦ none
    | some (xs, r') ↦ some (arr xs, r')
  ]
  read (suc f) (suc (suc (suc (suc (suc (suc n))))) ∷ r) = elim (read_fields f r) [
    | none ↦ none
    | some (fs, r') ↦ some (obj fs, r')
  ]

  pub read_items : ℕ → Text → Option (Items × Text)
  read_items zero t = none
  read_items (suc f) [] = none
  read_items (suc f) (zero ∷ r) = some (nil, r)
  read_items (suc f) (suc n ∷ r) = elim (read f r) [
    | none ↦ none
    | some (x, r') ↦ elim (read_items f r') [ none ↦ none | some (xs, r'') ↦ some (cons x xs, r'') ]
  ]

  pub read_fields : ℕ → Text → Option (Fields × Text)
  read_fields zero t = none
  read_fields (suc f) [] = none
  read_fields (suc f) (zero ∷ r) = some (end, r)
  read_fields (suc f) (suc n ∷ []) = none
  read_fields (suc f) (suc n ∷ k ∷ r) = elim (read f (drop k r)) [
    | none ↦ none
    | some (v, r') ↦ elim (read_fields f r') [
      | none ↦ none
      | some (fs, r'') ↦ some (field (take k r) v fs, r'')
    ]
  ]

take-length-append : (s r : Text) → take (length s) (s ++ r) ≡ s
take-length-append [] r = refl
take-length-append (c ∷ s) r = ap (◌∷◌ c) (take-length-append s r)

drop-length-append : (s r : Text) → drop (length s) (s ++ r) ≡ r
drop-length-append [] r = refl
drop-length-append (c ∷ s) r = drop-length-append s r

mutual
  unfolding dump_onto dump_items dump_fields size size_items size_fields

  length-dump_onto : (j : Json) (r : Text) → size j + length r ≤ length (dump_onto j r)
  length-dump_onto null r = omega arith
  length-dump_onto (bool true) r = omega arith
  length-dump_onto (bool false) r = omega arith
  length-dump_onto (num n) r = omega arith
  length-dump_onto (str s) r = omega (arith, length-append s r)
  length-dump_onto (arr xs) r = omega (arith, length-dump_items xs r)
  length-dump_onto (obj fs) r = omega (arith, length-dump_fields fs r)

  length-dump_items : (xs : Items) (r : Text) → size_items xs + length r ≤ length (dump_items xs r)
  length-dump_items nil r = omega arith
  length-dump_items (cons x xs) r =
      omega (arith, length-dump_onto x (dump_items xs r), length-dump_items xs r)

  length-dump_fields :
      (fs : Fields) (r : Text) → size_fields fs + length r ≤ length (dump_fields fs r)
  length-dump_fields end r = omega arith
  length-dump_fields (field k v fs) r = omega (
    arith,
    length-append k (dump_onto v (dump_fields fs r)),
    length-dump_onto v (dump_fields fs r),
    length-dump_fields fs r,
  )

size_pos : (j : Json) → 0 < size j
unfolding size
size_pos null = omega arith
size_pos (bool b) = omega arith
size_pos (num n) = omega arith
size_pos (str s) = omega arith
size_pos (arr xs) = omega arith
size_pos (obj fs) = omega arith

mutual
  unfolding dump_onto dump_items dump_fields size size_items size_fields read read_items read_fields

  read-dump_onto : (j : Json) (f : ℕ) (r : Text) → size j ≤ f → read f (dump_onto j r) ≡ some (j, r)
  read-dump_onto null (suc f) r h = refl
  read-dump_onto (bool true) (suc f) r h = refl
  read-dump_onto (bool false) (suc f) r h = refl
  read-dump_onto (num n) (suc f) r h = refl
  read-dump_onto (str s) (suc f) r h = rw (take-length-append s r) (rw (drop-length-append s r))
  read-dump_onto (arr xs) (suc f) r h = rw (read-dump_items xs f r (omega arith))
  read-dump_onto (obj fs) (suc f) r h = rw (read-dump_fields fs f r (omega arith))
  read-dump_onto j zero r h = absurd (omega (arith, size_pos j))

  read-dump_items :
      (xs : Items) (f : ℕ) (r : Text)
      → size_items xs ≤ f
      → read_items f (dump_items xs r) ≡ some (xs, r)
  read-dump_items nil (suc f) r h = refl
  read-dump_items (cons x xs) (suc f) r h =
      rw (read-dump_onto x f (dump_items xs r) (omega arith))
        (rw (read-dump_items xs f r (omega arith)))
  read-dump_items nil zero r h = absurd (omega arith)
  read-dump_items (cons x xs) zero r h = absurd (omega arith)

  read-dump_fields :
      (fs : Fields) (f : ℕ) (r : Text)
      → size_fields fs ≤ f
      → read_fields f (dump_fields fs r) ≡ some (fs, r)
  read-dump_fields end (suc f) r h = refl
  read-dump_fields (field k v fs) (suc f) r h =
      rw (drop-length-append k (dump_onto v (dump_fields fs r))) (
        rw (read-dump_onto v f (dump_fields fs r) (omega arith)) (
          rw (read-dump_fields fs f r (omega arith))
            (rw (take-length-append k (dump_onto v (dump_fields fs r))))))
  read-dump_fields end zero r h = absurd (omega arith)
  read-dump_fields (field k v fs) zero r h = absurd (omega arith)

unfoldable pub json_dump : Json → Text
unfolding dump_onto
json_dump j = dump_onto j []

unfoldable pub json_load : Text → Option Json
unfolding read
json_load t = Option.map (λ p. p.0) (read (length t) t)

-- The reader inverts the writer.
pub json_load-json_dump : (j : Json) → json_load (json_dump j) ≡ some j
unfolding json_load json_dump
json_load-json_dump j =
    rw (read-dump_onto j (length (dump_onto j [])) [] (omega (arith, length-dump_onto j [])))
