-- ===== src/Transfer/Shard.antt =====
-- cmk-data-transfer/shard/shard_manifest.py: the listing of objects, its split into balanced
-- shards, and the files that are written. Printing is left out.
pub mod Heap
pub mod Balance
pub mod Spread
pub mod Order
pub mod Listing
use solutions_library.Prelude.{
  ℕ, zero, suc, ◌+◌, Bool, true, false, Option, none, some, List, [], ◌∷◌, ◌++◌, map, ltb, leb,
  ◌==◌, if◌then◌else◌, not, ◌&&◌, is_nil, set, replicate,
}
use solutions_library.Prelude.Lines.{
  rstrip, is_nil-append, rstrip-append, rstrip-snoc, rstrip_weaken, read_lines, read_lines-join,
}
use solutions_library.Prelude.Text.{Text, codes, join}
use solutions_library.Prelude.Int.{ℤ, pos, pos_part, ◌+ℤ◌, leb_ℤ}
use solutions_library.Prelude.Sort.{insert_sorted, sorted}

-- What the code uses of Python: `int(text)`, where `none` is the `ValueError`, `str(number)`, and
-- which characters `strip` takes for white space.
pub record Python : Type 0 where
  pub int_of : Text → Option ℤ
  pub str_of : ℕ → Text
  pub is_space : ℕ → Bool

-- `(size, path)`
abbrev pub Object : Type 0
Object = ℤ × Text

-- `s.lstrip(...)`, likewise.
unfoldable pub lstrip : (ℕ → Bool) → Text → Text
lstrip p [] = []
lstrip p (c ∷ s) = let rest = lstrip p s in if p c then rest else c ∷ s

-- `s.partition(c)`, with whether the separator was found for the middle part.
unfoldable pub partition : ℕ → Text → Text × Bool × Text
partition c [] = ([], false, [])
partition c (x ∷ s) =
    let (before, found, behind) = partition c s in
    if x == c then ([], true, s) else (x ∷ before, found, behind)

-- The size and the path as texts, with the fallback to a space.
unfoldable pub size_and_path : Text → Text × Text
size_and_path line =
    let (before, found, behind) = partition b'\t' line in
    let (before', found', behind') = partition b' ' line in
    if found then (before, behind) else (before', behind')

module _ (py : Python) where
  -- One round of the loop over the lines.
  unfoldable pub parse_line : Text → Option Object
  parse_line raw =
      let line = rstrip (λ c. c == b'\n') raw in
      let (size_str, rest) = size_and_path line in
      let path = rstrip py.is_space (lstrip py.is_space rest) in
      if is_nil line
      then none
      else if is_nil path
      then none
      else (elim (py.int_of size_str) [ none ↦ none | some size ↦ some (size, path) ])

  unfoldable pub parse_tsv : List Text → List Object
  parse_tsv [] = []
  parse_tsv (raw ∷ lines) = elim (parse_line raw) [
    | none ↦ parse_tsv lines
    | some o ↦ o ∷ parse_tsv lines
  ]

-- Python's order of strings, by code points.
unfoldable pub text_le : Text → Text → Bool
text_le [] t = true
text_le (a ∷ s) [] = false
text_le (a ∷ s) (b ∷ t) =
    let rest = text_le s t in if ltb a b then true else if a == b then rest else false

-- The order of the key `(-size, path)`.
unfoldable pub object_le : Object → Object → Bool
object_le (a, p) (b, q) = if leb_ℤ b a then (if leb_ℤ a b then text_le p q else true) else false

-- An entry `(current_size, bin_index)` of the heap, and Python's order of such tuples.
abbrev pub Slot : Type 0
Slot = ℤ × ℕ

unfoldable pub slot_le : Slot → Slot → Bool
slot_le (a, i) (b, j) = if leb_ℤ a b then (if leb_ℤ b a then leb i j else true) else false

-- `bins[idx].append(path)`
unfoldable pub append_at {ℓ} : {A : Type ℓ} → List (List A) → ℕ → A → List (List A)
append_at [] idx x = []
append_at (b ∷ bins) zero x = (b ++ (x ∷ [])) ∷ bins
append_at (b ∷ bins) (suc idx) x = b ∷ append_at bins idx x

-- `[(0, i) for i in range(num_bins)]`, from the index on.
unfoldable pub empty_slots : ℕ → ℕ → List Slot
empty_slots i zero = []
empty_slots i (suc n) = (pos 0, i) ∷ empty_slots (suc i) n

-- The bins with their sizes, or one of the two exceptions.
pub data Packed : Type 0 where
  packed : List (List Text) → List ℤ → Packed
  value_error index_error : Packed

-- The loop over the sorted objects. The heap is held in order: its least entry, which `heappop`
-- takes, is the first one, and `heappush` puts an entry at its place.
unfoldable pub pack_loop : List Object → List Slot → List (List Text) → List ℤ → Packed
pack_loop [] heap bins sizes = packed bins sizes
pack_loop ((size, path) ∷ objects) heap bins sizes = elim heap [
  | [] ↦ index_error
  | (cur, idx) ∷ rest ↦
      pack_loop objects (insert_sorted slot_le (cur +ℤ size, idx) rest) (append_at bins idx path)
        (set sizes idx (cur +ℤ size))
]

unfoldable pub bin_pack : List Object → ℤ → Packed
bin_pack objects num_bins =
    if leb_ℤ num_bins (pos 0)
    then value_error
    else (let n = pos_part num_bins in
        pack_loop (sorted object_le objects) (sorted slot_le (empty_slots 0 n)) (replicate n [])
          (replicate n (pos 0)))

-- `os.path.join(out_dir, name)` for a name that does not begin with a slash.
unfoldable pub path_join : Text → Text → Text
path_join [] name = name
path_join (c ∷ []) name = if c == b'/' then c ∷ name else c ∷ b'/' ∷ name
path_join (c ∷ d ∷ s) name = c ∷ path_join (d ∷ s) name

unfoldable pub content : List Text → Text
content keys = join (codes "\n") keys ++ (if is_nil keys then [] else codes "\n")

-- The files that are written, each by its path, from the shard of the index on.
unfoldable pub write_shards : Python → ℕ → List (List Text) → Text → List (Text × Text)
write_shards py i [] out_dir = []
write_shards py i (keys ∷ bins) out_dir =
    (path_join out_dir (codes "shard-" ++ (py.str_of i ++ codes ".txt")), content keys)
    ∷ write_shards py (suc i) bins out_dir

-- How the program ends: it exits with a code, having written the files, or raises.
pub data Ran : Type 0 where
  exits : ℕ → List (Text × Text) → Ran
  raises : Ran

unfoldable pub main : Python → List Text → ℤ → Text → Ran
main py lines num out =
    let objects = parse_tsv py lines in
    if is_nil objects then exits 2 [] else (elim (bin_pack objects num) [
      | packed bins sizes ↦ exits 0 (write_shards py 0 bins out)
      | _ ↦ raises
    ])
