-- ===== src/Aria.antt =====
-- cross-region-shared-disk-data-transfer/aria2c-download.py: the list of downloads, its split into
-- shards, the pods that download them, and the wait for their end. Logging is left out. A call of
-- `kubectl` is a value of `Call`, and the cluster says how the k-th call ends, by its number.
pub mod Shards
pub mod Parsed
pub mod Manifests
pub mod Pods
pub mod Waited
pub mod Completes
use solutions_library.Prelude.{
  ℕ, zero, suc, ◌+◌, ◌*◌, ◌%◌, min, Bool, true, false, Option, none, some, List, [], ◌∷◌, ◌++◌, map,
  ◌==◌, if◌then◌else◌, ◌&&◌, ◌||◌, not, is_nil, length, replicate, get_or, select,
}
use solutions_library.Prelude.Text.{Text, codes, join, text_eq}
use solutions_library.Prelude.Lines.{rstrip}
use solutions_library.Prelude.Dict.{Dict, insert}
use solutions_library.Prelude.Json.{Json, fields, elements}
use solutions_library.Transfer.Shard.{append_at}

-- What the code uses of Python: `str` of a number, the order of strings (of `sorted`), the writer
-- of `json`, and which characters `strip` takes for white space.
pub record Runtime : Type 0 where
  pub str_of : ℕ → Text
  pub is_space : ℕ → Bool
  pub json_dump : Json → Text

-- The three kinds of lines that the parser tells apart.
pub data Kind : Type 0 where
  blank url_line option_line : Kind

-- `not line.strip()`
unfoldable pub is_blank : (ℕ → Bool) → Text → Bool
is_blank is_space [] = true
is_blank is_space (c ∷ s) = let rest = is_blank is_space s in is_space c && rest

unfoldable pub is_indented : Text → Bool
is_indented [] = false
is_indented (c ∷ s) = (c == b' ') || (c == b'\t')

unfoldable pub kind_of : (ℕ → Bool) → Text → Kind
kind_of is_space line =
    if is_blank is_space line then blank else if is_indented line then option_line else url_line

-- `if current: entries.append('\n'.join(current))`, in front of the entries to come.
unfoldable pub flush : List Text → List Text → List Text
flush [] entries = entries
flush (l ∷ ls) entries = join (codes "\n") (l ∷ ls) ∷ entries

-- The loop over the lines of the file, with the lines of the current entry.
unfoldable pub parse_loop : (ℕ → Bool) → List Text → List Text → List Text
parse_loop is_space [] current = flush current []
parse_loop is_space (raw ∷ raws) current =
    let line = rstrip (λ c. c == b'\n') raw in
    elim (kind_of is_space line) [
      | blank ↦ flush current (parse_loop is_space raws [])
      | url_line ↦ flush current (parse_loop is_space raws (line ∷ []))
      | option_line ↦ parse_loop is_space raws (current ++ (line ∷ []))
    ]

unfoldable pub parse_aria2c_entries : (ℕ → Bool) → List Text → List Text
parse_aria2c_entries is_space raws = parse_loop is_space raws []

-- `for i, entry in enumerate(entries): bins[i % num_shards].append(entry)`
unfoldable pub deal : ℕ → ℕ → List Text → List (List Text) → List (List Text)
deal num_shards i [] bins = bins
deal num_shards i (entry ∷ entries) bins =
    deal num_shards (suc i) entries (append_at bins (i % num_shards) entry)

unfoldable pub shard_name : Runtime → ℕ → Text
shard_name rt i = codes "aria2-shard-" ++ (rt.str_of i ++ codes ".txt")

unfoldable pub shard_content : List Text → Text
shard_content bucket = join (codes "\n\n") bucket ++ codes "\n"

unfoldable pub shard_files : Runtime → ℕ → List (List Text) → Dict Text → Dict Text
shard_files rt i [] shards = shards
shard_files rt i (bucket ∷ bins) shards =
    shard_files rt (suc i) bins (insert (shard_name rt i) (shard_content bucket) shards)

-- The shards by file name; `none` is the `ZeroDivisionError` of entries for no shard.
unfoldable pub split_entries : Runtime → List Text → ℕ → Option (Dict Text)
split_entries rt entries num_shards =
    if (num_shards == 0) && not (is_nil entries)
    then none
    else some (shard_files rt 0 (deal num_shards 0 entries (replicate num_shards [])) [])
