-- ===== src/Transfer/Grid.antt =====
-- cmk-data-transfer/bench/sweep.py: the points of the grids, the names of their files and the
-- statistics of a point.
pub mod Names
use solutions_library.Prelude.{
  ℕ, zero, suc, ◌/◌, Bool, true, false, Option, none, some, List, [], ◌∷◌, ◌++◌, if◌then◌else◌, not,
  is_nil, length, take, get_elem?,
}
use solutions_library.Prelude.Text.{Text, codes, text_eq, split_first}
use solutions_library.Prelude.Lines.{rstrip}
use solutions_library.Prelude.Int.{ℤ, pos, pos_part, ◌*ℤ◌}
use solutions_library.Prelude.Sort.{sorted}
use solutions_library.Prelude.Calls.{pure, raise, ◌>>=◌}
use solutions_library.Transfer.Shard.{
  Python, lstrip, parse_tsv, Packed, packed, bin_pack, path_join, write_shards,
}
use solutions_library.Transfer.Config.{Config, remote_root}
use solutions_library.Transfer.Sizing.{Sizing, compute_sizing}
use solutions_library.Transfer.Manifests.{worker_label, shard_dir, pvc}
use solutions_library.Transfer.Manifests.Pods.{master_pod, worker_pod}
use solutions_library.Transfer.Kubectl.{
  apply, wait_ready, write_file, write_row, value_error, index_error, arithmetic_error, Action,
  call, exists, mutate, delete, exec_in,
}
use solutions_library.Transfer.Run.{World, printer, secret, listing, write_all, push_all}
use solutions_library.Transfer.Collect.{Meter, collect}

-- The numbers of the pieces that are not blank; `none` is the `ValueError` of `int`.
unfoldable pub numbers : Python → List Text → Option (List ℤ)
numbers py [] = some []
numbers py (x ∷ xs) =
    let rest = numbers py xs in
    if is_nil (rstrip py.is_space (lstrip py.is_space x)) then rest else (elim (py.int_of x) [
      | none ↦ none
      | some n ↦ elim rest [ none ↦ none | some ns ↦ some (n ∷ ns) ]
    ])

unfoldable pub grid : Python → Text → Option (List ℤ)
grid py s = let (p, ps) = split_first b',' s in numbers py (p ∷ ps)

-- `path.replace(".csv", new)`, behind `skip` characters of a match.
unfoldable pub replace_csv : Text → ℕ → Text → Text
replace_csv new skip [] = []
replace_csv new (suc skip) (c ∷ s) = replace_csv new skip s
replace_csv new zero (c ∷ s) =
    let found = text_eq (take 4 (c ∷ s)) (codes ".csv") in
    (if found then new else c ∷ []) ++ replace_csv new (if found then 3 else 0) s

-- The cells as floats; `none` is the `ValueError` of `float`.
unfoldable pub floats_of : {F : Type 0} → (Text → Option F) → List Text → Option (List F)
floats_of float_of [] = some []
floats_of float_of (cell ∷ cells) = elim (float_of cell) [
  | none ↦ none
  | some g ↦ elim (floats_of float_of cells) [ none ↦ none | some gs ↦ some (g ∷ gs) ]
]

unfoldable pub peak_of : {F : Type 0} → (F → F → F) → F → List F → F
peak_of max_of peak [] = peak
peak_of max_of peak (g ∷ gs) = peak_of max_of (max_of peak g) gs

unfoldable pub median_of : {F : Type 0} → (F → F → Bool) → F → List F → F
median_of le zero_float vals = elim (get_elem? (sorted le vals) (length vals / 2)) [
  | none ↦ zero_float
  | some g ↦ g
]

-- The settings of a point.
unfoldable pub point : {F : Type 0} → Config F → ℤ → ℤ → ℤ → Text → Config F
point c transfers mts ppn dest = record c {
  rclone_transfers = some transfers;
  rclone_multi_thread_streams = some mts;
  pods_per_node = ppn;
  num_pods = none;
  dest_path = dest;
}
