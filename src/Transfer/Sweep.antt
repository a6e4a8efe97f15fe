-- ===== src/Transfer/Sweep.antt =====
-- cmk-data-transfer/bench/sweep.py: the sweep over the settings of the workers. The settings of the
-- orchestrator and the flags that were parsed are arguments. Printing, pauses, the folders of local
-- files and the local copy of the listing are left out. The file that the collector wrote is read
-- back as it was written.
pub mod Fleet
pub mod Collected
pub mod Removed
pub mod Shards
use solutions_library.Prelude.{
  ℕ, zero, suc, ◌/◌, Bool, true, false, Option, none, some, List, [], ◌∷◌, ◌++◌, if◌then◌else◌, not,
  is_nil, length, take, get_elem?,
}
use solutions_library.Prelude.Text.{Text, codes, text_eq, split_first}
use solutions_library.Prelude.Lines.{rstrip}
use solutions_library.Prelude.Int.{ℤ, pos, pos_part, ◌*ℤ◌}
use solutions_library.Prelude.Sort.{sorted}
use solutions_library.Prelude.Calls.{pure, raise, ◌>>=◌}
use solutions_library.Transfer.Shard.{
  Python, lstrip, parse_tsv, Packed, packed, bin_pack, path_join, write_shards,
}
use solutions_library.Transfer.Config.{Config, remote_root}
use solutions_library.Transfer.Sizing.{Sizing, compute_sizing}
use solutions_library.Transfer.Manifests.{worker_label, shard_dir, pvc}
use solutions_library.Transfer.Manifests.Pods.{master_pod, worker_pod}
use solutions_library.Transfer.Kubectl.{
  apply, wait_ready, write_file, write_row, value_error, index_error, arithmetic_error, Action,
  call, exists, mutate, delete, exec_in,
}
use solutions_library.Transfer.Run.{World, printer, secret, listing, write_all, push_all}
use solutions_library.Transfer.Collect.{Meter, collect}
use solutions_library.Transfer.Grid.{grid, replace_csv, floats_of, peak_of, median_of, point}

pub record SweepArgs : Type 0 where
  pub transfers_grid : Text
  pub mts_grid : Text
  pub pods_per_node_grid : Text
  pub sample_prefix : Option Text
  pub max_seconds : ℤ
  pub out : Text
  pub do_list : Bool
  pub yes : Bool

abbrev pub or_raise : {A : Type 0} → Option A → Action A
or_raise none = raise value_error
or_raise (some a) = pure a

module _ {F : Type 0} (w : World F) (m : Meter F) (args : SweepArgs) where
  -- `T{transfers}_s{mts}_ppn{ppn}`
  unfoldable pub label : ℤ → ℤ → ℤ → Text
  label transfers mts ppn =
      b'T' ∷ m.show_int transfers
      ++ (codes "_s" ++ (m.show_int mts ++ (codes "_ppn" ++ m.show_int ppn)))

  -- The file of a point.
  unfoldable pub point_csv : ℤ → ℤ → ℤ → Text
  point_csv transfers mts ppn =
      replace_csv (b'.' ∷ label transfers mts ppn ++ codes ".csv") 0 args.out

  module _ (c : Config F) where
    unfoldable pub make_master : Bool → Action (Unit {0})
    make_master found = if found then pure tt else (do
      tt ← mutate w.cluster false (apply (master_pod c))
      mutate w.cluster false (wait_ready c.master_pod_name))

    unfoldable pub list_sample : Action (Unit {0})
    list_sample = do
      out ← exec_in w.cluster false c.master_pod_name (
          codes "/bin/sh"
          ∷ codes "-c"
          ∷ (codes
                "SEP=$(printf '\\t'); rclone lsf --recursive --files-only --format sp --separator \"$SEP\" --config /config/rclone.conf "
              ++ (remote_root c ++ (codes " > " ++ listing w c)))
          ∷ [])
      pure tt

    unfoldable pub ensure_base : Action (Unit {0})
    ensure_base = do
      tt ← mutate w.cluster false (apply (secret w c))
      tt ← mutate w.cluster false (apply (pvc c))
      found ← exists w.cluster c.master_pod_name
      tt ← make_master found
      if args.do_list then list_sample else pure tt

    -- The shards are written, those of the point before are removed, and the new ones are pushed.
    unfoldable pub replace_shards : Packed → Action (Unit {0})
    replace_shards Packed.value_error = raise value_error
    replace_shards Packed.index_error = raise index_error
    replace_shards (packed bins sizes) = do
      let files = write_shards w.python 0 bins (path_join w.run_dir (codes "shards"))
      tt ← write_all w c files
      removed ← exec_in w.cluster false c.master_pod_name (
          codes "/bin/sh"
          ∷ codes "-c"
          ∷ (codes "rm -f " ++ (shard_dir c ++ codes "/shard-*.txt"))
          ∷ [])
      push_all w c false files

    unfoldable pub reshard : ℤ → Action (Unit {0})
    reshard num_pods = do
      lines ← exec_in w.cluster false c.master_pod_name (codes "cat" ∷ listing w c ∷ [])
      replace_shards (bin_pack (parse_tsv w.python lines) num_pods)

    -- The workers from the index `i` on.
    unfoldable pub apply_workers : Sizing F → ℕ → ℕ → Action (Unit {0})
    apply_workers z i zero = pure tt
    apply_workers z i (suc n) = do
      tt ← mutate w.cluster false (apply (worker_pod (printer w c) c z [] i))
      apply_workers z (suc i) n

    -- `for i in range(total)`
    unfoldable pub start_workers : Sizing F → Action (Unit {0})
    start_workers z = apply_workers z 0 (pos_part z.total_pods)

    -- The workers of a point, from their start to their removal: the peak and the median.
    unfoldable pub measure : Sizing F → Text → Action (F × F)
    measure z out = do
      tt ← start_workers z
      cells ← collect w.cluster m w.rounds out args.max_seconds
      vals ← or_raise (floats_of w.floats.float_of cells)
      tt ← delete w.cluster false [] (codes "app=" ++ worker_label)
      pure (peak_of m.max_of m.zero_float vals, median_of m.float_le m.zero_float vals)

  module _ (c : Config F) where
    -- The peak, the median and the streams of the fleet.
    unfoldable pub run_point : ℤ → ℤ → ℤ → Text → Action (F × F × ℤ)
    run_point transfers mts ppn dest =
        let c' = point c transfers mts ppn dest in
        elim (compute_sizing w.floats c') [
          | none ↦ raise arithmetic_error
          | some z ↦ (do
            (peak, median) ← measure c' z (point_csv transfers mts ppn)
            pure (peak, median, z.in_flight_per_node *ℤ c'.num_nodes))
        ]

    unfoldable pub sweep_transfers : ℤ → ℤ → List ℤ → Action (Unit {0})
    sweep_transfers ppn mts [] = pure tt
    sweep_transfers ppn mts (t ∷ ts) = do
      (peak, median, streams) ←
          run_point t mts ppn (c.mount_root ++ (codes "/sweep/" ++ label t mts ppn))
      wrote ← call w.cluster (
          write_row args.out (
            m.show_int t
            ∷ m.show_int mts
            ∷ m.show_int ppn
            ∷ m.show_int (c.num_nodes *ℤ ppn)
            ∷ m.show_int streams
            ∷ m.show 3 peak
            ∷ m.show 3 median
            ∷ []))
      sweep_transfers ppn mts ts

    unfoldable pub sweep_mts : ℤ → List ℤ → Action (Unit {0})
    sweep_mts ppn [] = pure tt
    sweep_mts ppn (mts ∷ rest) = do
      ts ← or_raise (grid w.python args.transfers_grid)
      tt ← sweep_transfers ppn mts ts
      sweep_mts ppn rest

    unfoldable pub sweep_ppn : List ℤ → Action (Unit {0})
    sweep_ppn [] = pure tt
    sweep_ppn (ppn ∷ rest) = do
      tt ← reshard c (c.num_nodes *ℤ ppn)
      all_mts ← or_raise (grid w.python args.mts_grid)
      tt ← sweep_mts ppn all_mts
      sweep_ppn rest

    abbrev pub results_header : List Text
    results_header =
        codes "transfers"
        ∷ codes "mts"
        ∷ codes "pods_per_node"
        ∷ codes "total_pods"
        ∷ codes "fleet_streams"
        ∷ codes "peak_GBps"
        ∷ codes "median_GBps"
        ∷ []

    unfoldable pub sweep : Action ℕ
    sweep = do
      tt ← ensure_base c
      opened ← call w.cluster (write_file args.out [])
      wrote ← call w.cluster (write_row args.out results_header)
      all_ppn ← or_raise (grid w.python args.pods_per_node_grid)
      tt ← sweep_ppn all_ppn
      pure 0

  -- `cfg` with the prefix of the flag, where there is one.
  unfoldable pub with_prefix : Config F → Config F
  with_prefix c = elim args.sample_prefix [ none ↦ c | some p ↦ record c { prefix = p } ]

  unfoldable pub main : Config F → Action ℕ
  main c = if not args.yes then pure 2 else sweep (with_prefix c)
