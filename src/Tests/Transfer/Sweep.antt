-- ===== src/Tests/Transfer/Sweep.antt =====
-- The theorems on bench/ at concrete inputs.
use solutions_library.Prelude.{
  ℕ, ◌+◌, ◌≡◌, refl, true, false, none, some, List, [], ◌∷◌, map, leb, max, arith,
}
use solutions_library.Prelude.Text.{Text, codes, text_eq, split_first}
use solutions_library.Prelude.Lines.{rstrip}
use solutions_library.Prelude.Int.{pos, pos_part, ◌*ℤ◌, ◌+ℤ◌, ◌-ℤ◌, max_ℤ, min_ℤ, neg_ℤ, floor_div}
use solutions_library.Prelude.Sort.{sorted, insert_sorted}
use solutions_library.Prelude.Calls.{ok}
use solutions_library.Prelude.Calls.Yields.{Gives}
use solutions_library.Transfer.Config.{Config, effective_num_pods, effective_pods_per_node}
use solutions_library.Transfer.Sizing.{
  compute_sizing, streams_for, checkers_for, ceil_div, transfers_for, cpu_request, mem_request,
  size_unit, parse_size_to_bytes,
}
use solutions_library.Transfer.Shard.{
  Object, lstrip, packed, bin_pack, pack_loop, object_le, slot_le, text_le, empty_slots, append_at,
  parse_tsv, parse_line, size_and_path, partition, write_shards, path_join, content,
}
use solutions_library.Transfer.Manifests.Pods.{worker_pod}
use solutions_library.Transfer.Collect.{
  Meter, collect, reading, collect_loop, collect_pods, sample_pods, pod_stats, write_sample,
  rc_port, port_in, is_over,
}
use solutions_library.Transfer.Kubectl.{apply, mutate, checked, exists, call, exec_in, delete}
use solutions_library.Transfer.Run.{printer, write_all, push_all, is_running}
use solutions_library.Transfer.Collect.Ended.{collect-ok}
use solutions_library.Transfer.Grid.{point, grid, numbers, floats_of}
use solutions_library.Transfer.Sweep.{
  SweepArgs, main, sweep, with_prefix, ensure_base, make_master, list_sample, sweep_ppn, reshard,
  replace_shards, sweep_mts, sweep_transfers, run_point, measure, apply_workers, start_workers,
}
use solutions_library.Transfer.Sweep.Fleet.{IsRunning, IsAllowed}
use solutions_library.Transfer.Sweep.Removed.{main-IsAllowed}
use solutions_library.Transfer.Sweep.Shards.{range, start_workers-bins}
use solutions_library.Tests.Transfer.Samples.{settings, world, floats, cluster, str_of}
use solutions_library.Tests.Transfer.Config.{sizing}

abbrev meter : Meter ℕ
meter = record {
  zero_float = 0;
  add = λ a b. a + b;
  max_of = λ a b. max a b;
  float_le = λ a b. leb a b;
  to_giga = λ a. a;
  show = λ n a. str_of a;
  show_int = λ n. str_of (pos_part n);
  clock = λ k. k;
  second = 3;
  elapsed_text = λ t0 now. str_of now;
  env_of = λ name. ((codes "RC_PORT", codes "5573") ∷ []) ∷ [];
  stats = λ k. some (record { speed = 2; bytes = pos 7; transfers = pos 1; errors = pos 0 });
}

-- Two pods per node, and one point.
abbrev sweep_args : SweepArgs
sweep_args = record {
  transfers_grid = codes "1";
  mts_grid = codes "1,";
  pods_per_node_grid = codes "11";
  sample_prefix = some (codes "small/");
  max_seconds = pos 2;
  out = codes "r.csv";
  do_list = true;
  yes = true;
}

main-IsAllowed_example :
    Gives (λ code. IsRunning false) IsAllowed (main (world none) meter sweep_args settings [])
main-IsAllowed_example = main-IsAllowed (world none) meter sweep_args settings

-- The whole sweep: one point, whose two workers are measured once.
whole_sweep : (main (world none) meter sweep_args settings []).1 ≡ ok 0
unfolding main sweep with_prefix ensure_base mutate checked exists call make_master list_sample
    exec_in grid numbers rstrip lstrip split_first sweep_ppn reshard replace_shards write_all
    push_all write_shards path_join content sweep_mts sweep_transfers run_point point measure
    apply_workers start_workers collect reading collect_loop collect_pods sample_pods pod_stats
    write_sample rc_port port_in is_over is_running floats_of delete text_eq bin_pack pack_loop
    sorted insert_sorted object_le slot_le text_le empty_slots append_at parse_tsv parse_line
    size_and_path partition compute_sizing effective_num_pods effective_pods_per_node ◌*ℤ◌ ◌+ℤ◌ ◌-ℤ◌
    max_ℤ min_ℤ neg_ℤ floor_div streams_for checkers_for ceil_div transfers_for cpu_request
    mem_request size_unit parse_size_to_bytes
whole_sweep = refl

collect-ok_example :
    (cells : List Text) × ((collect cluster meter 7 (codes "t.csv") (pos 2) []).1 ≡ ok cells)
collect-ok_example =
    collect-ok cluster meter (codes "t.csv") 1 7 (λ k selector. refl) (λ k. omega arith)
      (omega arith)

abbrev objects : List Object
objects = (pos 3, codes "a") ∷ (pos 2, codes "b") ∷ (pos 2, codes "c") ∷ []

abbrev bins : List (List Text)
bins = (codes "a" ∷ []) ∷ (codes "b" ∷ codes "c" ∷ []) ∷ []

divided : bin_pack objects (settings.num_nodes *ℤ pos 2) ≡ packed bins (pos 3 ∷ pos 4 ∷ [])
unfolding bin_pack pack_loop sorted insert_sorted object_le slot_le text_le empty_slots append_at
    ◌*ℤ◌ ◌+ℤ◌
divided = refl

abbrev small : Config ℕ
small = point settings (pos 1) (pos 4) (pos 2) (codes "/d")

sized : compute_sizing floats small ≡ some sizing
unfolding point compute_sizing effective_num_pods effective_pods_per_node ◌*ℤ◌ ◌+ℤ◌ ◌-ℤ◌ max_ℤ min_ℤ
    neg_ℤ floor_div streams_for checkers_for ceil_div transfers_for cpu_request mem_request
    size_unit parse_size_to_bytes rstrip lstrip
sized = refl

start_workers-bins_example : start_workers (world none) meter sweep_args small sizing [] ≡ (
  map (λ i. apply (worker_pod (printer (world none) small) small sizing [] i)) (range 0 2),
  ok tt,
)
start_workers-bins_example =
    start_workers-bins (world none) meter sweep_args settings 0 (pos 1) (pos 4) (pos 2) (codes "/d")
      sizing objects bins (pos 3 ∷ pos 4 ∷ []) [] (λ k x. refl) refl divided sized
