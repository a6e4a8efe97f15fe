-- ===== src/Tests/Transfer/Completes.antt =====
-- A transfer at concrete inputs, by its evaluation and by the theorem on runs that go well.
use solutions_library.Prelude.{◌≡◌, refl, true, false, none, [], is_nil, select, length, arith}
use solutions_library.Prelude.Text.{text_eq}
use solutions_library.Prelude.Lines.{rstrip}
use solutions_library.Prelude.Dict.{insert, lookup}
use solutions_library.Prelude.Calls.{ok}
use solutions_library.Prelude.Sort.{sorted, insert_sorted}
use solutions_library.Prelude.Int.{◌*ℤ◌, ◌+ℤ◌, ◌-ℤ◌, max_ℤ, min_ℤ, neg_ℤ, floor_div}
use solutions_library.Transfer.Config.{
  validate, is_known_mode, is_import, is_nfs, effective_num_pods, effective_pods_per_node,
}
use solutions_library.Transfer.Sizing.{
  compute_sizing, streams_for, checkers_for, ceil_div, transfers_for, cpu_request, mem_request,
  size_unit, parse_size_to_bytes,
}
use solutions_library.Transfer.Kubectl.{
  call, checked, mutate, list_ready_nodes, ready_names, is_ready, status_by_type, cluster_exists,
  exec_in, delete,
}
use solutions_library.Transfer.Shard.{
  lstrip, parse_tsv, parse_line, size_and_path, partition, bin_pack, pack_loop, object_le, text_le,
  slot_le, empty_slots, append_at, write_shards, path_join, content,
}
use solutions_library.Transfer.Run.{
  preflight, list_source, shard_locally, shard_listing, push_packed, write_all, push_all,
  launch_workers, launch_from, launch_on, slice_to, monitor, watch, is_running, report_failures,
  teardown,
}
use solutions_library.Transfer.Run.Main.{main, run_with, run_sized, prepare, apply_pv, launch}
use solutions_library.Tests.Transfer.Samples.{settings, world, flags}
use solutions_library.Transfer.Run.Ready.{GoesWell}
use solutions_library.Transfer.Run.Completes.{main-ok}
use solutions_library.Tests.Transfer.Config.{two_pods, sizing, sized}

-- A whole run: the two workers fail, and are removed.
whole : (main (world none) settings (flags false true) []).1 ≡ ok 0
unfolding main run_with run_sized validate is_known_mode is_import is_nfs compute_sizing
    effective_num_pods effective_pods_per_node ◌*ℤ◌ ◌+ℤ◌ ◌-ℤ◌ max_ℤ min_ℤ neg_ℤ floor_div
    streams_for checkers_for ceil_div transfers_for cpu_request mem_request size_unit
    parse_size_to_bytes rstrip lstrip text_eq prepare preflight call checked mutate list_ready_nodes
    ready_names is_ready status_by_type insert lookup cluster_exists apply_pv list_source exec_in
    shard_locally shard_listing parse_tsv parse_line size_and_path partition bin_pack pack_loop
    sorted insert_sorted object_le text_le slot_le empty_slots append_at push_packed write_all
    push_all write_shards path_join content launch launch_workers launch_from launch_on slice_to
    monitor watch is_running report_failures teardown delete
whole = refl

two_ready : length (ready_names ((world none).cluster.nodes 0)) ≡ 2
unfolding ready_names is_ready status_by_type lookup text_eq insert
two_ready = refl

two_objects : is_nil (parse_tsv (world none).python ((world none).cluster.output 0)) ≡ false
unfolding parse_tsv parse_line size_and_path partition rstrip lstrip
two_objects = refl

all_ended : is_nil (select is_running ((world none).cluster.pods 0)) ≡ true
unfolding is_running text_eq
all_ended = refl

accepted : is_nil (validate (world none).not_above_zero true settings) ≡ true
unfolding validate is_known_mode is_import is_nfs text_eq effective_num_pods ◌*ℤ◌ max_ℤ
accepted = refl

goes_well : GoesWell (world none) settings 0 1 0
goes_well = record {
  succeeds = λ k x. refl;
  some_nodes = refl;
  enough = λ k. omega (arith, two_ready);
  some_pods = two_pods;
  objects = λ k. two_objects;
  ended = λ k h. all_ended;
  patient = omega arith;
}

main-ok_example : (main (world none) settings (flags false true) []).1 ≡ ok 0
main-ok_example =
    main-ok (world none) settings (flags false true) sizing 0 1 0 goes_well accepted sized refl
