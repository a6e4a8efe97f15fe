-- ===== src/Tests/Transfer/Config.antt =====
-- The theorems on the settings and the sizing at concrete inputs.
use solutions_library.Prelude.{ℕ, ◌+◌, ◌*◌, ◌≤◌, ◌≡◌, refl, false, some, arith}
use solutions_library.Prelude.Int.{pos, ◌*ℤ◌, ◌+ℤ◌, ◌-ℤ◌, max_ℤ, min_ℤ, neg_ℤ, floor_div}
use solutions_library.Prelude.Text.{codes}
use solutions_library.Prelude.Lines.{rstrip}
use solutions_library.Transfer.Shard.{lstrip}
use solutions_library.Transfer.Config.{effective_num_pods, effective_pods_per_node}
use solutions_library.Transfer.Config.Pods.{IsShare, effective_pods_per_node-IsShare}
use solutions_library.Transfer.Sizing.{
  Sizing, cpu_request, compute_sizing, streams_for, checkers_for, ceil_div, transfers_for,
  mem_request, size_unit, parse_size_to_bytes,
}
use solutions_library.Transfer.Sizing.Bounds.{IsFeasible, compute_sizing-IsFeasible, cpu_request-le}
use solutions_library.Tests.Transfer.Samples.{settings, floats, str_of}

pub two_pods : effective_num_pods settings ≡ pos 2
unfolding effective_num_pods ◌*ℤ◌ max_ℤ
two_pods = refl

effective_pods_per_node-IsShare_example :
    (q : ℕ) × ((effective_pods_per_node settings ≡ some (pos q)) × IsShare 2 1 q)
effective_pods_per_node-IsShare_example = effective_pods_per_node-IsShare settings 0 2 refl two_pods

abbrev pub sizing : Sizing ℕ
sizing = record {
  target_gbps = 8;
  num_nodes = pos 1;
  pods_per_node = pos 2;
  total_pods = pos 2;
  rtt_ms = 2000;
  per_stream_mbps = 400;
  nic_gbps = pos 200;
  vcpu = pos 80;
  ram_gib = pos 676;
  per_node_gbps = 8;
  per_node_gbps_capped = 0;
  bdp_bytes_per_node = 50000000000;
  streams_needed_per_node = pos 1;
  per_pod_streams = pos 1;
  transfers = pos 1;
  multi_thread_streams = pos 4;
  checkers = pos 2;
  checkers_explicit = false;
  in_flight_per_pod = pos 4;
  in_flight_per_node = pos 8;
  worker_cpu_request = str_of 36;
  worker_mem_request = codes "11111111Gi";
  est_mem_gib_per_pod = 0;
  est_mem_gib_per_node = 0;
}

pub sized : compute_sizing floats settings ≡ some sizing
unfolding compute_sizing effective_num_pods effective_pods_per_node ◌*ℤ◌ ◌+ℤ◌ ◌-ℤ◌ max_ℤ min_ℤ neg_ℤ
    floor_div streams_for checkers_for ceil_div transfers_for cpu_request mem_request size_unit
    parse_size_to_bytes rstrip lstrip
sized = refl

compute_sizing-IsFeasible_example : IsFeasible floats settings sizing
compute_sizing-IsFeasible_example = compute_sizing-IsFeasible floats settings sizing sized

cpu_request-le_example :
    (q : ℕ) × (cpu_request floats settings (pos 2) ≡ some (str_of q)) × (2 * q + 8 ≤ 80)
cpu_request-le_example = cpu_request-le floats settings 80 1 refl refl (omega arith)
