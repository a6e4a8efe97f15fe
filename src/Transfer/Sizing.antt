-- ===== src/Transfer/Sizing.antt =====
-- cmk-data-transfer/orchestrator/sizing.py: how many streams, transfers and resources a pod gets.
-- Python's floats are a parameter. `none` stands for the exceptions of the arithmetic: a division
-- by zero, the rounding of an infinite number, a text that is no number. `explain` only prints.
pub mod Bounds
use solutions_library.Prelude.{
  ℕ, zero, suc, ◌==◌, Bool, Option, none, some, is_some, [], ◌∷◌, ◌++◌, if◌then◌else◌, is_nil,
}
use solutions_library.Prelude.Text.{Text, codes}
use solutions_library.Prelude.Lines.{rstrip}
use solutions_library.Prelude.Options.{◌>>=◌}
use solutions_library.Prelude.Int.{ℤ, pos, negsuc, max_ℤ, min_ℤ, floor_div, ◌*ℤ◌, ◌+ℤ◌, ◌-ℤ◌}
use solutions_library.Transfer.Shard.{lstrip}
use solutions_library.Transfer.Config.{Config, effective_num_pods, effective_pods_per_node}

-- Floats with their operations, and what else the code uses of Python: `ratio m n` is the literal
-- of the decimal fraction m/n, `ceil` is `math.ceil`, and `int_of_float` is `int`.
pub record Floats (F : Type 0) : Type 0 where
  pub of_int : ℤ → F
  pub ratio : ℕ → ℕ → F
  pub mul : F → F → F
  pub min_of : F → F → F
  pub div : F → F → Option F
  pub ceil : F → Option ℤ
  pub int_of_float : F → Option ℤ
  pub float_of : Text → Option F
  pub str_of : ℕ → Text
  pub is_space : ℕ → Bool
  pub upper : Text → Text

-- `str` of an integer
abbrev pub str_ℤ : (ℕ → Text) → ℤ → Text
str_ℤ str_of (pos n) = str_of n
str_ℤ str_of (negsuc n) = b'-' ∷ str_of (suc n)

pub record Sizing (F : Type 0) : Type 0 where
  pub target_gbps : F
  pub num_nodes : ℤ
  pub pods_per_node : ℤ
  pub total_pods : ℤ
  pub rtt_ms : F
  pub per_stream_mbps : F
  pub nic_gbps : ℤ
  pub vcpu : ℤ
  pub ram_gib : ℤ
  pub per_node_gbps : F
  pub per_node_gbps_capped : F
  pub bdp_bytes_per_node : F
  pub streams_needed_per_node : ℤ
  pub per_pod_streams : ℤ
  pub transfers : ℤ
  pub multi_thread_streams : ℤ
  pub checkers : ℤ
  pub checkers_explicit : Bool
  pub in_flight_per_pod : ℤ
  pub in_flight_per_node : ℤ
  pub worker_cpu_request : Text
  pub worker_mem_request : Text
  pub est_mem_gib_per_pod : F
  pub est_mem_gib_per_node : F

-- The unit at the end of a size, as a factor, and the text before it.
unfoldable pub size_unit : Text → ℤ × Text
size_unit [] = (pos 1, [])
size_unit (c ∷ []) =
    if c == b'K'
    then (pos 1024, [])
    else if c == b'M'
    then (pos 1048576, [])
    else if c == b'G'
    then (pos 1073741824, [])
    else (pos 1, c ∷ [])
size_unit (c ∷ d ∷ s) = let (mult, rest) = size_unit (d ∷ s) in (mult, c ∷ rest)

unfoldable pub streams_for : Option ℤ → ℤ → ℤ
streams_for (some n) per_pod_streams = n
streams_for none per_pod_streams = min_ℤ (pos 8) (max_ℤ (pos 4) per_pod_streams)

unfoldable pub checkers_for : Option ℤ → ℤ → ℤ
checkers_for (some n) transfers = n
checkers_for none transfers = min_ℤ (pos 2 *ℤ transfers) (pos 256)

module _ {F : Type 0} (fl : Floats F) where
  open fl use {
    of_int, ratio, mul, min_of, div, ceil, int_of_float, float_of, str_of, is_space, upper,
  }

  unfoldable pub parse_size_to_bytes : Text → Option ℤ
  parse_size_to_bytes s =
      let (mult, digits) =
        size_unit (rstrip (λ c. c == b'B') (upper (rstrip is_space (lstrip is_space s)))) in
      do number ← float_of digits; int_of_float (mul number (of_int mult))

  -- `math.ceil(a / b)` of two integers
  unfoldable pub ceil_div : ℤ → ℤ → Option ℤ
  ceil_div a b = do q ← div (of_int a) (of_int b); ceil q

  unfoldable pub transfers_for : Config F → ℤ → ℤ → ℤ → Option ℤ
  transfers_for c per_pod_streams mts pods_per_node = elim c.rclone_transfers [
    | some n ↦ some n
    | none ↦ do
      n ← ceil_div per_pod_streams mts
      cores ← floor_div c.node_vcpu pods_per_node
      some (min_ℤ (max_ℤ (pos 1) n) (pos 2 *ℤ max_ℤ (pos 1) cores))
  ]

  unfoldable pub cpu_request : Config F → ℤ → Option Text
  cpu_request c pods_per_node =
      if is_nil c.worker_cpu_request
      then (do
        cores ← floor_div (c.node_vcpu -ℤ pos 8) pods_per_node
        some (str_ℤ str_of (max_ℤ (pos 1) cores)))
      else some c.worker_cpu_request

  unfoldable pub mem_request : Config F → F → Option Text
  mem_request c est_mem =
      if is_nil c.worker_mem_request
      then (do
        gib ← ceil (mul est_mem (ratio 15 10))
        some (str_ℤ str_of (max_ℤ (pos 8) gib) ++ codes "Gi"))
      else some c.worker_mem_request

  unfoldable pub compute_sizing : Config F → Option (Sizing F)
  compute_sizing c = do
    pods_per_node ← effective_pods_per_node c
    per_node_gbps ← div c.target_gbps (of_int c.num_nodes)
    nic_gbps_bytes ← div (of_int c.node_nic_gbps) (ratio 8 1)
    let capped = min_of per_node_gbps (mul (ratio 9 10) nic_gbps_bytes)
    rtt_s ← div c.rtt_ms (ratio 1000 1)
    nic_bytes ← div (mul (of_int c.node_nic_gbps) (ratio 1000000000 1)) (ratio 8 1)
    raw_streams ← div (mul (mul capped (of_int (pos 8))) (of_int (pos 1000))) c.per_stream_mbps
    needed ← ceil (mul raw_streams c.stream_safety)
    let streams_needed = max_ℤ (pos 1) needed
    pod_share ← ceil_div streams_needed pods_per_node
    let per_pod_streams = max_ℤ (pos 1) pod_share
    let mts = streams_for c.rclone_multi_thread_streams per_pod_streams
    transfers ← transfers_for c per_pod_streams mts pods_per_node
    let in_flight = transfers *ℤ mts
    chunk_b ← parse_size_to_bytes c.rclone_multi_thread_chunk_size
    buf_b ← parse_size_to_bytes c.rclone_buffer_size
    est_mem ← div (of_int (in_flight *ℤ chunk_b +ℤ transfers *ℤ buf_b)) (of_int (pos 1073741824))
    cpu_req ← cpu_request c pods_per_node
    mem_req ← mem_request c est_mem
    some (record {
      target_gbps = c.target_gbps;
      num_nodes = c.num_nodes;
      pods_per_node = pods_per_node;
      total_pods = effective_num_pods c;
      rtt_ms = c.rtt_ms;
      per_stream_mbps = c.per_stream_mbps;
      nic_gbps = c.node_nic_gbps;
      vcpu = c.node_vcpu;
      ram_gib = c.node_ram_gib;
      per_node_gbps = per_node_gbps;
      per_node_gbps_capped = capped;
      bdp_bytes_per_node = mul nic_bytes rtt_s;
      streams_needed_per_node = streams_needed;
      per_pod_streams = per_pod_streams;
      transfers = transfers;
      multi_thread_streams = mts;
      checkers = checkers_for c.rclone_checkers transfers;
      checkers_explicit = is_some c.rclone_checkers;
      in_flight_per_pod = in_flight;
      in_flight_per_node = in_flight *ℤ pods_per_node;
      worker_cpu_request = cpu_req;
      worker_mem_request = mem_req;
      est_mem_gib_per_pod = est_mem;
      est_mem_gib_per_node = mul est_mem (of_int pods_per_node);
    })
