-- ===== src/Transfer/Collect.antt =====
-- cmk-data-transfer/bench/collect.py: the rounds in which the throughput of the workers is read.
-- The file that is opened for writing is a call that writes it empty. The peak and the median that
-- are printed at the end are left out.
pub mod Keeps
pub mod Ended
use solutions_library.Prelude.{
  ℕ, zero, suc, ◌+◌, ◌*◌, Bool, true, false, Option, none, some, List, [], ◌∷◌, ◌++◌, if◌then◌else◌,
  not, ◌&&◌, leb, is_nil, length, select,
}
use solutions_library.Prelude.Text.{Text, codes, text_eq}
use solutions_library.Prelude.Int.{ℤ, pos, negsuc}
use solutions_library.Prelude.Calls.{ok, pure, out_of_fuel, ◌>>=◌}
use solutions_library.Transfer.Manifests.{worker_label}
use solutions_library.Transfer.Kubectl.{
  Action, Cluster, Pod, get_pods, exec, write_file, write_row, call, checked,
}
use solutions_library.Transfer.Run.{is_running}

-- The numbers that `core/stats` of rclone gives.
pub record Stats (F : Type 0) : Type 0 where
  pub speed : F
  pub bytes : ℤ
  pub transfers : ℤ
  pub errors : ℤ

-- What the collector takes from Python and from the answers: floats, where `show n` prints with `n`
-- digits; the reading of the clock in ticks when so many calls have been made, the ticks in a
-- second and the text of the time between two readings; the variables of the containers of a pod,
-- by its name; and the object that a call printed, `none` where it is no JSON.
pub record Meter (F : Type 0) : Type 0 where
  pub zero_float : F
  pub add : F → F → F
  pub max_of : F → F → F
  pub float_le : F → F → Bool
  pub to_giga : F → F
  pub show : ℕ → F → Text
  pub show_int : ℤ → Text
  pub clock : ℕ → ℕ
  pub second : ℕ
  pub elapsed_text : ℕ → ℕ → Text
  pub env_of : Text → List (List (Text × Text))
  pub stats : ℕ → Option (Stats F)

-- The port in the variables of one container.
unfoldable pub port_in : List (Text × Text) → Option Text
port_in [] = none
port_in ((name, value) ∷ env) =
    if text_eq name (codes "RC_PORT") && not (is_nil value) then some value else port_in env

unfoldable pub rc_port : List (List (Text × Text)) → Text
rc_port [] = codes "5572"
rc_port (env ∷ containers) = elim (port_in env) [ some value ↦ value | none ↦ rc_port containers ]

module _ {F : Type 0} (cluster : Cluster) (m : Meter F) where
  -- `time.time()`
  unfoldable pub reading : Action ℕ
  reading calls = (calls, ok (m.clock (length calls)))

  unfoldable pub pod_stats : Text → Text → Action (Option (Stats F))
  pod_stats pod port = do
    (k, reached) ← call cluster (
        exec pod (
          codes "rclone"
          ∷ codes "rc"
          ∷ codes "core/stats"
          ∷ codes "--rc-addr"
          ∷ (codes "localhost:" ++ port)
          ∷ []))
    pure (if reached then m.stats k else none)

  -- The pods that answer, and the sum of their speeds.
  unfoldable pub sample_pods : List Pod → F → Action (F × List (Text × Stats F))
  sample_pods [] aggr = pure (aggr, [])
  sample_pods (p ∷ pods) aggr = pod_stats p.name (rc_port (m.env_of p.name)) >>= λ st. elim st [
    | none ↦ sample_pods pods aggr
    | some s ↦ (sample_pods pods (m.add aggr s.speed) >>= λ r. pure (r.0, (p.name, s) ∷ r.1))
  ]

  -- The rows of a round, with the cells of their last column.
  unfoldable pub write_sample : Text → Text → Text → List (Text × Stats F) → Action (List Text)
  write_sample out elapsed aggr [] = pure []
  write_sample out elapsed aggr ((name, s) ∷ sample) = do
    wrote ← call cluster (
        write_row out (
          elapsed
          ∷ name
          ∷ m.show_int s.bytes
          ∷ m.show 0 s.speed
          ∷ m.show_int s.transfers
          ∷ m.show_int s.errors
          ∷ aggr
          ∷ []))
    cells ← write_sample out elapsed aggr sample
    pure (aggr ∷ cells)

  -- `args.max_seconds and elapsed >= args.max_seconds`
  unfoldable pub is_over : ℤ → ℕ → ℕ → Bool
  is_over (pos zero) t0 now = false
  is_over (pos n) t0 now = leb (t0 + n * m.second) now
  is_over (negsuc n) t0 now = true

  -- What a round with pods comes to: the cells of its rows.
  unfoldable pub collect_pods : Text → ℕ → ℕ → List Pod → Action (List Text)
  collect_pods out t0 now pods = do
    (aggr, sample) ← sample_pods pods m.zero_float
    write_sample out (m.elapsed_text t0 now) (m.show 3 (m.to_giga aggr)) sample

  unfoldable pub collect_loop : Text → ℤ → ℕ → ℕ → Action (List Text)
  collect_loop out max_seconds t0 zero = out_of_fuel
  collect_loop out max_seconds t0 (suc n) = do
    now ← reading
    k ← checked cluster (get_pods (codes "app=" ++ worker_label))
    let pods = cluster.pods k
    if is_nil pods then pure [] else (do
      cells ← collect_pods out t0 now pods
      if is_nil (select is_running pods)
          then pure cells
          else if is_over max_seconds t0 now
          then pure cells
          else (collect_loop out max_seconds t0 n >>= λ rest. pure (cells ++ rest)))

  abbrev pub header : List Text
  header =
      codes "elapsed_s"
      ∷ codes "pod"
      ∷ codes "bytes"
      ∷ codes "speed_Bps"
      ∷ codes "transfers"
      ∷ codes "errors"
      ∷ codes "aggregate_GBps"
      ∷ []

  -- `collect.main`, with the last column of the file that it writes; `rounds` bounds its rounds.
  unfoldable pub collect : ℕ → Text → ℤ → Action (List Text)
  collect rounds out max_seconds = do
    t0 ← reading
    opened ← call cluster (write_file out [])
    wrote ← call cluster (write_row out header)
    collect_loop out max_seconds t0 rounds
