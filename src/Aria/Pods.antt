-- ===== src/Aria/Pods.antt =====
-- aria2c-download.py: the calls of `kubectl`, in their order, and the program. The flags of a call
-- that are always the same are left out of it, as is the pause of three seconds in `main`.
use solutions_library.Prelude.{
  ℕ, zero, suc, ◌*◌, ◌%◌, min, Bool, Option, none, some, List, [], ◌∷◌, ◌++◌, if◌then◌else◌, not,
  ◌||◌, is_nil, length, get_or, select,
}
use solutions_library.Prelude.Calls.{ok, raised, Run, pure, raise, out_of_fuel, ◌>>=◌}
use solutions_library.Prelude.Text.{Text, codes, text_eq}
use solutions_library.Prelude.Dict.{Dict}
use solutions_library.Prelude.Json.{Json}
use solutions_library.Prelude.Sort.{sorted}
use solutions_library.Transfer.Shard.{text_le}
use solutions_library.Aria.Manifests.{shard_dir, master_pod, overrides}
use solutions_library.Aria.{Runtime, split_entries, parse_aria2c_entries}

pub data Call : Type 0 where
  apply : Json → Call
  wait_ready list_nodes list_pods delete_workers delete_master : Call
  make_dir : Text → Call
  copy : Text → Text → Call
  run_worker : Text → Json → Call
  pod_logs : Text → Call

-- The name and the phase of a pod.
abbrev pub Pod : Type 0
Pod = Text × Text

-- How the cluster answers, by the number of the call: whether it succeeds, the words and the pods
-- that it prints, and whether its complaint says `not found`.
pub record Cluster : Type 0 where
  pub succeeds : ℕ → Call → Bool
  pub node_names : ℕ → List Text
  pub pods : ℕ → List Pod
  pub not_found : ℕ → Bool

pub data Failure : Type 0 where
  called_process_error system_exit zero_division_error : Failure

abbrev pub Action : Type 0 → Type 0
Action A = Run Call Failure A

-- `p["status"]["phase"] in ("Succeeded", "Failed")`
unfoldable pub has_ended : Pod → Bool
has_ended (name, phase) = text_eq phase (codes "Succeeded") || text_eq phase (codes "Failed")

-- The logs of the pods that failed, whatever becomes of the call.
unfoldable pub log_failures : List Pod → List Call → List Call
log_failures [] calls = calls
log_failures ((name, phase) ∷ pods) calls =
    log_failures pods
      (if text_eq phase (codes "Failed") then calls ++ (pod_logs name ∷ []) else calls)

module _ (cluster : Cluster) where
  -- `subprocess.run([...], check=True)`, which gives the number of the call.
  unfoldable pub checked : Call → Action ℕ
  checked c calls = (
    calls ++ (c ∷ []),
    (if cluster.succeeds (length calls) c then ok (length calls) else raised called_process_error),
  )

  unfoldable pub copy_shards : Dict Text → Action (Unit {0})
  copy_shards [] = pure tt
  copy_shards ((filename, content) ∷ shards) = do
    k ← checked (copy content (shard_dir ++ (codes "/" ++ filename)))
    copy_shards shards

  unfoldable pub create_master_pod_and_copy_shards : Dict Text → Action (Unit {0})
  create_master_pod_and_copy_shards shards = do
    k ← checked (apply master_pod)
    k ← checked wait_ready
    k ← checked (make_dir shard_dir)
    copy_shards shards

  -- The body of the loop behind its k-th call, with the polls that follow: the pauses that were
  -- made, and the pods of the last poll.
  unfoldable pub wait_round : ℕ → Action (List ℕ × List Pod) → ℕ → Action (List ℕ × List Pod)
  wait_round backoff rest k =
      let pods = cluster.pods k in
      if is_nil (select (λ p. not (has_ended p)) pods)
      then pure ([], pods)
      else (rest >>= λ (pauses, last). pure (backoff ∷ pauses, last))

  unfoldable pub wait_loop : ℕ → ℕ → Action (List ℕ × List Pod)
  wait_loop zero backoff = out_of_fuel
  wait_loop (suc f) backoff =
      checked list_pods >>= wait_round backoff (wait_loop f (min (backoff * 2) 60))

  unfoldable pub wait_for_pods_completion : ℕ → ℕ → Action (List ℕ)
  wait_for_pods_completion fuel poll_interval =
      wait_loop fuel poll_interval >>= λ (pauses, pods) calls. (log_failures pods calls, ok pauses)

  unfoldable pub delete_worker_pods : Action ℕ
  delete_worker_pods = checked delete_workers

  unfoldable pub delete_master_pod : Action (Unit {0})
  delete_master_pod calls = (
    calls ++ (delete_master ∷ []),
    (if cluster.succeeds (length calls) delete_master || cluster.not_found (length calls)
        then ok tt
        else raised called_process_error),
  )

module _ (rt : Runtime) (cluster : Cluster) where
  -- The loop over `range(i, i + n)`.
  unfoldable pub launch_loop : List Text → ℕ → ℕ → Action (Unit {0})
  launch_loop nodes i zero = pure tt
  launch_loop nodes i (suc n) = do
    k ← checked cluster (
        run_worker (codes "aria2c-worker-" ++ rt.str_of i)
          (overrides rt i (get_or nodes (i % length nodes) [])))
    launch_loop nodes (suc i) n

  -- The launch on the nodes that were listed.
  unfoldable pub launch_pinned : List Text → ℕ → Action (Unit {0})
  launch_pinned nodes num_pods =
      if is_nil nodes then raise system_exit else launch_loop nodes 0 num_pods

  unfoldable pub launch_worker_pods : ℕ → Action (Unit {0})
  launch_worker_pods num_pods = do
    k ← checked cluster list_nodes
    launch_pinned (sorted text_le (cluster.node_names k)) num_pods

  -- The calls on a list of entries, for the number of pods and the bound of polls.
  unfoldable pub transfer : ℕ → ℕ → Dict Text → Action ℕ
  transfer fuel num_pods shards = do
    u ← create_master_pod_and_copy_shards cluster shards
    u ← launch_worker_pods num_pods
    pauses ← wait_for_pods_completion cluster fuel 15
    u ← delete_master_pod cluster
    delete_worker_pods cluster

  -- The argument is the lines of the file of downloads, if it exists.
  unfoldable pub main : ℕ → ℕ → Option (List Text) → Action ℕ
  main fuel num_pods none = raise system_exit
  main fuel num_pods (some raws) =
      let entries = parse_aria2c_entries rt.is_space raws in
      if is_nil entries then raise system_exit else (elim (split_entries rt entries num_pods) [
        | none ↦ raise zero_division_error
        | some shards ↦ transfer fuel num_pods shards
      ])
