-- ===== src/Transfer/Kubectl.antt =====
-- cmk-data-transfer/orchestrator/k8s.py: the calls of `kubectl`. A call is a value of `Call`; the
-- flags that are always the same are left out of it, and so is the namespace, which is one for the
-- whole program. The cluster answers by the number of the call. Files that are written are calls
-- too, and always succeed. A program `kubectl` that is missing, or whose answer is no JSON of the
-- usual form, is left out. `write_row` is a row of a CSV file.
use solutions_library.Prelude.{
  ℕ, Bool, false, none, some, List, [], ◌∷◌, ◌++◌, if◌then◌else◌, not, ◌&&◌, length,
}
use solutions_library.Prelude.Text.{Text, codes, text_eq}
use solutions_library.Prelude.Dict.{Dict, lookup, insert}
use solutions_library.Prelude.Json.{Json}
use solutions_library.Prelude.Calls.{ok, raised, Run, pure, ◌>>=◌}

pub data Call : Type 0 where
  get_version : Call
  get_nodes : Text → Call
  get_storage_class : Text → Call
  get_pods : Text → Call
  get_pod : Text → Call
  apply : Json → Call
  apply_cluster : Json → Call
  wait_ready : Text → Call
  exec : Text → List Text → Call
  cp_to : Text → Text → Text → Call
  logs : Text → Call
  delete_pods : Text → Text → Call
  write_file : Text → Text → Call
  write_generated : Text → Json → Call
  write_row : Text → List Text → Call

-- What the answers of the cluster say of a node and of a pod.
pub record Node : Type 0 where
  pub name : Text
  pub conditions : List (Text × Text)
  pub unschedulable : Bool

pub record Pod : Type 0 where
  pub name : Text
  pub phase : Text

pub record Cluster : Type 0 where
  pub succeeds : ℕ → Call → Bool
  pub nodes : ℕ → List Node
  pub pods : ℕ → List Pod
  pub output : ℕ → List Text

-- How the program can fail: `sys.exit`, or an exception.
pub data Failure : Type 0 where
  exits : ℕ → Failure
  called_process_error value_error index_error arithmetic_error : Failure

abbrev pub Action : Type 0 → Type 0
Action A = Run Call Failure A

-- `{c["type"]: c["status"] for c in conditions}`
unfoldable pub status_by_type : List (Text × Text) → Dict Text → Dict Text
status_by_type [] conds = conds
status_by_type ((type, status) ∷ conditions) conds =
    status_by_type conditions (insert type status conds)

unfoldable pub is_ready : Node → Bool
is_ready n = elim (lookup (codes "Ready") (status_by_type n.conditions [])) [
  | none ↦ false
  | some status ↦ text_eq status (codes "True") && not n.unschedulable
]

unfoldable pub ready_names : List Node → List Text
ready_names [] = []
ready_names (n ∷ nodes) = let rest = ready_names nodes in if is_ready n then n.name ∷ rest else rest

module _ (cluster : Cluster) where
  -- `subprocess.run(...)`, which gives the number of the call and whether it succeeded.
  unfoldable pub call : Call → Action (ℕ × Bool)
  call c calls = (calls ++ (c ∷ []), ok (length calls, cluster.succeeds (length calls) c))

  -- `subprocess.run(..., check=True)`, which gives the number of the call.
  unfoldable pub checked : Call → Action ℕ
  checked c calls = (
    calls ++ (c ∷ []),
    (if cluster.succeeds (length calls) c then ok (length calls) else raised called_process_error),
  )

  -- `exists` for the kind `pod`.
  unfoldable pub exists : Text → Action Bool
  exists pod = do (k, found) ← call (get_pod pod); pure found

  unfoldable pub cluster_exists : Text → Action Bool
  cluster_exists storage_class = do (k, found) ← call (get_storage_class storage_class); pure found

  unfoldable pub list_ready_nodes : Text → Action (List Text)
  list_ready_nodes instance_class = do
    k ← checked (get_nodes instance_class)
    pure (ready_names (cluster.nodes k))

  -- A call that `dry_run` leaves out.
  unfoldable pub mutate : Bool → Call → Action (Unit {0})
  mutate dry_run c = if dry_run then pure tt else (checked c >>= λ k. pure tt)

  -- The call of `delete` does not mind how it ends.
  unfoldable pub delete : Bool → Text → Text → Action (Unit {0})
  delete dry_run name selector =
      if dry_run then pure tt else (call (delete_pods name selector) >>= λ k. pure tt)

  -- The lines of the output of a command in a pod.
  unfoldable pub exec_in : Bool → Text → List Text → Action (List Text)
  exec_in dry_run pod argv =
      if dry_run then pure [] else (checked (exec pod argv) >>= λ k. pure (cluster.output k))
