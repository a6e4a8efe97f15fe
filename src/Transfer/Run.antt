-- ===== src/Transfer/Run.antt =====
-- cmk-data-transfer/orchestrator/run.py: the run of a transfer, from the checks of the cluster to
-- the removal of the pods. Printing is left out.
pub mod Main
pub mod Stages
pub mod Rules
pub mod Followed
pub mod Consent
pub mod Promises
pub mod Ends
pub mod Ready
pub mod Launched
pub mod Watched
pub mod Completes
use solutions_library.Prelude.{
  ℕ, zero, suc, ◌-◌, ◌%◌, Bool, false, Option, none, some, List, [], ◌∷◌, ◌++◌, if◌then◌else◌, not,
  ◌&&◌, ◌||◌, is_nil, length, take, get_elem?, select,
}
use solutions_library.Prelude.Text.{Text, codes, text_eq, split_first}
use solutions_library.Prelude.Lines.{rstrip}
use solutions_library.Prelude.Json.{Json, object}
use solutions_library.Prelude.Int.{ℤ, pos, negsuc, pos_part, leb_ℤ}
use solutions_library.Prelude.Sort.{sorted}
use solutions_library.Prelude.Calls.{pure, raise, out_of_fuel, ◌>>=◌, ◌>>◌}
use solutions_library.Transfer.Shard.{
  Python, lstrip, parse_tsv, text_le, Packed, packed, bin_pack, path_join, write_shards,
}
use solutions_library.Transfer.Config.{Config, effective_num_pods, remote_root, is_import, is_nfs}
use solutions_library.Transfer.Sizing.{Floats, Sizing}
use solutions_library.Transfer.RcloneConf.{build_s3_compat_conf}
use solutions_library.Transfer.Manifests.{entry, worker_label, storage_class, shard_dir}
use solutions_library.Transfer.Manifests.Pods.{Printer, worker_name, worker_pod}
use solutions_library.Transfer.Kubectl.{
  get_version, get_pods, apply, apply_cluster, cp_to, logs, write_file, Pod, Cluster, exits,
  value_error, index_error, arithmetic_error, Action, call, checked, cluster_exists,
  list_ready_nodes, mutate, delete, exec_in,
}

-- What the program finds around it: Python's floats and texts, the name of the temporary directory,
-- the answer of the user (`none` is the end of the input), and the cluster. `rounds` bounds the
-- rounds of the monitor.
pub record World (F : Type 0) : Type 0 where
  pub floats : Floats F
  pub not_above_zero : F → Bool
  pub python : Python
  pub split : Text → List Text
  pub lower : Text → Text
  pub b64encode : Text → Text
  pub run_dir : Text
  pub answer : Option Text
  pub cluster : Cluster
  pub rounds : ℕ

-- The flags of the command line that `main` reads.
pub record Args : Type 0 where
  pub dry_run : Bool
  pub yes : Bool
  pub keep : Bool

abbrev pub die : {A : Type 0} → Action A
die = raise (exits 1)

-- `xs[:n]`
unfoldable pub slice_to : ℤ → List Text → List Text
slice_to (pos n) xs = take n xs
slice_to (negsuc n) xs = take (length xs - suc n) xs

-- `os.path.basename`: what is behind the last slash.
unfoldable pub last_of : Text → List Text → Text
last_of p [] = p
last_of p (q ∷ ps) = last_of q ps

unfoldable pub basename : Text → Text
basename path = let (p, ps) = split_first b'/' path in last_of p ps

-- `p["status"]["phase"] not in ("Succeeded", "Failed")`
unfoldable pub is_running : Pod → Bool
is_running p = not (text_eq p.phase (codes "Succeeded") || text_eq p.phase (codes "Failed"))

module _ {F : Type 0} (w : World F) (c : Config F) where
  abbrev pub printer : Printer
  printer = record { str_of = w.python.str_of; split = w.split }

  unfoldable pub listing : Text
  listing = c.mount_root ++ codes "/listing.tsv"

  unfoldable pub confirm : Bool
  confirm = elim w.answer [
    | none ↦ false
    | some line ↦
        let is_space = w.python.is_space in
        let reply = w.lower (rstrip is_space (lstrip is_space line)) in
        text_eq reply (codes "y") || text_eq reply (codes "yes")
  ]

  unfoldable pub preflight : Bool → Action (Unit {0})
  preflight dry_run = do
    (k, reached) ← call w.cluster get_version
    tt ← if reached then pure tt else die
    nodes ← list_ready_nodes w.cluster c.instance_class
    if not (leb_ℤ c.num_nodes (pos (length nodes)))
        then die
        else if is_nfs c
        then pure tt
        else if is_import c
        then pure tt
        else (do
          found ← cluster_exists w.cluster c.storage_class
          if found
              then pure tt
              else mutate w.cluster dry_run (apply_cluster (storage_class c.storage_class)))

  -- The manifest of `create_secret_from_files` for the one file that there is.
  unfoldable pub secret : Json
  secret = object (
      entry (codes "apiVersion") (codes "v1")
      ∷ entry (codes "kind") (codes "Secret")
      ∷ (
        codes "metadata",
        object
            (entry (codes "name") c.secret_name ∷ entry (codes "namespace") c.k8s_namespace ∷ []),
      )
      ∷ entry (codes "type") (codes "Opaque")
      ∷ (
        codes "data",
        object (entry (codes "rclone.conf") (w.b64encode (build_s3_compat_conf c)) ∷ []),
      )
      ∷ [])

  unfoldable pub lsf : Text
  lsf =
      codes
        "SEP=$(printf '\\t'); rclone lsf --recursive --files-only --format sp --separator \"$SEP\" --config /config/rclone.conf "
      ++ (remote_root c ++ (codes " > " ++ (listing ++ (codes " && wc -l " ++ listing))))

  unfoldable pub list_source : Bool → Action (Unit {0})
  list_source dry_run = do
    out ← exec_in w.cluster dry_run c.master_pod_name (codes "/bin/sh" ∷ codes "-c" ∷ lsf ∷ [])
    pure tt

  unfoldable pub write_all : List (Text × Text) → Action (Unit {0})
  write_all [] = pure tt
  write_all ((path, content) ∷ files) = do
    wrote ← call w.cluster (write_file path content)
    write_all files

  unfoldable pub push_all : Bool → List (Text × Text) → Action (Unit {0})
  push_all dry_run [] = pure tt
  push_all dry_run ((path, content) ∷ files) = do
    tt ←
        mutate w.cluster dry_run
          (cp_to c.master_pod_name path (shard_dir c ++ (b'/' ∷ basename path)))
    push_all dry_run files

  -- What is done with the shards: their files are written, and then pushed.
  unfoldable pub push_packed : Bool → Packed → Action (Unit {0})
  push_packed dry_run Packed.value_error = raise value_error
  push_packed dry_run Packed.index_error = raise index_error
  push_packed dry_run (packed bins sizes) =
      let files = write_shards w.python 0 bins (path_join w.run_dir (codes "shards")) in
      write_all files >> push_all dry_run files

  -- The split of a listing that was read.
  unfoldable pub shard_listing : Bool → List Text → Action (Unit {0})
  shard_listing dry_run lines =
      let objects = parse_tsv w.python lines in
      if is_nil objects then die else push_packed dry_run (bin_pack objects (effective_num_pods c))

  unfoldable pub shard_locally : Bool → Action (Unit {0})
  shard_locally dry_run = if dry_run then pure tt else (do
    lines ← exec_in w.cluster dry_run c.master_pod_name (codes "cat" ∷ listing ∷ [])
    shard_listing dry_run lines)

  -- The pod of the index, on the node of its turn, by its name.
  unfoldable pub launch_on : Bool → Sizing F → Option Text → ℕ → Action Text
  launch_on dry_run z none i = raise arithmetic_error
  launch_on dry_run z (some node) i = do
    tt ←
        mutate w.cluster dry_run
          (apply (worker_pod printer c z (entry (codes "nodeName") node ∷ []) i))
    pure (worker_name printer c z i)

  -- The pods from the index `i` on.
  unfoldable pub launch_from : Bool → Sizing F → List Text → ℕ → ℕ → Action (List Text)
  launch_from dry_run z chosen i zero = pure []
  launch_from dry_run z chosen i (suc n) = do
    name ← launch_on dry_run z (get_elem? chosen (i % length chosen)) i
    names ← launch_from dry_run z chosen (suc i) n
    pure (name ∷ names)

  unfoldable pub launch_workers : Bool → Sizing F → Action (List Text)
  launch_workers dry_run z = do
    ready ← list_ready_nodes w.cluster c.instance_class
    let chosen = slice_to c.num_nodes (sorted text_le ready)
    if not (leb_ℤ c.num_nodes (pos (length chosen)))
        then die
        else launch_from dry_run z chosen 0 (pos_part (effective_num_pods c))

  unfoldable pub report_failures : List Pod → Action (Unit {0})
  report_failures [] = pure tt
  report_failures (p ∷ pods) =
      let rest = report_failures pods in
      if text_eq p.phase (codes "Failed")
      then (call w.cluster (logs p.name) >>= λ r. rest)
      else rest

  -- The rounds of the monitor.
  unfoldable pub watch : ℕ → Action (Unit {0})
  watch zero = out_of_fuel
  watch (suc n) = do
    k ← checked w.cluster (get_pods (codes "app=" ++ worker_label))
    let pods = w.cluster.pods k
    if is_nil (select is_running pods) then report_failures pods else watch n

  unfoldable pub monitor : Bool → Action (Unit {0})
  monitor dry_run = if dry_run then pure tt else watch w.rounds

  unfoldable pub teardown : Bool → Action (Unit {0})
  teardown dry_run = do
    tt ← delete w.cluster dry_run [] (codes "app=" ++ worker_label)
    delete w.cluster dry_run c.master_pod_name []
