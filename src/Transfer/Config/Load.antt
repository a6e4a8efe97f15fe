-- ===== src/Transfer/Config/Load.antt =====
-- config.py: `load_config` and `_coerce`.
pub mod Precedence
use solutions_library.Prelude.{Option, none, some, List, [], ◌∷◌, if◌then◌else◌, ◌||◌, is_nil}
use solutions_library.Prelude.Options.{◌>>=◌}
use solutions_library.Prelude.Text.{Text, codes}
use solutions_library.Prelude.Dict.{Dict, lookup, insert}
use solutions_library.Transfer.Config.Sources.{
  Value, Reader, load_dotenv, int_fields, optional_int_fields, float_fields, is_listed, env_map,
}

unfoldable pub as_int : {F : Type 0} → Reader F → Text → Option (Option (Value F))
as_int rd raw = do n ← rd.int_of raw; some (some (Value.int n))

unfoldable pub as_float : {F : Type 0} → Reader F → Text → Option (Option (Value F))
as_float rd raw = do x ← rd.float_of raw; some (some (Value.float x))

module _ {F : Type 0} (rd : Reader F) where
  -- `_coerce`; the inner `none` is `None`.
  unfoldable pub coerce : Text → Text → Option (Option (Value F))
  coerce name raw =
      if is_nil raw
      then some (if is_listed name optional_int_fields then none else some (Value.text raw))
      else if is_listed name int_fields || is_listed name optional_int_fields
      then as_int rd raw
      else if is_listed name float_fields
      then as_float rd raw
      else some (some (Value.text raw))

  -- `if v is not None: setattr(cfg, name, v)`
  unfoldable pub set_given : Text → Option (Value F) → Dict (Value F) → Dict (Value F)
  set_given name none cfg = cfg
  set_given name (some v) cfg = insert name v cfg

  unfoldable pub set_raw : Text → Option Text → Dict (Value F) → Option (Dict (Value F))
  set_raw name none cfg = some cfg
  set_raw name (some raw) cfg = do v ← coerce name raw; some (set_given name v cfg)

  -- The loop over the map.
  unfoldable pub set_env : Dict Text → Dict Text → Dict (Value F) → Option (Dict (Value F))
  set_env [] merged cfg = some cfg
  set_env ((key, name) ∷ table) merged cfg = do
    cfg' ← set_raw name (lookup key merged) cfg
    set_env table merged cfg'

  -- The loop over what the command line gives.
  unfoldable pub set_cli : Dict (Option (Value F)) → Dict (Value F) → Dict (Value F)
  set_cli [] cfg = cfg
  set_cli ((name, v) ∷ cli) cfg = set_cli cli (set_given name v cfg)

unfoldable pub override : Text → Option Text → Dict Text → Dict Text
override key none merged = merged
override key (some v) merged = insert key v merged

-- The environment overrides the file, for the keys of the map.
unfoldable pub merge : Dict Text → Dict Text → Dict Text → Dict Text
merge [] merged env = merged
merge ((key, name) ∷ table) merged env = merge table (override key (lookup key env) merged) env

-- `cli_map`, for what the parser of the command line gives for each flag.
pub record Flags (F : Type 0) : Type 0 where
  pub target_gbps : Option (Value F)
  pub num_nodes : Option (Value F)
  pub pods_per_node : Option (Value F)
  pub num_pods : Option (Value F)
  pub bucket : Option (Value F)
  pub prefix : Option (Value F)
  pub namespace : Option (Value F)
  pub region : Option (Value F)
  pub rtt_ms : Option (Value F)
  pub per_stream_mbps : Option (Value F)
  pub transfers : Option (Value F)
  pub multi_thread_streams : Option (Value F)
  pub checkers : Option (Value F)
  pub pvc_name : Option (Value F)
  pub storage_class : Option (Value F)
  pub import_disk_id : Option (Value F)
  pub import_disk_name : Option (Value F)
  pub import_disk_serial : Option (Value F)
  pub dest_mode : Option (Value F)
  pub nfs_server : Option (Value F)

abbrev pub cli_map : {F : Type 0} → Flags F → Dict (Option (Value F))
cli_map args =
    (codes "target_gbps", args.target_gbps)
    ∷ (codes "num_nodes", args.num_nodes)
    ∷ (codes "pods_per_node", args.pods_per_node)
    ∷ (codes "num_pods", args.num_pods)
    ∷ (codes "bucket", args.bucket)
    ∷ (codes "prefix", args.prefix)
    ∷ (codes "namespace", args.namespace)
    ∷ (codes "region", args.region)
    ∷ (codes "rtt_ms", args.rtt_ms)
    ∷ (codes "per_stream_mbps", args.per_stream_mbps)
    ∷ (codes "rclone_transfers", args.transfers)
    ∷ (codes "rclone_multi_thread_streams", args.multi_thread_streams)
    ∷ (codes "rclone_checkers", args.checkers)
    ∷ (codes "pvc_name", args.pvc_name)
    ∷ (codes "storage_class", args.storage_class)
    ∷ (codes "existing_disk_id", args.import_disk_id)
    ∷ (codes "existing_disk_name", args.import_disk_name)
    ∷ (codes "existing_disk_serial", args.import_disk_serial)
    ∷ (codes "dest_mode", args.dest_mode)
    ∷ (codes "nfs_server", args.nfs_server)
    ∷ []

-- `none` is the `ValueError`. `cfg` are the attributes of a new `Config`.
unfoldable pub load_config :
    {F : Type 0}
    → Reader F
    → List Text
    → Dict Text
    → Flags F
    → Dict (Value F)
    → Option (Dict (Value F))
load_config rd lines env args cfg = do
  cfg' ← set_env rd env_map (merge env_map (load_dotenv rd.is_space lines []) env) cfg
  some (set_cli rd (cli_map args) cfg')
