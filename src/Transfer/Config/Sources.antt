-- ===== src/Transfer/Config/Sources.antt =====
-- config.py: where the settings come from: a file `.env`, the environment, and the command line.
-- The settings are the dict of the attributes of `Config`. The parser of the command line is left
-- out.
use solutions_library.Prelude.{
  ℕ, Bool, true, false, Option, List, [], ◌∷◌, ◌==◌, if◌then◌else◌, not, ◌&&◌, ◌||◌, is_nil,
}
use solutions_library.Prelude.Int.{ℤ}
use solutions_library.Prelude.Text.{Text, codes, text_eq}
use solutions_library.Prelude.Lines.{rstrip}
use solutions_library.Prelude.Dict.{Dict, insert}
use solutions_library.Transfer.Shard.{lstrip, partition}

-- The value of an attribute that is not `None`.
pub data Value (F : Type 0) : Type 0 where
  text : Text → Value F
  int : ℤ → Value F
  float : F → Value F

-- `int` and `float` of Python, where `none` is the `ValueError`, and white space.
pub record Reader (F : Type 0) : Type 0 where
  pub int_of : Text → Option ℤ
  pub float_of : Text → Option F
  pub is_space : ℕ → Bool

unfoldable pub strip : (ℕ → Bool) → Text → Text
strip p s = rstrip p (lstrip p s)

-- The text before the first white space that a `#` follows: `val[:val.find(c + "#")]`.
unfoldable pub before_comment : ℕ → Text → Text
before_comment c [] = []
before_comment c (x ∷ []) = x ∷ []
before_comment c (x ∷ y ∷ s) =
    let rest = before_comment c (y ∷ s) in if (x == c) && (y == b'#') then [] else x ∷ rest

-- A value without its comment; in quotes it has none.
unfoldable pub uncommented : Text → Text
uncommented [] = []
uncommented (x ∷ s) =
    if (x == b'\'') || (x == b'"')
    then x ∷ s
    else if x == b'#'
    then []
    else before_comment b'\t' (before_comment b' ' (x ∷ s))

unfoldable pub starts_comment : Text → Bool
starts_comment [] = true
starts_comment (x ∷ s) = x == b'#'

-- One line of the file, as a change of the dict.
unfoldable pub add_line : (ℕ → Bool) → Text → Dict Text → Dict Text
add_line is_space raw out =
    let line = strip is_space raw in
    let (key, found, val) = partition b'=' line in
    let key' = strip is_space key in
    let val' = uncommented (strip is_space val) in
    if starts_comment line
    then out
    else if not found
    then out
    else if is_nil key'
    then out
    else insert key' (strip (λ c. c == b'\'') (strip (λ c. c == b'"') (strip is_space val'))) out

unfoldable pub load_dotenv : (ℕ → Bool) → List Text → Dict Text → Dict Text
load_dotenv is_space [] out = out
load_dotenv is_space (raw ∷ lines) out = load_dotenv is_space lines (add_line is_space raw out)

-- The fields by their types; all others are texts.
abbrev pub int_fields : List Text
int_fields =
    codes "num_nodes"
    ∷ codes "pods_per_node"
    ∷ codes "node_vcpu"
    ∷ codes "node_ram_gib"
    ∷ codes "node_nic_gbps"
    ∷ []

abbrev pub optional_int_fields : List Text
optional_int_fields =
    codes "num_pods"
    ∷ codes "rclone_transfers"
    ∷ codes "rclone_multi_thread_streams"
    ∷ codes "rclone_checkers"
    ∷ []

abbrev pub float_fields : List Text
float_fields =
    codes "target_gbps" ∷ codes "rtt_ms" ∷ codes "per_stream_mbps" ∷ codes "stream_safety" ∷ []

unfoldable pub is_listed : Text → List Text → Bool
is_listed k [] = false
is_listed k (j ∷ js) = text_eq j k || is_listed k js

-- `_ENV_MAP`
abbrev pub env_map : Dict Text
env_map =
    (codes "OCI_ACCESS_KEY_ID", codes "access_key_id")
    ∷ (codes "OCI_SECRET_ACCESS_KEY", codes "secret_access_key")
    ∷ (codes "OCI_NAMESPACE", codes "namespace")
    ∷ (codes "OCI_REGION", codes "region")
    ∷ (codes "OCI_BUCKET", codes "bucket")
    ∷ (codes "OCI_PREFIX", codes "prefix")
    ∷ (codes "OCI_ENDPOINT", codes "endpoint")
    ∷ (codes "PVC_NAME", codes "pvc_name")
    ∷ (codes "PVC_SIZE", codes "pvc_size")
    ∷ (codes "STORAGE_CLASS", codes "storage_class")
    ∷ (codes "DEST_PATH", codes "dest_path")
    ∷ (codes "EXISTING_DISK_ID", codes "existing_disk_id")
    ∷ (codes "EXISTING_DISK_NAME", codes "existing_disk_name")
    ∷ (codes "EXISTING_DISK_SERIAL", codes "existing_disk_serial")
    ∷ (codes "EXISTING_DISK_FSTYPE", codes "existing_disk_fstype")
    ∷ (codes "DEST_MODE", codes "dest_mode")
    ∷ (codes "NFS_SERVER", codes "nfs_server")
    ∷ (codes "NFS_EXPORT_PATH", codes "nfs_export_path")
    ∷ (codes "NFS_MOUNT_OPTIONS", codes "nfs_mount_options")
    ∷ (codes "TARGET_GBPS", codes "target_gbps")
    ∷ (codes "NUM_NODES", codes "num_nodes")
    ∷ (codes "PODS_PER_NODE", codes "pods_per_node")
    ∷ (codes "NUM_PODS", codes "num_pods")
    ∷ (codes "INSTANCE_CLASS", codes "instance_class")
    ∷ (codes "NODE_VCPU", codes "node_vcpu")
    ∷ (codes "NODE_RAM_GIB", codes "node_ram_gib")
    ∷ (codes "NODE_NIC_GBPS", codes "node_nic_gbps")
    ∷ (codes "RTT_MS", codes "rtt_ms")
    ∷ (codes "PER_STREAM_MBPS", codes "per_stream_mbps")
    ∷ (codes "STREAM_SAFETY", codes "stream_safety")
    ∷ (codes "RCLONE_TRANSFERS", codes "rclone_transfers")
    ∷ (codes "RCLONE_MULTI_THREAD_STREAMS", codes "rclone_multi_thread_streams")
    ∷ (codes "RCLONE_MULTI_THREAD_CUTOFF", codes "rclone_multi_thread_cutoff")
    ∷ (codes "RCLONE_MULTI_THREAD_CHUNK_SIZE", codes "rclone_multi_thread_chunk_size")
    ∷ (codes "RCLONE_CHECKERS", codes "rclone_checkers")
    ∷ (codes "RCLONE_BUFFER_SIZE", codes "rclone_buffer_size")
    ∷ (codes "RCLONE_S3_CHUNK_SIZE", codes "rclone_s3_chunk_size")
    ∷ (codes "RCLONE_EXTRA_FLAGS", codes "rclone_extra_flags")
    ∷ (codes "WORKER_CPU_REQUEST", codes "worker_cpu_request")
    ∷ (codes "WORKER_MEM_REQUEST", codes "worker_mem_request")
    ∷ (codes "NAMESPACE", codes "k8s_namespace")
    ∷ (codes "SECRET_NAME", codes "secret_name")
    ∷ (codes "RCLONE_IMAGE", codes "rclone_image")
    ∷ (codes "KUBECONFIG", codes "kubeconfig")
    ∷ []
