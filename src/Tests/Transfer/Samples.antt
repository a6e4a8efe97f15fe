-- ===== src/Tests/Transfer/Samples.antt =====
-- Settings for the tests of cmk-data-transfer, with natural numbers for floats, and a cluster in
-- which everything goes well. Numbers are written in unary, as that many digits `1`.
use solutions_library.Prelude.{
  ℕ, ◌*◌, ◌/◌, min, Bool, true, false, Option, none, some, [], ◌∷◌, ◌==◌, if◌then◌else◌, length,
  replicate,
}
use solutions_library.Prelude.Int.{pos, pos_part}
use solutions_library.Prelude.Text.{Text, codes}
use solutions_library.Transfer.Config.{Config}
use solutions_library.Transfer.Sizing.{Floats}
use solutions_library.Transfer.Kubectl.{Node, Cluster}
use solutions_library.Transfer.Run.{World, Args}

abbrev pub settings : Config ℕ
settings = record {
  access_key_id = codes "key";
  secret_access_key = codes "secret";
  namespace = codes "ns";
  region = codes "us-phoenix-1";
  bucket = codes "data";
  prefix = codes "/train/";
  endpoint = [];
  pvc_name = codes "dest";
  pvc_size = codes "10Ti";
  storage_class = codes "fs";
  dest_path = codes "/data/out";
  existing_disk_id = [];
  existing_disk_name = [];
  existing_disk_serial = [];
  existing_disk_fstype = [];
  dest_mode = codes "dynamic";
  nfs_server = [];
  nfs_export_path = [];
  nfs_mount_options = codes "hard,nconnect=16";
  target_gbps = 8;
  num_nodes = pos 1;
  pods_per_node = pos 2;
  num_pods = none;
  instance_class = codes "s2a";
  node_vcpu = pos 80;
  node_ram_gib = pos 676;
  node_nic_gbps = pos 200;
  rtt_ms = 2000;
  per_stream_mbps = 400;
  stream_safety = 2;
  rclone_transfers = none;
  rclone_multi_thread_streams = none;
  rclone_multi_thread_cutoff = codes "1M";
  rclone_multi_thread_chunk_size = codes "1M";
  rclone_checkers = none;
  rclone_buffer_size = codes "1M";
  rclone_s3_chunk_size = codes "1M";
  rclone_extra_flags = [];
  worker_cpu_request = [];
  worker_mem_request = [];
  k8s_namespace = codes "default";
  secret_name = codes "conf";
  rclone_image = codes "rclone";
  master_pod_name = codes "master";
  mount_root = codes "/data";
  kubeconfig = [];
}

abbrev pub str_of : ℕ → Text
str_of n = replicate n b'1'

abbrev pub is_space : ℕ → Bool
is_space c = c == b' '

abbrev pub floats : Floats ℕ
floats = record {
  of_int = λ n. pos_part n;
  ratio = λ m n. m / n;
  mul = λ a b. a * b;
  min_of = λ a b. min a b;
  div = λ a b. if b == 0 then none else some (a / b);
  ceil = λ a. some (pos a);
  int_of_float = λ a. some (pos a);
  float_of = λ t. some (length t);
  str_of = str_of;
  is_space = is_space;
  upper = λ t. t;
}

abbrev pub is_zero : ℕ → Bool
is_zero t = t == 0

abbrev node : Text → Node
node n = record { name = n; conditions = (codes "Ready", codes "True") ∷ []; unschedulable = false }

abbrev pub cluster : Cluster
cluster = record {
  succeeds = λ k c. true;
  nodes = λ k. node (codes "b") ∷ node (codes "a") ∷ [];
  pods = λ k. record { name = codes "w"; phase = codes "Failed" } ∷ [];
  output = λ k. codes "1\tx" ∷ codes "11\ty" ∷ [];
}

-- The user's answer is open.
abbrev pub world : Option Text → World ℕ
world answer = record {
  floats = floats;
  not_above_zero = is_zero;
  python = record { int_of = λ t. some (pos (length t)); str_of = str_of; is_space = is_space };
  split = λ t. t ∷ [];
  lower = λ t. t;
  b64encode = λ t. t;
  run_dir = codes "/tmp/run";
  answer = answer;
  cluster = cluster;
  rounds = 1;
}

abbrev pub flags : Bool → Bool → Args
flags is_dry assent = record { dry_run = is_dry; yes = assent; keep = false }
