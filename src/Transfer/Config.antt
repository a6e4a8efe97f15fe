-- ===== src/Transfer/Config.antt =====
-- cmk-data-transfer/orchestrator/config.py: the settings, what is derived from them, and their
-- check. Python's floats are the type `F`, with the tests that the code makes.
pub mod Pods
pub mod Sources
pub mod Load
use solutions_library.Prelude.{
  ℕ, zero, ◌+◌, ◌/◌, Bool, true, false, Option, none, some, List, [], ◌∷◌, ◌++◌, leb, if◌then◌else◌,
  not, ◌&&◌, ◌||◌, is_nil, length, ◌==◌,
}
use solutions_library.Prelude.Text.{Text, codes, text_eq, split_first}
use solutions_library.Prelude.Lines.{rstrip}
use solutions_library.Prelude.Int.{ℤ, pos, leb_ℤ, max_ℤ, neg_ℤ, floor_div, ◌*ℤ◌}
use solutions_library.Transfer.Shard.{lstrip}

pub record Config (F : Type 0) : Type 0 where
  pub access_key_id : Text
  pub secret_access_key : Text
  pub namespace : Text
  pub region : Text
  pub bucket : Text
  pub prefix : Text
  pub endpoint : Text
  pub pvc_name : Text
  pub pvc_size : Text
  pub storage_class : Text
  pub dest_path : Text
  pub existing_disk_id : Text
  pub existing_disk_name : Text
  pub existing_disk_serial : Text
  pub existing_disk_fstype : Text
  pub dest_mode : Text
  pub nfs_server : Text
  pub nfs_export_path : Text
  pub nfs_mount_options : Text
  pub target_gbps : F
  pub num_nodes : ℤ
  pub pods_per_node : ℤ
  pub num_pods : Option ℤ
  pub instance_class : Text
  pub node_vcpu : ℤ
  pub node_ram_gib : ℤ
  pub node_nic_gbps : ℤ
  pub rtt_ms : F
  pub per_stream_mbps : F
  pub stream_safety : F
  pub rclone_transfers : Option ℤ
  pub rclone_multi_thread_streams : Option ℤ
  pub rclone_multi_thread_cutoff : Text
  pub rclone_multi_thread_chunk_size : Text
  pub rclone_checkers : Option ℤ
  pub rclone_buffer_size : Text
  pub rclone_s3_chunk_size : Text
  pub rclone_extra_flags : Text
  pub worker_cpu_request : Text
  pub worker_mem_request : Text
  pub k8s_namespace : Text
  pub secret_name : Text
  pub rclone_image : Text
  pub master_pod_name : Text
  pub mount_root : Text
  pub kubeconfig : Text

-- `if self.num_pods:`, which a 0 fails as `None` does.
abbrev pub forced : Option ℤ → Option ℤ
forced none = none
forced (some (pos zero)) = none
forced (some n) = some n

-- `a or b` for texts
abbrev pub or_text : Text → Text → Text
or_text [] b = b
or_text (c ∷ s) b = c ∷ s

-- The messages of the check, by what is missing or wrong.
pub data Problem : Type 0 where
  access_key_required secret_key_required namespace_required bucket_required : Problem
  nodes_below_one target_not_positive pods_below_one : Problem
  bad_dest_mode : Text → Problem
  import_needs_disk nfs_needs_path nfs_needs_server : Problem

abbrev pub report : Bool → Problem → List Problem
report true p = p ∷ []
report false p = []

module _ {F : Type 0} where
  unfoldable pub effective_num_pods : Config F → ℤ
  effective_num_pods c = elim (forced c.num_pods) [
    | some n ↦ n
    | none ↦ c.num_nodes *ℤ max_ℤ (pos 1) c.pods_per_node
  ]

  -- `none` is the `ZeroDivisionError` of no nodes.
  unfoldable pub effective_pods_per_node : Config F → Option ℤ
  effective_pods_per_node c = elim (forced c.num_pods) [
    | none ↦ some (max_ℤ (pos 1) c.pods_per_node)
    | some n ↦ elim (floor_div (neg_ℤ n) c.num_nodes) [
      | none ↦ none
      | some q ↦ some (max_ℤ (pos 1) (neg_ℤ q))
    ]
  ]

  unfoldable pub effective_endpoint : Config F → Text
  effective_endpoint c = or_text c.endpoint (
      codes "https://"
      ++ (c.namespace
          ++ (codes ".compat.objectstorage." ++ (c.region ++ codes ".oraclecloud.com"))))

  -- `oci:bucket[/prefix]`
  unfoldable pub remote_root : Config F → Text
  remote_root c =
      let is_slash = λ (x : ℕ). x == b'/' in
      codes "oci:"
      ++ (c.bucket
          ++ (if is_nil c.prefix then [] else b'/' ∷ rstrip is_slash (lstrip is_slash c.prefix)))

  unfoldable pub is_import : Config F → Bool
  is_import c = text_eq c.dest_mode (codes "import")

  unfoldable pub is_nfs : Config F → Bool
  is_nfs c = text_eq c.dest_mode (codes "nfs")

  unfoldable pub static_pv_name : Config F → Text
  static_pv_name c = c.pvc_name ++ codes "-pv"

  unfoldable pub nfs_path : Config F → Text
  nfs_path c = or_text c.nfs_export_path (codes "/volumes/" ++ c.existing_disk_id)

  -- `dest_mode in ("dynamic", "import", "nfs")`
  unfoldable pub is_known_mode : Config F → Bool
  is_known_mode c = text_eq c.dest_mode (codes "dynamic") || (is_import c || is_nfs c)

  -- The first argument is the test `target_gbps <= 0`.
  unfoldable pub validate : (F → Bool) → Bool → Config F → List Problem
  validate not_above_zero require_secrets c =
      report (require_secrets && is_nil c.access_key_id) access_key_required
      ++ (report (require_secrets && is_nil c.secret_access_key) secret_key_required
          ++ (report (is_nil c.namespace && is_nil c.endpoint) namespace_required
              ++ (report (is_nil c.bucket) bucket_required
                  ++ (report (leb_ℤ c.num_nodes (pos 0)) nodes_below_one
                      ++ (report (not_above_zero c.target_gbps) target_not_positive
                          ++ (report (leb_ℤ c.pods_per_node (pos 0)) pods_below_one
                              ++ (report (not (is_known_mode c)) (bad_dest_mode c.dest_mode)
                                  ++ (report
                                        (is_import c
                                          && (is_nil c.existing_disk_id
                                              || (is_nil c.existing_disk_name
                                                  || is_nil c.existing_disk_serial)))
                                        import_needs_disk
                                      ++ (report
                                            (is_nfs c
                                              && (is_nil c.existing_disk_id
                                                  && is_nil c.nfs_export_path))
                                            nfs_needs_path
                                          ++ report (is_nfs c && is_nil c.nfs_server)
                                              nfs_needs_server)))))))))

-- All characters pass the test.
unfoldable pub all : (ℕ → Bool) → Text → Bool
all p [] = true
all p (c ∷ s) = let rest = all p s in p c && rest

abbrev pub is_lower : ℕ → Bool
is_lower c = leb b'a' c && leb c b'z'

-- The text without one line break at its end.
unfoldable pub strip_newline : Text → Text
strip_newline [] = []
strip_newline (c ∷ []) = if c == b'\n' then [] else c ∷ []
strip_newline (c ∷ d ∷ s) = c ∷ strip_newline (d ∷ s)

-- `[a-z]{2,3}-[a-z]+-\d+$` on the pieces between dashes; `$` also stands before a last line break.
unfoldable pub is_region : (ℕ → Bool) → Text × List Text → Bool
is_region is_decimal (continent, place ∷ number ∷ []) =
    let digits = strip_newline number in
    all is_lower continent
    && ((length continent == 2) || (length continent == 3))
    && (all is_lower place && not (is_nil place))
    && (all is_decimal digits && not (is_nil digits))
is_region is_decimal _ = false

-- Whether `warnings` has the one warning on the region.
unfoldable pub warns_region : {F : Type 0} → (ℕ → Bool) → Config F → Bool
warns_region is_decimal c =
    is_nil c.endpoint && not (is_region is_decimal (split_first b'-' c.region))
