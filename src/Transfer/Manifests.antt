-- ===== src/Transfer/Manifests.antt =====
-- cmk-data-transfer/orchestrator/manifests.py: the manifests of the volumes, and what the pods
-- share.
pub mod Pods
use solutions_library.Prelude.{◌+◌, true, [], ◌∷◌, ◌++◌, map, if◌then◌else◌, ◌||◌}
use solutions_library.Prelude.Text.{Text, codes, split_first}
use solutions_library.Prelude.Dict.{Dict}
use solutions_library.Prelude.Json.{Json, object, array}
use solutions_library.Transfer.Config.{Config, is_import, is_nfs, static_pv_name, nfs_path}

abbrev pub string : Text → Json
string s = Json.str s

abbrev pub worker_label : Text
worker_label = codes "cmk-data-transfer-worker"

-- `name: value` of texts
abbrev pub entry : Text → Text → Text × Json
entry k v = (k, string v)

unfoldable pub storage_class : Text → Json
storage_class name = object (
    entry (codes "apiVersion") (codes "storage.k8s.io/v1")
    ∷ entry (codes "kind") (codes "StorageClass")
    ∷ (codes "metadata", object (entry (codes "name") name ∷ []))
    ∷ entry (codes "provisioner") (codes "fs.csi.crusoe.ai")
    ∷ entry (codes "reclaimPolicy") (codes "Delete")
    ∷ entry (codes "volumeBindingMode") (codes "Immediate")
    ∷ (codes "allowVolumeExpansion", Json.bool true)
    ∷ [])

module _ {F : Type 0} (c : Config F) where
  unfoldable pub shard_dir : Text
  shard_dir = c.mount_root ++ codes "/shards"

  unfoldable pub log_dir : Text
  log_dir = c.mount_root ++ codes "/logs"

  -- The claim that a static volume is bound to.
  unfoldable pub claim_ref : Json
  claim_ref =
      object (entry (codes "namespace") c.k8s_namespace ∷ entry (codes "name") c.pvc_name ∷ [])

  -- A static volume with the fields that the two kinds have between the common ones.
  unfoldable pub static_pv : Dict Json → Json
  static_pv place = object (
      entry (codes "apiVersion") (codes "v1")
      ∷ entry (codes "kind") (codes "PersistentVolume")
      ∷ (codes "metadata", object (entry (codes "name") (static_pv_name c) ∷ []))
      ∷ (
        codes "spec",
        object (
            (codes "capacity", object (entry (codes "storage") c.pvc_size ∷ []))
            ∷ (codes "accessModes", array (string (codes "ReadWriteMany") ∷ []))
            ∷ entry (codes "persistentVolumeReclaimPolicy") (codes "Retain")
            ∷ entry (codes "storageClassName") []
            ∷ entry (codes "volumeMode") (codes "Filesystem")
            ∷ (place ++ ((codes "claimRef", claim_ref) ∷ []))),
      )
      ∷ [])

  unfoldable pub import_pv : Json
  import_pv = static_pv (
      (
        codes "csi",
        object (
            entry (codes "driver") (codes "fs.csi.crusoe.ai")
            ∷ entry (codes "volumeHandle") c.existing_disk_id
            ∷ entry (codes "fsType") c.existing_disk_fstype
            ∷ (
              codes "volumeAttributes",
              object (
                  entry (codes "csi.crusoe.ai/disk-name") c.existing_disk_name
                  ∷ entry (codes "csi.crusoe.ai/serial-number") c.existing_disk_serial
                  ∷ []),
            )
            ∷ []),
      )
      ∷ [])

  unfoldable pub nfs_pv : Json
  nfs_pv =
      let (option, options) = split_first b',' c.nfs_mount_options in
      static_pv (
        (codes "mountOptions", array (map (λ o. string o) (option ∷ options)))
        ∷ (
          codes "nfs",
          object (entry (codes "server") c.nfs_server ∷ entry (codes "path") (nfs_path c) ∷ []),
        )
        ∷ [])

  -- The fields that say where the claim gets its volume.
  unfoldable pub pvc_source : Dict Json
  pvc_source =
      if is_import c || is_nfs c
      then entry (codes "storageClassName") [] ∷ entry (codes "volumeName") (static_pv_name c) ∷ []
      else entry (codes "storageClassName") c.storage_class ∷ []

  unfoldable pub pvc : Json
  pvc = object (
      entry (codes "apiVersion") (codes "v1")
      ∷ entry (codes "kind") (codes "PersistentVolumeClaim")
      ∷ (
        codes "metadata",
        object (entry (codes "name") c.pvc_name ∷ entry (codes "namespace") c.k8s_namespace ∷ []),
      )
      ∷ (
        codes "spec",
        object (
            (codes "accessModes", array (string (codes "ReadWriteMany") ∷ []))
            ∷ (
              codes "resources",
              object ((codes "requests", object (entry (codes "storage") c.pvc_size ∷ [])) ∷ []),
            )
            ∷ entry (codes "volumeMode") (codes "Filesystem")
            ∷ pvc_source),
      )
      ∷ [])

  unfoldable pub pod_volumes : Json
  pod_volumes = array (
      object (
        entry (codes "name") (codes "shared")
        ∷ (codes "persistentVolumeClaim", object (entry (codes "claimName") c.pvc_name ∷ []))
        ∷ [])
      ∷ object (
          entry (codes "name") (codes "rclone-conf")
          ∷ (
            codes "secret",
            object (
                entry (codes "secretName") c.secret_name
                ∷ (codes "defaultMode", Json.num 0o400)
                ∷ (
                  codes "items",
                  array (
                      object (
                        entry (codes "key") (codes "rclone.conf")
                        ∷ entry (codes "path") (codes "rclone.conf")
                        ∷ [])
                      ∷ []),
                )
                ∷ []),
          )
          ∷ [])
      ∷ [])

  unfoldable pub volume_mounts : Json
  volume_mounts = array (
      object (entry (codes "name") (codes "shared") ∷ entry (codes "mountPath") c.mount_root ∷ [])
      ∷ object (
          entry (codes "name") (codes "rclone-conf")
          ∷ entry (codes "mountPath") (codes "/config")
          ∷ (codes "readOnly", Json.bool true)
          ∷ [])
      ∷ [])

  unfoldable pub node_selector : Json
  node_selector = object (entry (codes "crusoe.ai/instance.class") c.instance_class ∷ [])
