-- ===== src/Transfer/Manifests/Pods.antt =====
-- manifests.py: the manifests of the master pod and of the workers.
use solutions_library.Prelude.{
  ℕ, ◌+◌, true, is_some, List, [], ◌∷◌, ◌++◌, map, if◌then◌else◌, is_nil,
}
use solutions_library.Prelude.Text.{Text, codes, join}
use solutions_library.Prelude.Dict.{Dict}
use solutions_library.Prelude.Json.{Json, object, array}
use solutions_library.Transfer.Config.{Config, remote_root}
use solutions_library.Transfer.Sizing.{Sizing, str_ℤ}
use solutions_library.Transfer.Manifests.{
  string, entry, worker_label, shard_dir, log_dir, node_selector, volume_mounts, pod_volumes,
}

-- What the manifests use of Python: `str` of a number, and `split` at white space.
pub record Printer : Type 0 where
  pub str_of : ℕ → Text
  pub split : Text → List Text

module _ {F : Type 0} (c : Config F) where
  unfoldable pub master_pod : Json
  master_pod = object (
      entry (codes "apiVersion") (codes "v1")
      ∷ entry (codes "kind") (codes "Pod")
      ∷ (
        codes "metadata",
        object (
            entry (codes "name") c.master_pod_name
            ∷ entry (codes "namespace") c.k8s_namespace
            ∷ (codes "labels", object (entry (codes "app") (codes "cmk-data-transfer-master") ∷ []))
            ∷ []),
      )
      ∷ (
        codes "spec",
        object (
            entry (codes "restartPolicy") (codes "Never")
            ∷ (codes "nodeSelector", node_selector c)
            ∷ (
              codes "containers",
              array (
                  object (
                    entry (codes "name") (codes "master")
                    ∷ entry (codes "image") c.rclone_image
                    ∷ (
                      codes "command",
                      array (
                          string (codes "/bin/sh")
                          ∷ string (codes "-c")
                          ∷ string (
                              codes "mkdir -p "
                              ++ (shard_dir c
                                  ++ (codes " "
                                      ++ (log_dir c
                                          ++ (codes " "
                                              ++ (c.dest_path
                                                  ++ codes "; while true; do sleep 3600; done"))))))
                          ∷ []),
                    )
                    ∷ (
                      codes "env",
                      array (
                          object (
                            entry (codes "name") (codes "RCLONE_CONFIG")
                            ∷ entry (codes "value") (codes "/config/rclone.conf")
                            ∷ [])
                          ∷ []),
                    )
                    ∷ (codes "volumeMounts", volume_mounts c)
                    ∷ [])
                  ∷ []),
            )
            ∷ (codes "volumes", pod_volumes c)
            ∷ []),
      )
      ∷ [])

module _ {F : Type 0} (py : Printer) (c : Config F) (z : Sizing F) where
  unfoldable pub rclone_words : List Text
  rclone_words =
      (codes "rclone"
        ∷ codes "copy"
        ∷ codes "--files-from"
        ∷ (shard_dir c ++ codes "/shard-${SHARD_INDEX}.txt")
        ∷ remote_root c
        ∷ c.dest_path
        ∷ codes "--config"
        ∷ codes "/config/rclone.conf"
        ∷ codes "--transfers"
        ∷ str_ℤ py.str_of z.transfers
        ∷ codes "--multi-thread-streams"
        ∷ str_ℤ py.str_of z.multi_thread_streams
        ∷ codes "--multi-thread-cutoff"
        ∷ c.rclone_multi_thread_cutoff
        ∷ codes "--multi-thread-chunk-size"
        ∷ c.rclone_multi_thread_chunk_size
        ∷ [])
      ++ ((if is_some c.rclone_checkers
            then codes "--checkers" ∷ str_ℤ py.str_of z.checkers ∷ []
            else [])
          ++ ((codes "--no-traverse"
                ∷ codes "--s3-chunk-size"
                ∷ c.rclone_s3_chunk_size
                ∷ codes "--buffer-size"
                ∷ c.rclone_buffer_size
                ∷ codes "--rc"
                ∷ codes "--rc-addr"
                ∷ codes "localhost:$RC_PORT"
                ∷ codes "--rc-no-auth"
                ∷ codes "--stats"
                ∷ codes "10s"
                ∷ codes "--stats-one-line"
                ∷ codes "-v"
                ∷ [])
              ++ (if is_nil c.rclone_extra_flags then [] else py.split c.rclone_extra_flags)))

  unfoldable pub worker_command : List Text
  worker_command =
      codes "/bin/sh"
      ∷ codes "-c"
      ∷ (codes "set -eu; mkdir -p "
          ++ (c.dest_path
              ++ (codes " "
                  ++ (log_dir c
                      ++ (codes "; echo \"[worker ${SHARD_INDEX}] $(date -u) starting\"; "
                          ++ (join (codes " ") rclone_words
                              ++ (codes " 2>&1 | tee "
                                  ++ (log_dir c ++ codes "/worker-${SHARD_INDEX}.log"))))))))
      ∷ []

  -- The values that the shell finds in a worker's environment.
  unfoldable pub worker_env : ℕ → List (Text × Text)
  worker_env index =
      (codes "SHARD_INDEX", py.str_of index) ∷ (codes "RC_PORT", py.str_of (5572 + index)) ∷ []

  unfoldable pub worker_name : ℕ → Text
  worker_name index = codes "cmk-data-transfer-worker-" ++ py.str_of index

  unfoldable pub worker_spec : ℕ → Dict Json
  worker_spec index =
      entry (codes "restartPolicy") (codes "Never")
      ∷ (codes "hostNetwork", Json.bool true)
      ∷ entry (codes "dnsPolicy") (codes "ClusterFirstWithHostNet")
      ∷ (codes "nodeSelector", node_selector c)
      ∷ (
        codes "topologySpreadConstraints",
        array (
            object (
              (codes "maxSkew", Json.num 1)
              ∷ entry (codes "topologyKey") (codes "kubernetes.io/hostname")
              ∷ entry (codes "whenUnsatisfiable") (codes "DoNotSchedule")
              ∷ (
                codes "labelSelector",
                object ((codes "matchLabels", object (entry (codes "app") worker_label ∷ [])) ∷ []),
              )
              ∷ [])
            ∷ []),
      )
      ∷ (
        codes "containers",
        array (
            object (
              entry (codes "name") (codes "worker")
              ∷ entry (codes "image") c.rclone_image
              ∷ (codes "command", array (map (λ s. string s) worker_command))
              ∷ (
                codes "env",
                array (
                    map (λ v. object (entry (codes "name") v.0 ∷ entry (codes "value") v.1 ∷ []))
                      (worker_env index)),
              )
              ∷ (
                codes "resources",
                object (
                    (
                      codes "requests",
                      object (
                          entry (codes "cpu") z.worker_cpu_request
                          ∷ entry (codes "memory") z.worker_mem_request
                          ∷ []),
                    )
                    ∷ []),
              )
              ∷ (codes "volumeMounts", volume_mounts c)
              ∷ [])
            ∷ []),
      )
      ∷ (codes "volumes", pod_volumes c)
      ∷ []

  -- The pod with the given index; `extra` are the fields that a caller adds to its `spec`.
  unfoldable pub worker_pod : Dict Json → ℕ → Json
  worker_pod extra index = object (
      entry (codes "apiVersion") (codes "v1")
      ∷ entry (codes "kind") (codes "Pod")
      ∷ (
        codes "metadata",
        object (
            entry (codes "name") (worker_name index)
            ∷ entry (codes "namespace") c.k8s_namespace
            ∷ (
              codes "labels",
              object
                  (entry (codes "app") worker_label ∷ entry (codes "shard") (py.str_of index) ∷ []),
            )
            ∷ []),
      )
      ∷ (codes "spec", object (worker_spec index ++ extra))
      ∷ [])
