-- ===== src/Aria/Manifests.antt =====
-- aria2c-download.py: the manifests of the pods.
use solutions_library.Prelude.{ℕ, true, false, List, [], ◌∷◌, ◌++◌, map}
use solutions_library.Prelude.Text.{Text, codes}
use solutions_library.Prelude.Json.{Json, fields, items}
use solutions_library.Aria.{Runtime, shard_name}

-- `/vast/.aria2-shards`
abbrev pub shard_dir : Text
shard_dir = codes "/vast/.aria2-shards"

unfoldable pub volumes : Json
volumes = Json.arr (
    items (
      Json.obj (
        fields (
          (codes "name", Json.str (codes "pvcvol"))
          ∷ (
            codes "persistentVolumeClaim",
            Json.obj (
                fields (
                  (codes "claimName", Json.str (codes "aria2c-vast-csi-import"))
                  ∷ (codes "readOnly", Json.bool false)
                  ∷ [])),
          )
          ∷ []))
      ∷ []))

-- The list of one container, with its name, image and command.
unfoldable pub container : Text → Text → List Text → Json
container name image command = Json.arr (
    items (
      Json.obj (
        fields (
          (codes "name", Json.str name)
          ∷ (codes "image", Json.str image)
          ∷ (codes "command", Json.arr (items (map (λ s. Json.str s) command)))
          ∷ (
            codes "volumeMounts",
            Json.arr (
                items (
                  Json.obj (
                    fields (
                      (codes "mountPath", Json.str (codes "/vast"))
                      ∷ (codes "name", Json.str (codes "pvcvol"))
                      ∷ []))
                  ∷ [])),
          )
          ∷ []))
      ∷ []))

unfoldable pub master_pod : Json
master_pod = Json.obj (
    fields (
      (codes "apiVersion", Json.str (codes "v1"))
      ∷ (codes "kind", Json.str (codes "Pod"))
      ∷ (
        codes "metadata",
        Json.obj (fields ((codes "name", Json.str (codes "aria2c-master")) ∷ [])),
      )
      ∷ (
        codes "spec",
        Json.obj (
            fields (
              (codes "restartPolicy", Json.str (codes "Never"))
              ∷ (codes "volumes", volumes)
              ∷ (
                codes "containers",
                container (codes "aria2c-master") (codes "busybox")
                    (codes "/bin/sh" ∷ codes "-c" ∷ codes "while true; do sleep 3600; done" ∷ []),
              )
              ∷ [])),
      )
      ∷ []))

unfoldable pub shard_path : Runtime → ℕ → Text
shard_path rt i = shard_dir ++ (codes "/" ++ shard_name rt i)

unfoldable pub aria2c_cmd : Runtime → ℕ → Text
aria2c_cmd rt i =
    codes "aria2c --input-file="
    ++ (shard_path rt i
        ++ codes
            " --http-user=transfer-user --http-passwd=CHANGE_ME --max-concurrent-downloads=64 --max-connection-per-server=16 --file-allocation=none --disk-cache=64M --auto-save-interval=300 --continue=true")

unfoldable pub overrides : Runtime → ℕ → Text → Json
overrides rt i node_name = Json.obj (
    fields (
      (
        codes "spec",
        Json.obj (
            fields (
              (codes "restartPolicy", Json.str (codes "Never"))
              ∷ (codes "hostNetwork", Json.bool true)
              ∷ (codes "nodeName", Json.str node_name)
              ∷ (
                codes "containers",
                container (codes "aria2c-worker") (codes "alpine:3") (
                    codes "sh"
                    ∷ codes "-c"
                    ∷ (codes "apk add --no-cache aria2 && " ++ aria2c_cmd rt i)
                    ∷ []),
              )
              ∷ (codes "volumes", volumes)
              ∷ [])),
      )
      ∷ []))
