-- ===== src/Transfer/Run/Main.antt =====
-- run.py: `main`, and the manifests that a dry run writes.
use solutions_library.Prelude.{
  ℕ, Bool, Option, none, some, [], ◌∷◌, if◌then◌else◌, not, ◌&&◌, is_nil,
}
use solutions_library.Prelude.Text.{codes}
use solutions_library.Prelude.Dict.{Dict}
use solutions_library.Prelude.Json.{Json}
use solutions_library.Prelude.Calls.{pure, raise, ◌>>=◌}
use solutions_library.Transfer.Config.{Config, is_import, is_nfs, validate}
use solutions_library.Transfer.Sizing.{Sizing, compute_sizing}
use solutions_library.Transfer.Manifests.{storage_class, import_pv, nfs_pv, pvc}
use solutions_library.Transfer.Manifests.Pods.{master_pod, worker_pod}
use solutions_library.Transfer.Kubectl.{
  apply, wait_ready, write_generated, arithmetic_error, Action, call, mutate,
}
use solutions_library.Transfer.Run.{
  World, Args, printer, secret, confirm, preflight, list_source, shard_locally, launch_workers,
  monitor, teardown,
}

module _ {F : Type 0} (w : World F) (c : Config F) where
  -- The manifests by the names of their files.
  unfoldable pub documents : Sizing F → Dict Json
  documents z =
      (codes "pvc.json", pvc c)
      ∷ (codes "master-pod.json", master_pod c)
      ∷ (codes "worker-pod-0.json", worker_pod (printer w c) c z [] 0)
      ∷ (if is_nfs c
          then (codes "nfs-pv.json", nfs_pv c) ∷ []
          else if is_import c
          then (codes "import-pv.json", import_pv c) ∷ []
          else (codes "storageclass.json", storage_class c.storage_class) ∷ [])

  unfoldable pub write_documents : Dict Json → Action (Unit {0})
  write_documents [] = pure tt
  write_documents ((name, doc) ∷ docs) = do
    wrote ← call w.cluster (write_generated name doc)
    write_documents docs

  -- The static volume, where the destination has one.
  unfoldable pub apply_pv : Bool → Action (Unit {0})
  apply_pv dry_run =
      if is_nfs c
      then mutate w.cluster dry_run (apply (nfs_pv c))
      else if is_import c
      then mutate w.cluster dry_run (apply (import_pv c))
      else pure tt

  -- The transfer behind the question to the user.
  unfoldable pub launch : Args → Sizing F → Action ℕ
  launch args z = do
    names ← launch_workers w c args.dry_run z
    tt ← monitor w c args.dry_run
    tt ← if args.keep then pure tt else teardown w c args.dry_run
    pure 0

  -- What comes before it.
  unfoldable pub prepare : Bool → Action (Unit {0})
  prepare dry_run = do
    tt ← preflight w c dry_run
    tt ← mutate w.cluster dry_run (apply (secret w c))
    tt ← apply_pv dry_run
    tt ← mutate w.cluster dry_run (apply (pvc c))
    tt ← mutate w.cluster dry_run (apply (master_pod c))
    tt ← mutate w.cluster dry_run (wait_ready c.master_pod_name)
    tt ← list_source w c dry_run
    shard_locally w c dry_run

  -- The run with a sizing, up to the exit code.
  unfoldable pub run_sized : Args → Sizing F → Action ℕ
  run_sized args z =
      if args.dry_run
      then (do tt ← write_documents (documents z); tt ← preflight w c args.dry_run; pure 0)
      else (do
        tt ← prepare args.dry_run
        if not args.yes && not (confirm w c) then pure 0 else launch args z)

  unfoldable pub run_with : Args → Option (Sizing F) → Action ℕ
  run_with args none = raise arithmetic_error
  run_with args (some z) = run_sized args z

  unfoldable pub main : Args → Action ℕ
  main args =
      if not (is_nil (validate w.not_above_zero (not args.dry_run) c))
      then pure 2
      else run_with args (compute_sizing w.floats c)
