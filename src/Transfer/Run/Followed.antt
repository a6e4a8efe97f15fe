-- ===== src/Transfer/Run/Followed.antt =====
-- run.py: each of its functions follows the pipeline.
use solutions_library.Prelude.{
  ℕ, ◌≡◌, refl, Bool, true, false, some, List, [], ◌∷◌, arith, not, is_nil, length,
}
use solutions_library.Prelude.Text.{Text, text_eq}
use solutions_library.Prelude.Int.{pos, leb_ℤ}
use solutions_library.Prelude.Dict.{lookup}
use solutions_library.Prelude.Json.{Json, entries, fields}
use solutions_library.Prelude.Calls.Leads.{Leads, Leads-pure, Leads-if, Leads-weaken}
use solutions_library.Transfer.Config.{Config, is_nfs, is_import}
use solutions_library.Transfer.Shard.{Packed, packed, parse_tsv}
use solutions_library.Transfer.Sizing.{Sizing}
use solutions_library.Transfer.Manifests.{storage_class, pvc, static_pv, import_pv, nfs_pv}
use solutions_library.Transfer.Manifests.Pods.{master_pod, worker_pod}
use solutions_library.Transfer.Kubectl.{
  Call, get_version, wait_ready, apply_cluster, exits, value_error, index_error, cp_to, write_file,
  mutate,
}
use solutions_library.Transfer.Run.{
  World, preflight, secret, printer, list_source, shard_locally, shard_listing, push_packed,
  write_all, push_all,
}
use solutions_library.Transfer.Run.Main.{prepare, apply_pv}
use solutions_library.Transfer.Run.Stages.{
  Stage, checking, reached, counted, unclassed, classed, secured, bound, claimed, created, ready,
  listed, sharding, copying, Part, part_of, step, step_apply,
}
use solutions_library.Transfer.Run.Rules.{
  In, In-include, Until, advances, call-In, mutate-In, apply-In, list_ready_nodes-In, exec_in-In,
  cluster_exists-In, pure-In, raise-In, Until-later, bind-In,
}

module _ {F : Type 0} (w : World F) (c : Config F) where
  pub part_of-secret : part_of (secret w c) ≡ Part.secret
  unfolding part_of secret fields entries lookup text_eq
  part_of-secret = refl

  pub part_of-pvc : part_of (pvc c) ≡ Part.claim
  unfolding part_of pvc fields entries lookup text_eq
  part_of-pvc = refl

  part_of-import_pv : part_of (import_pv c) ≡ Part.volume
  unfolding part_of import_pv static_pv fields entries lookup text_eq
  part_of-import_pv = refl

  part_of-nfs_pv : part_of (nfs_pv c) ≡ Part.volume
  unfolding part_of nfs_pv static_pv fields entries lookup text_eq
  part_of-nfs_pv = refl

  pub part_of-master_pod : part_of (master_pod c) ≡ Part.master
  unfolding part_of master_pod fields entries lookup text_eq
  part_of-master_pod = refl

  pub part_of-worker_pod :
      (z : Sizing F) (extra : List (Text × Json)) (i : ℕ)
      → part_of (worker_pod (printer w c) c z extra i) ≡ Part.worker
  unfolding part_of worker_pod fields entries lookup text_eq
  part_of-worker_pod z extra i = refl

  pub preflight-In :
      (dry_run : Bool) (qs : List Stage) (R : List Call → Type 0)
      → ((calls : List Call) → Until counted calls → R calls)
      → advances some (counted ∷ unclassed ∷ []) qs ≡ true
      → Leads
          (In (unclassed ∷ []))
          (In qs)
          R
          (mutate w.cluster dry_run (apply_cluster (storage_class c.storage_class)))
      → Leads (In (checking ∷ [])) (In qs) R (preflight w c dry_run)
  unfolding preflight step
  preflight-In dry_run qs R weaken h create =
      let one : advances some (counted ∷ []) qs ≡ true = ground arith in
      let other : advances some (unclassed ∷ []) qs ≡ true = ground arith in
      bind-In (reached ∷ []) (call-In w.cluster get_version refl) (λ r.
        bind-In (reached ∷ [])
          (Leads-if r.1 (λ _. pure-In w.cluster tt refl)
            (λ _. Leads-weaken (raise-In counted (exits 1) refl) (λ calls q. q) weaken))
          (λ _.
            bind-In (counted ∷ [])
              (Leads-weaken (list_ready_nodes-In w.cluster counted c.instance_class refl refl)
                (λ calls q. q) weaken)
              (λ nodes.
                Leads-if (not (leb_ℤ c.num_nodes (pos (length nodes))))
                  (λ _. Leads-weaken (raise-In counted (exits 1) refl) (λ calls q. q) weaken)
                  (λ _.
                    Leads-if (is_nfs c) (λ _. pure-In w.cluster tt one)
                      (λ _.
                        Leads-if (is_import c) (λ _. pure-In w.cluster tt one)
                          (λ _.
                            bind-In (unclassed ∷ [])
                              (cluster_exists-In w.cluster c.storage_class refl)
                              (λ found.
                                Leads-if found (λ _. pure-In w.cluster tt other)
                                  (λ _. create))))))))

  apply_pv-In :
      Leads (In (secured ∷ [])) (In (secured ∷ bound ∷ [])) (Until copying) (apply_pv w c false)
  unfolding apply_pv step_apply
  apply_pv-In =
      Leads-if (is_nfs c) (λ _. apply-In w.cluster copying _ _ part_of-nfs_pv refl refl)
        (λ _.
          Leads-if (is_import c) (λ _. apply-In w.cluster copying _ _ part_of-import_pv refl refl)
            (λ _. pure-In w.cluster tt refl))

  write_all-In :
      {R : List Call → Type 0} (files : List (Text × Text))
      → Leads (In (sharding ∷ [])) (In (sharding ∷ [])) R (write_all w c files)
  unfolding write_all step
  write_all-In [] = Leads-pure
  write_all-In ((path, content) ∷ files) =
      bind-In (sharding ∷ []) (call-In w.cluster (write_file path content) refl)
        (λ k. write_all-In files)

  push_all-In :
      (files : List (Text × Text))
      → Leads
          (In (sharding ∷ copying ∷ []))
          (In (sharding ∷ copying ∷ []))
          (Until copying)
          (push_all w c false files)
  unfolding push_all step
  push_all-In [] = Leads-pure
  push_all-In ((path, content) ∷ files) =
      bind-In (sharding ∷ copying ∷ []) (mutate-In w.cluster copying (cp_to _ _ _) refl refl)
        (λ k. push_all-In files)

  push_packed-In :
      (p : Packed)
      → Leads
          (In (sharding ∷ []))
          (In (sharding ∷ copying ∷ []))
          (Until copying)
          (push_packed w c false p)
  unfolding push_packed
  push_packed-In Packed.value_error = raise-In copying value_error refl
  push_packed-In Packed.index_error = raise-In copying index_error refl
  push_packed-In (packed bins sizes) =
      bind-In (sharding ∷ copying ∷ [])
        (Leads-weaken (write_all-In _) (λ calls i. In-include (sharding ∷ []) _ calls refl i)
          (λ calls r. r))
        (λ _. push_all-In _)

  shard_listing-In :
      (lines : List Text)
      → Leads
          (In (sharding ∷ []))
          (In (sharding ∷ copying ∷ []))
          (Until copying)
          (shard_listing w c false lines)
  unfolding shard_listing
  shard_listing-In lines =
      Leads-if (is_nil (parse_tsv w.python lines)) (λ _. raise-In copying (exits 1) refl)
        (λ _. push_packed-In _)

  shard_locally-In :
      Leads
        (In (listed ∷ []))
        (In (sharding ∷ copying ∷ []))
        (Until copying)
        (shard_locally w c false)
  unfolding shard_locally step
  shard_locally-In =
      bind-In (sharding ∷ []) (exec_in-In w.cluster copying _ _ refl refl)
        (λ lines. shard_listing-In lines)

  list_source-In :
      Leads (In (ready ∷ [])) (In (listed ∷ [])) (Until copying) (list_source w c false)
  unfolding list_source step
  list_source-In =
      bind-In (listed ∷ []) (exec_in-In w.cluster copying _ _ refl refl) (λ out. Leads-pure)

  -- Whatever stops the preparation, it stops before the launch.
  pub prepare-In :
      Leads (In (checking ∷ [])) (In (sharding ∷ copying ∷ [])) (Until copying) (prepare w c false)
  unfolding prepare step step_apply
  prepare-In =
      bind-In (counted ∷ unclassed ∷ classed ∷ [])
        (preflight-In false (counted ∷ unclassed ∷ classed ∷ []) (Until copying)
          (Until-later counted copying refl) refl (mutate-In w.cluster copying _ refl refl))
        (λ _. bind-In (secured ∷ []) (apply-In w.cluster copying _ _ part_of-secret refl refl) (λ _.
          bind-In (secured ∷ bound ∷ []) apply_pv-In (λ _.
            bind-In (claimed ∷ []) (apply-In w.cluster copying _ _ part_of-pvc refl refl) (λ _.
              bind-In (created ∷ []) (apply-In w.cluster copying _ _ part_of-master_pod refl refl)
                (λ _.
                  bind-In (ready ∷ [])
                    (mutate-In w.cluster copying (wait_ready c.master_pod_name) refl refl)
                    (λ _. bind-In (listed ∷ []) list_source-In (λ _. shard_locally-In)))))))
