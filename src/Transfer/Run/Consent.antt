-- ===== src/Transfer/Run/Consent.antt =====
-- run.py: the run as a whole follows the pipeline, and stops where the user has not agreed.
use solutions_library.Prelude.{
  ℕ, zero, suc, ◌≡◌, refl, true, false, not, ◌&&◌, Option, none, some, List, [], ◌∷◌, length,
  select, is_nil,
}
use solutions_library.Prelude.Int.{pos, pos_part, leb_ℤ}
use solutions_library.Prelude.Text.{Text, codes, text_eq}
use solutions_library.Prelude.Json.{Json}
use solutions_library.Prelude.Sort.{sorted}
use solutions_library.Transfer.Shard.{text_le}
use solutions_library.Prelude.Calls.{◌>>◌, pure}
use solutions_library.Prelude.Calls.Leads.{
  Leads, Leads-bind, Leads-pure, Leads-if, Leads-weaken, Leads-after,
}
use solutions_library.Prelude.Calls.Yields.{Yields-out_of_fuel}
use solutions_library.Transfer.Config.{Config, effective_num_pods}
use solutions_library.Transfer.Sizing.{Sizing}
use solutions_library.Transfer.Kubectl.{
  Call, get_pods, logs, write_generated, Pod, exits, arithmetic_error, mutate,
}
use solutions_library.Transfer.Run.{
  World, Args, preflight, is_running, slice_to, confirm, launch_on, launch_from, launch_workers,
  report_failures, watch, monitor, teardown,
}
use solutions_library.Transfer.Run.Main.{run_sized, launch, write_documents, documents}
use solutions_library.Transfer.Run.Stages.{
  checking, counted, unclassed, sharding, copying, launching, watching, reporting, cleaning,
  cleaned, step, step_apply,
}
use solutions_library.Transfer.Run.Rules.{
  In, In-include, In-Until, Until, Until-later, call-In, checked-In, apply-In, list_ready_nodes-In,
  delete-In, pure-In, raise-In, bind-In,
}
use solutions_library.Transfer.Run.Followed.{part_of-worker_pod, preflight-In, prepare-In}

module _ {F : Type 0} (w : World F) (c : Config F) where
  launch_on-In :
      (z : Sizing F) (node : Option Text) (i : ℕ)
      → Leads
          (In (launching ∷ []))
          (In (launching ∷ []))
          (Until cleaned)
          (launch_on w c false z node i)
  unfolding launch_on step_apply
  launch_on-In z none i = raise-In cleaned arithmetic_error refl
  launch_on-In z (some node) i =
      bind-In (launching ∷ [])
        (apply-In w.cluster cleaned _ _ (part_of-worker_pod w c z _ i) refl refl) (λ _. Leads-pure)

  launch_from-In :
      (z : Sizing F) (chosen : List Text) (i n : ℕ)
      → Leads
          (In (launching ∷ []))
          (In (launching ∷ []))
          (Until cleaned)
          (launch_from w c false z chosen i n)
  unfolding launch_from
  launch_from-In z chosen i zero = Leads-pure
  launch_from-In z chosen i (suc n) =
      Leads-bind (launch_on-In z _ i)
        (λ name. Leads-bind (launch_from-In z chosen (suc i) n) (λ names. Leads-pure))

  launch_workers-In :
      (z : Sizing F)
      → Leads
          (In (sharding ∷ copying ∷ []))
          (In (launching ∷ []))
          (Until cleaned)
          (launch_workers w c false z)
  unfolding launch_workers step
  launch_workers-In z =
      bind-In (launching ∷ []) (list_ready_nodes-In w.cluster cleaned c.instance_class refl refl)
        (λ nodes.
          let chosen = slice_to c.num_nodes (sorted text_le nodes) in
          Leads-if (not (leb_ℤ c.num_nodes (pos (length chosen))))
            (λ _. raise-In cleaned (exits 1) refl)
            (λ _. launch_from-In z chosen 0 (pos_part (effective_num_pods c))))

  report_failures-In :
      (pods : List Pod)
      → Leads
          (In (watching ∷ reporting ∷ []))
          (In (watching ∷ reporting ∷ []))
          (Until cleaned)
          (report_failures w c pods)
  unfolding report_failures step
  report_failures-In [] = Leads-pure
  report_failures-In (p ∷ pods) =
      Leads-if (text_eq p.phase (codes "Failed"))
        (λ _.
          bind-In (watching ∷ reporting ∷ []) (call-In w.cluster (logs p.name) refl)
            (λ _. report_failures-In pods))
        (λ _. report_failures-In pods)

  watch-In :
      (n : ℕ)
      → Leads
          (In (launching ∷ watching ∷ []))
          (In (watching ∷ reporting ∷ []))
          (Until cleaned)
          (watch w c n)
  unfolding watch step
  watch-In zero = Yields-out_of_fuel (In-Until cleaned (launching ∷ watching ∷ []) refl)
  watch-In (suc n) =
      bind-In (watching ∷ []) (checked-In w.cluster cleaned (get_pods _) refl refl) (λ k.
        Leads-if (is_nil (select is_running (w.cluster.pods k)))
          (λ _.
            Leads-after (λ calls. In-include _ _ calls refl)
              (report_failures-In (w.cluster.pods k)))
          (λ _. Leads-after (λ calls. In-include _ _ calls refl) (watch-In n)))

  teardown-In :
      Leads
        (In (watching ∷ reporting ∷ []))
        (In (cleaned ∷ []))
        (Until cleaned)
        (teardown w c false)
  unfolding teardown step
  teardown-In =
      bind-In (cleaning ∷ []) (delete-In w.cluster [] _ refl)
        (λ _. delete-In w.cluster c.master_pod_name [] refl)

  launch-In :
      (args : Args) (z : Sizing F)
      → args.dry_run ≡ false
      → Leads (In (sharding ∷ copying ∷ [])) (Until cleaned) (Until cleaned) (launch w c args z)
  unfolding launch monitor
  launch-In args z real = rw real (
      bind-In (launching ∷ []) (launch_workers-In z) (λ names.
        bind-In (watching ∷ reporting ∷ [])
          (Leads-after (λ calls. In-include _ _ calls refl) (watch-In w.rounds))
          (λ _.
            bind-In (watching ∷ reporting ∷ cleaned ∷ [])
              (Leads-if args.keep (λ _. pure-In w.cluster tt refl)
                (λ _. Leads-weaken teardown-In (λ calls. In-include _ _ calls refl) (λ calls r. r)))
              (λ _.
                Leads-weaken (pure-In w.cluster 0 refl)
                  (In-Until cleaned (watching ∷ reporting ∷ cleaned ∷ []) refl) (λ calls r. r)))))

  write_documents-In :
      {R : List Call → Type 0} (docs : List (Text × Json))
      → Leads (In (checking ∷ [])) (In (checking ∷ [])) R (write_documents w c docs)
  unfolding write_documents step
  write_documents-In [] = Leads-pure
  write_documents-In ((name, doc) ∷ docs) =
      bind-In (checking ∷ []) (call-In w.cluster (write_generated name doc) refl)
        (λ _. write_documents-In docs)

  dry-In :
      (z : Sizing F)
      → Leads
          (In (checking ∷ []))
          (Until unclassed)
          (Until unclassed)
          (write_documents w c (documents w c z) >> (preflight w c true >> pure {A = ℕ} 0))
  unfolding mutate
  dry-In z = bind-In (checking ∷ []) (write_documents-In (documents w c z)) (λ _.
      bind-In (counted ∷ unclassed ∷ [])
        (preflight-In w c true _ _ (Until-later counted unclassed refl) refl
          (pure-In w.cluster tt refl))
        (λ _.
          Leads-weaken (pure-In w.cluster 0 refl)
            (In-Until unclassed (counted ∷ unclassed ∷ []) refl) (λ calls r. r)))

  pub run_dry-In :
      (args : Args) (z : Sizing F)
      → args.dry_run ≡ true
      → Leads (In (checking ∷ [])) (Until unclassed) (Until unclassed) (run_sized w c args z)
  unfolding run_sized
  run_dry-In args z e = simp (e) (dry-In z)

  pub run_unconfirmed-In :
      (args : Args) (z : Sizing F)
      → args.dry_run ≡ false
      → not args.yes && not (confirm w c) ≡ true
      → Leads (In (checking ∷ [])) (Until copying) (Until copying) (run_sized w c args z)
  unfolding run_sized
  run_unconfirmed-In args z e f =
      simp (e, f)
        (bind-In (sharding ∷ copying ∷ []) (prepare-In w c) (λ _.
          Leads-weaken (pure-In w.cluster 0 refl) (In-Until copying (sharding ∷ copying ∷ []) refl)
            (λ calls r. r)))

  pub run_confirmed-In :
      (args : Args) (z : Sizing F)
      → args.dry_run ≡ false
      → Leads (In (checking ∷ [])) (Until cleaned) (Until cleaned) (run_sized w c args z)
  unfolding run_sized
  run_confirmed-In args z e = simp (e) (
      bind-In (sharding ∷ copying ∷ [])
        (Leads-weaken (prepare-In w c) (λ calls q. q) (Until-later copying cleaned refl))
        (λ _.
          Leads-if (not args.yes && not (confirm w c))
            (λ _.
              Leads-weaken (pure-In w.cluster 0 refl)
                (In-Until cleaned (sharding ∷ copying ∷ []) refl) (λ calls r. r))
            (λ _. launch-In args z e)))
