-- ===== src/Transfer/Run/Completes.antt =====
-- run.py: a transfer on a cluster in which everything goes well comes to its end.
use solutions_library.Prelude.{ℕ, ◌≡◌, refl, ◌∙◌, ap, true, false, not, ◌&&◌, some, [], is_nil}
use solutions_library.Prelude.Calls.{ok}
use solutions_library.Prelude.Calls.Yields.{Yields-bind, Yields-pure, Yields-if}
use solutions_library.Transfer.Config.{Config, is_nfs, is_import, validate}
use solutions_library.Transfer.Sizing.{Sizing, compute_sizing}
use solutions_library.Transfer.Run.{World, Args, confirm}
use solutions_library.Transfer.Run.Main.{apply_pv, prepare, launch, run_sized, run_with, main}
use solutions_library.Prelude.Calls.Finishes.{
  Ends, Finishes, Finishes-bind, Finishes-pure, value_of,
}
use solutions_library.Transfer.Run.Ends.{mutate-Finishes}
use solutions_library.Transfer.Run.Ready.{
  GoesWell, preflight-Finishes, list_source-Finishes, shard_locally-Finishes,
}
use solutions_library.Transfer.Run.Launched.{launch_workers-Finishes}
use solutions_library.Transfer.Run.Watched.{monitor-Finishes, teardown-Finishes}

module _ {F : Type 0} (w : World F) (c : Config F) (nodes pods last : ℕ)
    (well : GoesWell w c nodes pods last) where
  apply_pv-Finishes : Finishes (apply_pv w c false)
  unfolding apply_pv
  apply_pv-Finishes =
      Yields-if (is_nfs c) (λ _. mutate-Finishes w.cluster well.succeeds _ false)
        (λ _.
          Yields-if (is_import c) (λ _. mutate-Finishes w.cluster well.succeeds _ false)
            (λ _. Finishes-pure))

  prepare-Finishes : Finishes (prepare w c false)
  unfolding prepare
  prepare-Finishes = Finishes-bind (preflight-Finishes w c nodes pods last well) (λ u.
      Finishes-bind (mutate-Finishes w.cluster well.succeeds _ false) (λ u.
        Finishes-bind apply_pv-Finishes (λ u.
          Finishes-bind (mutate-Finishes w.cluster well.succeeds _ false) (λ u.
            Finishes-bind (mutate-Finishes w.cluster well.succeeds _ false) (λ u.
              Finishes-bind (mutate-Finishes w.cluster well.succeeds _ false) (λ u.
                Finishes-bind (list_source-Finishes w c nodes pods last well)
                  (λ u. shard_locally-Finishes w c nodes pods last well)))))))

  launch-Ends :
      (args : Args) (z : Sizing F)
      → args.dry_run ≡ false
      → Ends (λ code. code ≡ 0) (launch w c args z)
  unfolding launch
  launch-Ends args z real = rw real (
      Yields-bind (λ names calls. Unit) (launch_workers-Finishes w c nodes pods last well z)
        (λ names.
          Yields-bind (λ u calls. Unit) (monitor-Finishes w c nodes pods last well)
            (λ u.
              Yields-bind (λ u calls. Unit)
                (Yields-if args.keep (λ _. Finishes-pure)
                  (λ _. teardown-Finishes w c nodes pods last well))
                (λ u. Yields-pure (λ calls u. refl)))))

  run_sized-Ends :
      (args : Args) (z : Sizing F)
      → args.dry_run ≡ false
      → Ends (λ code. code ≡ 0) (run_sized w c args z)
  unfolding run_sized
  run_sized-Ends args z real = simp (real) (
      Yields-bind (λ u calls. Unit) prepare-Finishes
        (λ u.
          Yields-if (not args.yes && not (confirm w c)) (λ _. Yields-pure (λ calls u. refl))
            (λ _. launch-Ends args z real)))

-- With settings that are accepted, can be sized and ask for a positive number of pods, on a cluster
-- in which every call succeeds, as many nodes as wanted are ready, the listing has objects, and all
-- pods have ended by some call, the program exits with 0 after any number of rounds above the
-- number of that call. It is no dry run.
pub main-ok :
    {F : Type 0} (w : World F) (c : Config F) (args : Args) (z : Sizing F) (nodes pods last : ℕ)
    → GoesWell w c nodes pods last
    → is_nil (validate w.not_above_zero true c) ≡ true
    → compute_sizing w.floats c ≡ some z
    → args.dry_run ≡ false
    → (main w c args []).1 ≡ ok 0
unfolding main run_with
main-ok w c args z nodes pods last well accepted sized real =
    let (code, (e, zero_code)) =
      value_of (λ code calls. code ≡ 0) (run_sized w c args z [])
        ((run_sized-Ends w c nodes pods last well args z real).from [] tt) in
    simp (real, accepted, sized) (e ∙ ap ok zero_code)
