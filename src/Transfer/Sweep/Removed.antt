-- ===== src/Transfer/Sweep/Removed.antt =====
-- sweep.py: the removal of the workers of each point is asked for before the next shards.
use solutions_library.Prelude.{
  Bool-cases, inl, inr, ℕ, zero, suc, ◌≡◌, refl, Bool, true, false, not, List, [], ◌∷◌,
}
use solutions_library.Prelude.Text.{Text}
use solutions_library.Prelude.Int.{ℤ}
use solutions_library.Prelude.Json.{Json}
use solutions_library.Prelude.Calls.Yields.{Gives}
use solutions_library.Prelude.Calls.Leads.{
  Leads-bind, Leads-pure, Leads-if, Leads-option, Leads-raise, Leads-after,
}
use solutions_library.Prelude.Calls.Follow.{follow}
use solutions_library.Transfer.Shard.{Packed, packed}
use solutions_library.Transfer.Config.{Config}
use solutions_library.Transfer.Sizing.{Sizing, compute_sizing}
use solutions_library.Transfer.Kubectl.{apply, cp_to, wait_ready, write_file, write_row, mutate}
use solutions_library.Transfer.Run.{World, write_all, push_all}
use solutions_library.Transfer.Run.Stages.{Part, part_of}
use solutions_library.Transfer.Run.Followed.{
  part_of-secret, part_of-pvc, part_of-master_pod, part_of-worker_pod,
}
use solutions_library.Transfer.Run.Promises.{is_worker}
use solutions_library.Transfer.Collect.{Meter}
use solutions_library.Transfer.Grid.{point, floats_of, grid}
use solutions_library.Transfer.Sweep.{
  SweepArgs, make_master, list_sample, ensure_base, replace_shards, reshard, apply_workers,
  start_workers, measure, run_point, sweep_transfers, sweep_mts, sweep_ppn, sweep, main,
}
use solutions_library.Transfer.Sweep.Fleet.{
  IsRunning, IsAllowed, Down, Kept, down, call-Down, mutate-Down, mutate-Kept, exec_in-Down,
  exists-Down, delete-Down, or_raise-Down, or_raise-Kept,
}
use solutions_library.Transfer.Sweep.Collected.{collect-Kept}

module _ {F : Type 0} (w : World F) (m : Meter F) (args : SweepArgs) (c : Config F) where
  apply-Down :
      (doc : Json) (p : Part)
      → part_of doc ≡ p
      → is_worker p ≡ false
      → Down (mutate w.cluster false (apply doc))
  apply-Down doc p e other = mutate-Down w.cluster (apply doc) (rw e (rw other refl))

  make_master-Down : (found : Bool) → Down (make_master w m args c found)
  unfolding make_master
  make_master-Down found =
      Leads-if found (λ _. Leads-pure)
        (λ _.
          Leads-bind (apply-Down _ _ (part_of-master_pod w c) refl)
            (λ u. mutate-Down w.cluster (wait_ready _) refl))

  list_sample-Down : Down (list_sample w m args c)
  unfolding list_sample
  list_sample-Down = Leads-bind (exec_in-Down w.cluster _ _) (λ out. Leads-pure)

  ensure_base-Down : Down (ensure_base w m args c)
  unfolding ensure_base
  ensure_base-Down = Leads-bind (apply-Down _ _ (part_of-secret w c) refl) (λ u.
      Leads-bind (apply-Down _ _ (part_of-pvc w c) refl) (λ u.
        Leads-bind (exists-Down w.cluster _) (λ found.
          Leads-bind (make_master-Down found)
            (λ u. Leads-if args.do_list (λ _. list_sample-Down) (λ _. Leads-pure)))))

  write_all-Down : (files : List (Text × Text)) → Down (write_all w c files)
  unfolding write_all
  write_all-Down [] = Leads-pure
  write_all-Down ((path, content) ∷ files) =
      Leads-bind (call-Down w.cluster (write_file path content) refl) (λ k. write_all-Down files)

  push_all-Down : (files : List (Text × Text)) → Down (push_all w c false files)
  unfolding push_all
  push_all-Down [] = Leads-pure
  push_all-Down ((path, content) ∷ files) =
      Leads-bind (mutate-Down w.cluster (cp_to _ _ _) refl) (λ u. push_all-Down files)

  replace_shards-Down : (p : Packed) → Down (replace_shards w m args c p)
  unfolding replace_shards
  replace_shards-Down Packed.value_error = Leads-raise down
  replace_shards-Down Packed.index_error = Leads-raise down
  replace_shards-Down (packed bins sizes) =
      Leads-bind (write_all-Down _)
        (λ u. Leads-bind (exec_in-Down w.cluster _ _) (λ out. push_all-Down _))

  reshard-Down : (n : ℤ) → Down (reshard w m args c n)
  unfolding reshard
  reshard-Down n = Leads-bind (exec_in-Down w.cluster _ _) (λ lines. replace_shards-Down _)

  apply_workers-Kept : (z : Sizing F) (i n : ℕ) → Kept (apply_workers w m args c z i n)
  unfolding apply_workers
  apply_workers-Kept z i zero = Leads-pure
  apply_workers-Kept z i (suc n) =
      Leads-bind
        (mutate-Kept w.cluster (apply _) (λ b. true) (λ b. rw (part_of-worker_pod w c z [] i) refl))
        (λ u. apply_workers-Kept z (suc i) n)

  start_workers-Kept : (z : Sizing F) → Kept (start_workers w m args c z)
  unfolding start_workers
  start_workers-Kept z = apply_workers-Kept z 0 _

  measure-Down : (z : Sizing F) (out : Text) → Down (measure w m args c z out)
  unfolding measure
  measure-Down z out = Leads-after down (
      Leads-bind (start_workers-Kept z) (λ u.
        Leads-bind (collect-Kept w.cluster m w.rounds out args.max_seconds) (λ cells.
          Leads-bind (or_raise-Kept (floats_of w.floats.float_of cells))
            (λ vals. Leads-bind (delete-Down w.cluster) (λ u. Leads-pure)))))

module _ {F : Type 0} (w : World F) (m : Meter F) (args : SweepArgs) (c : Config F) where
  run_point-Down : (t mts ppn : ℤ) (dest : Text) → Down (run_point w m args c t mts ppn dest)
  unfolding run_point
  run_point-Down t mts ppn dest =
      let c' = point c t mts ppn dest in
      Leads-option (compute_sizing w.floats c') (Leads-raise down)
        (λ z. Leads-bind (measure-Down w m args c' z _) (λ r. Leads-pure))

  sweep_transfers-Down : (ppn mts : ℤ) (ts : List ℤ) → Down (sweep_transfers w m args c ppn mts ts)
  unfolding sweep_transfers
  sweep_transfers-Down ppn mts [] = Leads-pure
  sweep_transfers-Down ppn mts (t ∷ ts) = Leads-bind (run_point-Down t mts ppn _) (λ r.
      Leads-bind (call-Down w.cluster (write_row _ _) refl) (λ k. sweep_transfers-Down ppn mts ts))

  sweep_mts-Down : (ppn : ℤ) (all_mts : List ℤ) → Down (sweep_mts w m args c ppn all_mts)
  unfolding sweep_mts
  sweep_mts-Down ppn [] = Leads-pure
  sweep_mts-Down ppn (mts ∷ rest) =
      Leads-bind (or_raise-Down (grid w.python args.transfers_grid))
        (λ ts. Leads-bind (sweep_transfers-Down ppn mts ts) (λ u. sweep_mts-Down ppn rest))

  sweep_ppn-Down : (all_ppn : List ℤ) → Down (sweep_ppn w m args c all_ppn)
  unfolding sweep_ppn
  sweep_ppn-Down [] = Leads-pure
  sweep_ppn-Down (ppn ∷ rest) = Leads-bind (reshard-Down w m args c _) (λ u.
      Leads-bind (or_raise-Down (grid w.python args.mts_grid))
        (λ all_mts. Leads-bind (sweep_mts-Down ppn all_mts) (λ u. sweep_ppn-Down rest)))

  sweep-Down : Down (sweep w m args c)
  unfolding sweep
  sweep-Down = Leads-bind (ensure_base-Down w m args c) (λ u.
      Leads-bind (call-Down w.cluster (write_file _ _) refl) (λ k.
        Leads-bind (call-Down w.cluster (write_row _ _) refl) (λ k.
          Leads-bind (or_raise-Down (grid w.python args.pods_per_node_grid))
            (λ all_ppn. Leads-bind (sweep_ppn-Down all_ppn) (λ u. Leads-pure)))))

-- Workers may run from the first manifest of a worker that is applied until the deletion of all
-- pods with their label is asked for, and none runs at first. Whatever the cluster answers, the old
-- shards are removed and the new ones are copied to the master pod only while none may run, and
-- where the sweep ends with an exit code, the deletion was asked for behind the last worker;
-- whether it succeeds is not part of the statement, as the code does not look at it. Where the
-- sweep ends by an exception, workers may be left.
pub main-IsAllowed :
    {F : Type 0} (w : World F) (m : Meter F) (args : SweepArgs) (c : Config F)
    → Gives (λ code. IsRunning false) IsAllowed (main w m args c [])
unfolding main follow
main-IsAllowed w m args c = elim (Bool-cases (not args.yes)) [
  | inl e ↦ rw e refl
  | inr e ↦ rw e ((sweep-Down w m args _).from [] refl)
]
