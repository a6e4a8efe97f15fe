-- ===== src/Transfer/Run/Promises.antt =====
-- run.py: what a run as a whole does to the cluster, and what it never does.
use solutions_library.Prelude.{
  ◌≤◌, ◌<◌, ◌≡◌, refl, ◌∙◌, Bool, true, false, not, Option, none, some, List, [], ◌∷◌, arith,
  is_nil, inl, inr, Bool-cases, Option-cases, All,
}
use solutions_library.Prelude.Calls.Leads.{Leads, Leads-if, Leads-weaken}
use solutions_library.Prelude.Calls.Yields.{Gives-all}
use solutions_library.Transfer.Config.{Config, validate}
use solutions_library.Transfer.Sizing.{Sizing, compute_sizing}
use solutions_library.Transfer.Kubectl.{
  Call, get_version, get_nodes, get_storage_class, write_generated, apply, delete_pods,
  arithmetic_error,
}
use solutions_library.Transfer.Run.{World, Args, confirm}
use solutions_library.Transfer.Run.Main.{main, run_with, run_sized}
use solutions_library.Prelude.Calls.Follow.{follow}
use solutions_library.Transfer.Run.Stages.{
  Part, worker, part_of, Stage, checking, unclassed, copying, cleaned, step, step_apply, rank,
  step_mono, step-apply,
}
use solutions_library.Transfer.Run.Rules.{
  In, In-Until, Until, Until-later, are_until, pure-In, raise-In,
}
use solutions_library.Transfer.Run.Consent.{run_dry-In, run_unconfirmed-In, run_confirmed-In}

module _ {F : Type 0} (w : World F) (c : Config F) (args : Args) (last : Stage) where
  early : are_until last (checking ∷ []) ≡ true
  early = ground arith

  run_with-Until :
      (z : Option (Sizing F))
      → ((z : Sizing F)
          → Leads (In (checking ∷ [])) (Until last) (Until last) (run_sized w c args z))
      → Leads (In (checking ∷ [])) (Until last) (Until last) (run_with w c args z)
  unfolding run_with
  run_with-Until none h = raise-In last arithmetic_error early
  run_with-Until (some z) h = h z

  main-Until :
      ((z : Sizing F) → Leads (In (checking ∷ [])) (Until last) (Until last) (run_sized w c args z))
      → Until last (main w c args []).0
  unfolding main follow
  main-Until h =
      let run : Leads (In (checking ∷ [])) (Until last) (Until last) (main w c args) =
        Leads-if (not (is_nil (validate w.not_above_zero (not args.dry_run) c)))
          (λ _.
            Leads-weaken (pure-In w.cluster 2 refl) (In-Until last (checking ∷ []) early)
              (λ calls r. r))
          (λ _. run_with-Until (compute_sizing w.floats c) h) in
      Gives-all (Until last) (main w c args [])
        (run.from [] (record { stage = checking; among = refl; followed = refl }))

module _ {F : Type 0} (w : World F) (c : Config F) (args : Args) where
  main_dry-Until : args.dry_run ≡ true → Until unclassed (main w c args []).0
  main_dry-Until e = main-Until w c args unclassed (λ z. run_dry-In w c args z e)

  main_unconfirmed-Until :
      args.yes ≡ false → confirm w c ≡ false → Until copying (main w c args []).0
  main_unconfirmed-Until n e = elim (Bool-cases args.dry_run) [
    | inl d ↦ Until-later unclassed copying refl _ (main_dry-Until d)
    | inr d ↦ main-Until w c args copying (λ z. run_unconfirmed-In w c args z d (ground arith))
  ]

  main_end-Until : Until cleaned (main w c args []).0
  main_end-Until = elim (Bool-cases args.dry_run) [
    | inl d ↦ Until-later unclassed cleaned refl _ (main_dry-Until d)
    | inr d ↦ main-Until w c args cleaned (λ z. run_confirmed-In w c args z d)
  ]

-- The calls have gone along the pipeline.
abbrev pub IsFollowed : List Call → Type 0
IsFollowed calls = (t : Stage) × (follow step checking calls ≡ some t)

-- The calls that change nothing in the cluster.
abbrev pub is_read : Call → Bool
is_read get_version = true
is_read (get_nodes _) = true
is_read (get_storage_class _) = true
is_read (write_generated _ _) = true
is_read _ = false

abbrev pub is_worker : Part → Bool
is_worker worker = true
is_worker _ = false

-- The calls that start a worker or remove pods.
abbrev pub is_launch : Call → Bool
is_launch (apply doc) = is_worker (part_of doc)
is_launch (delete_pods _ _) = true
is_launch _ = false

step_apply_late : (s t : Stage) (p : Part) → step_apply s p ≡ some t → rank unclassed < rank t
unfolding step_apply
step_apply_late s t p h = ground arith

step_apply_launches :
    (s t : Stage) (p : Part) → step_apply s p ≡ some t → rank t ≤ rank copying → is_worker p ≡ false
unfolding step_apply
step_apply_launches s t p h b = ground arith

step-is_read :
    (s t : Stage) (k : Call) → step s k ≡ some t → rank t ≤ rank unclassed → is_read k ≡ true
unfolding step
step-is_read s t (apply doc) h b =
    let late = step_apply_late s t (part_of doc) (step-apply s doc ∙ h) in absurd (omega arith)
step-is_read s t k h b = ground arith

step-is_launch :
    (s t : Stage) (k : Call) → step s k ≡ some t → rank t ≤ rank copying → is_launch k ≡ false
unfolding step
step-is_launch s t (apply doc) h b = step_apply_launches s t (part_of doc) (step-apply s doc ∙ h) b
step-is_launch s t k h b = ground arith

-- A condition on the calls that lead to an early stage holds of all calls of a run that ends early.
module _ (Good : Call → Type 0) (last : Stage)
    (each : (s t : Stage) (k : Call) → step s k ≡ some t → rank t ≤ rank last → Good k) where
  follow_early :
      (s t : Stage) (calls : List Call)
      → follow step s calls ≡ some t
      → rank t ≤ rank last
      → (rank s ≤ rank last) × All Good calls
  unfolding follow
  follow_early s t [] h b = ground arith
  follow_early s t (k ∷ calls) h b = elim (Option-cases (step s k)) [
    | inl e ↦ absurd (ground arith)
    | inr (u, e) ↦
        let (early, rest) = follow_early u t calls (ground arith) b in
        let mono = step_mono s u k e in (omega arith, (each s u k e early, rest))
  ]

  Until-All : (calls : List Call) → Until last calls → All Good calls
  Until-All calls u = (follow_early checking u.stage calls u.followed u.early).1

-- The cluster sees the calls in the order of the pipeline, whatever it answers, whatever the
-- settings and the flags, and however the run ends.
pub main-IsFollowed :
    {F : Type 0} (w : World F) (c : Config F) (args : Args) → IsFollowed (main w c args []).0
main-IsFollowed w c args = let u = main_end-Until w c args in (u.stage, u.followed)

-- With the flag for a dry run, the program only reads from the cluster and writes local files.
pub main_dry_run-is_read :
    {F : Type 0} (w : World F) (c : Config F) (args : Args)
    → args.dry_run ≡ true
    → All (λ k. is_read k ≡ true) (main w c args []).0
main_dry_run-is_read w c args e =
    Until-All (λ k. is_read k ≡ true) unclassed step-is_read _ (main_dry-Until w c args e)

-- Without the flag that agrees to all, and without an answer that agrees, the program starts no
-- worker pod and deletes no pod.
pub main_unconfirmed-is_launch :
    {F : Type 0} (w : World F) (c : Config F) (args : Args)
    → args.yes ≡ false
    → confirm w c ≡ false
    → All (λ k. is_launch k ≡ false) (main w c args []).0
main_unconfirmed-is_launch w c args n e =
    Until-All (λ k. is_launch k ≡ false) copying step-is_launch _
      (main_unconfirmed-Until w c args n e)
