-- ===== src/Tuning/Run/Promises.antt =====
-- run.py: what a run leaves in the account and in its state file.
use solutions_library.Prelude.{refl, []}
use solutions_library.Prelude.Calls.Yields.{
  Yields, Gives-all, Yields-bind, Yields-some, Yields-weaken,
}
use solutions_library.Prelude.Calls.Follow.{follow}
use solutions_library.Tuning.Service.{World}
use solutions_library.Tuning.Overrides.{Session}
use solutions_library.Tuning.Run.{run_steps}
use solutions_library.Tuning.Run.Stages.{running}
use solutions_library.Tuning.Run.Rules.{Phase, stage_of, Agrees, IsAllowed, Ready, Keeps-then}
use solutions_library.Tuning.Run.Choices.{choose_model-Keeps}
use solutions_library.Tuning.Run.Launch.{IsFirst, choose_files-Keeps, Launched, launch_job-Launched}
use solutions_library.Tuning.Run.Finish.{finish-Keeps}

module _ {F : Type 0} (w : World F) where
  pub steps-IsAllowed :
      (p : Phase) (s : Session)
      → IsFirst p
      → Yields
          (Ready (stage_of p) p s)
          (λ s' calls. IsAllowed (stage_of p) calls)
          (IsAllowed (stage_of p))
          (run_steps w s)
  unfolding run_steps
  steps-IsAllowed p s i =
      let first = stage_of p in
      Keeps-then first p s (choose_model-Keeps w first p s) (λ s₁.
        Keeps-then first p s₁ (choose_files-Keeps w first p s₁ i) (λ s₂.
          Yields-bind (Launched w first) (launch_job-Launched w first p s₂ i) (λ s₃.
            Yields-some (λ id.
              Yields-weaken (finish-Keeps w first id s₃) (λ s' calls h. (running id, refl, h.1))
                (λ calls r. r)))))

  pub run_steps-IsAllowed :
      (p : Phase) (s : Session)
      → IsFirst p
      → Agrees p s.config
      → IsAllowed (stage_of p) (run_steps w s []).0
  unfolding follow
  run_steps-IsAllowed p s i a =
      Gives-all (IsAllowed (stage_of p)) (run_steps w s [])
        ((steps-IsAllowed p s i).from [] (a, refl))
