-- ===== src/Tuning/Run/Waiting.antt =====
-- run.py: the wait for the job. It keeps the job in the state file, or cancels it and removes the
-- file.
use solutions_library.Prelude.{
  ◌≡◌, refl, true, false, Option, none, some, List, [], ◌∷◌, inl, inr, Bool-cases,
}
use solutions_library.Prelude.Text.{Text, codes, text_eq}
use solutions_library.Prelude.Json.{Json}
use solutions_library.Prelude.Calls.{◌>>=◌}
use solutions_library.Prelude.Calls.Yields.{
  Yields-bind, Yields-if, Yields-fact, Yields-after, Yields-out_of_fuel,
}
use solutions_library.Tuning.Swagger.{get}
use solutions_library.Tuning.State.{Config}
use solutions_library.Tuning.Polls.{
  Round, told, failed, interrupted, Polled, returned, paused, cancelled, unsaved, at_work,
  is_terminal, poll_until_terminated,
}
use solutions_library.Tuning.Service.{
  World, Call, remove_state, retrieve_job, cancel_job, poll_job, call, abort,
}
use solutions_library.Tuning.Overrides.{Session, save_config}
use solutions_library.Tuning.Run.{has_ended, end_poll, poll_to_end}
use solutions_library.Tuning.Run.Stages.{Stage, running, cancelling, closed, step}
use solutions_library.Tuning.Run.Rules.{
  Phase, with_job, Agrees, At, Stays, Keeps, call-At, Stays-then, Keeps-then, Keeps-pure,
  Stays-or_error, raise-Ready, abort-Ready, abort-Stops,
}
use solutions_library.Tuning.Run.Saving.{Agrees-insert, step_write, save_config-At, step_failed}

-- How a wait ends, with settings that still name the job.
abbrev NamesJob : Text → Polled → Type 0
NamesJob id (returned status c) = Agrees (with_job id) c
NamesJob id (paused c) = Agrees (with_job id) c
NamesJob id _ = Unit

poll-NamesJob :
    (id : Text) (rounds : List Round) (last : Option Text) (c : Config)
    → Agrees (with_job id) c
    → NamesJob id (poll_until_terminated rounds last c)
unfolding poll_until_terminated text_eq
poll-NamesJob id [] last c a = tt
poll-NamesJob id (told status ∷ rounds) last c a = elim (Bool-cases (is_terminal status)) [
  | inl e ↦ rw e (Agrees-insert (with_job id) (codes "job_status") (Json.str status) c refl a)
  | inr e ↦ rw e (poll-NamesJob id rounds (some status) c a)
]
poll-NamesJob id (failed ∷ rounds) last c a = tt
poll-NamesJob id (interrupted none ∷ rounds) last c a = tt
poll-NamesJob id (interrupted (some true) ∷ rounds) last c a =
    Agrees-insert (with_job id) (codes "job_status") _ c refl a
poll-NamesJob id (interrupted (some false) ∷ rounds) last c a = tt

module _ (first : Stage) (id : Text) where
  -- What follows the job changes nothing.
  pub Stays-call :
      (c : Call) → step (running id) c ≡ some (running id) → Stays first (with_job id) (call c)
  Stays-call c e = call-At first (running id) (running id) c e

module _ {F : Type 0} (w : World F) (first : Stage) (id : Text) where
  abbrev job : Phase
  job = with_job id

  pub save-Keeps : (s : Session) (c : Config) → Agrees job c → Keeps first job s (save_config w s c)
  save-Keeps s c a = Yields-fact (λ b.
      save_config-At w first s (running id) job c (λ now. step_write job now c a) (step_failed job)
        a)

  cancel-Keeps :
      (s : Session) (v : Json)
      → Keeps first job s
          (call (cancel_job v) >>= λ sent. call remove_state >>= λ removed. abort w 1)
  unfolding step
  cancel-Keeps s v = Yields-fact (λ a.
      Yields-bind (λ k. At first cancelling)
        (call-At first (running id) cancelling (cancel_job v) refl)
        (λ k.
          Yields-bind (λ k. At first closed) (call-At first cancelling closed remove_state refl)
            (λ k. abort-Stops first closed refl w 1)))

  end_poll-Keeps :
      (s : Session) (polled : Polled) → NamesJob id polled → Keeps first job s (end_poll w s polled)
  unfolding end_poll
  end_poll-Keeps s (returned status c) a = Keeps-then first job s (save-Keeps s c a) (λ s'.
      Yields-if (text_eq status (codes "succeeded")) (λ _. Keeps-pure first job s')
        (λ _. abort-Ready first job s' w 1))
  end_poll-Keeps s (paused c) a =
      Keeps-then first job s (save-Keeps s c a) (λ s'. abort-Ready first job s' w 0)
  end_poll-Keeps s (cancelled c) a = cancel-Keeps s _
  end_poll-Keeps s (unsaved true) a = raise-Ready first job s
  end_poll-Keeps s (unsaved false) a = abort-Ready first job s w 1
  end_poll-Keeps s at_work a = Yields-out_of_fuel (λ calls h. (running id, refl, h.1))

  pub poll_to_end-Keeps : (s : Session) → Keeps first job s (poll_to_end w s)
  unfolding poll_to_end step
  poll_to_end-Keeps s =
      Yields-if (has_ended s.config)
        (λ _.
          Stays-then first job s
            (Stays-call first id (retrieve_job (get (codes "job_id") s.config)) refl)
            (λ k.
              Stays-then first job s (Stays-or_error first job (w.job k))
                (λ j. Keeps-pure first job s)))
        (λ _.
          Stays-then first job s
            (Stays-call first id (poll_job (get (codes "job_id") s.config)) refl)
            (λ k. Yields-fact (λ a.
              Yields-after (λ calls h. (a, h))
                (end_poll-Keeps s _ (poll-NamesJob id (w.rounds k) none s.config a)))))
