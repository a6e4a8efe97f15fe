-- ===== src/Tuning/Run/Launch.antt =====
-- run.py: the steps up to the job. Where they come to their end, there is a job that is recorded,
-- which is that of an earlier run, where there is one.
use solutions_library.Prelude.{
  ◌≡◌, refl, Bool, true, false, Option, none, some, List, [], ◌∷◌, ◌++◌, length, arith,
}
use solutions_library.Prelude.Text.{Text, codes, text_eq, text_eq_refl}
use solutions_library.Prelude.Dict.{Dict, insert}
use solutions_library.Prelude.Json.{Json}
use solutions_library.Prelude.Calls.Yields.{
  Gives, Yields, Yields-bind, Yields-pure, Yields-fact, Yields-after, Yields-weaken,
}
use solutions_library.Tuning.Swagger.{get}
use solutions_library.Tuning.State.{
  Config, resume_from_job, resolve_train_id, resolve_val_id, should_launch_job,
}
use solutions_library.Tuning.State.Attributes.{get-insert}
use solutions_library.Tuning.Service.{
  World, Call, list_files, create_job, write_state, FileObject, or_error,
}
use solutions_library.Tuning.Overrides.{Session}
use solutions_library.Tuning.Selection.{select_file, select_training_file, select_validation_file}
use solutions_library.Tuning.Run.{
  choose_files, job_create_kwargs, jobs_create, record_job, launch_job,
}
use solutions_library.Tuning.Run.Stages.{Stage, choosing, launched, running, step}
use solutions_library.Tuning.Run.Rules.{
  Phase, before, resumed, with_job, At, IsAllowed, Ready, Keeps, At-snoc, call-At, Stays-then,
  Keeps-then, KeepsWith-then, Stays-or_error,
}
use solutions_library.Tuning.Run.Saving.{save_config-At}
use solutions_library.Tuning.Run.Choices.{gather-Keeps, confirm_create_job-Keeps}
use solutions_library.Tuning.Run.Files.{step_list_files, check_saved-Keeps, select_file-Keeps}

-- The phases in which a run can begin.
abbrev pub IsFirst : Phase → Type 0
IsFirst before = Unit
IsFirst (resumed id) = Unit
IsFirst (with_job id) = ⊥

module _ {F : Type 0} (w : World F) (first : Stage) where
  resolved-Keeps :
      (attr path_attr : Text) (allow_skip : Bool) (o : Json × Bool) (p : Phase) (s : Session)
      (files : List FileObject)
      → o.1 ≡ true
      → Keeps first p s (select_file w attr path_attr allow_skip o s files)
  unfolding select_file
  resolved-Keeps attr path_attr allow_skip (id, true) p s files e = check_saved-Keeps w first p s id
  resolved-Keeps attr path_attr allow_skip (id, false) p s files e = absurd (cc e)

  resolve_train_id-resumed : (c : Config) → resume_from_job c ≡ true → (resolve_train_id c).1 ≡ true
  unfolding resolve_train_id
  resolve_train_id-resumed c e = rw e refl

  resolve_val_id-resumed : (c : Config) → resume_from_job c ≡ true → (resolve_val_id c).1 ≡ true
  unfolding resolve_val_id
  resolve_val_id-resumed c e = rw e refl

  training-Keeps :
      (p : Phase) (s : Session) (files : List FileObject)
      → IsFirst p
      → Keeps first p s (select_training_file w s files)
  unfolding select_training_file text_eq
  training-Keeps before s files i = select_file-Keeps w first _ _ _ _ s files refl
  training-Keeps (resumed id) s files i = Yields-fact (λ a.
      Yields-after (λ calls h. (a, h))
        (resolved-Keeps _ _ _ _ (resumed id) s files (resolve_train_id-resumed s.config a.1)))
  training-Keeps (with_job id) s files i = elim i [ ]

  validation-Keeps :
      (p : Phase) (s : Session) (files : List FileObject)
      → IsFirst p
      → Keeps first p s (select_validation_file w s files)
  unfolding select_validation_file text_eq
  validation-Keeps before s files i = select_file-Keeps w first _ _ _ _ s files refl
  validation-Keeps (resumed id) s files i = Yields-fact (λ a.
      Yields-after (λ calls h. (a, h))
        (resolved-Keeps _ _ _ _ (resumed id) s files (resolve_val_id-resumed s.config a.1)))
  validation-Keeps (with_job id) s files i = elim i [ ]

  pub choose_files-Keeps :
      (p : Phase) (s : Session) → IsFirst p → Keeps first p s (choose_files w s)
  unfolding choose_files
  choose_files-Keeps p s i =
      Stays-then first p s (call-At first _ _ list_files (step_list_files p)) (λ k.
        Stays-then first p s (Stays-or_error first p (w.files k)) (λ files.
          Keeps-then first p s (training-Keeps p s files i) (λ s'. validation-Keeps p s' files i)))

  -- Some job is recorded.
  abbrev pub Launched : Session → List Call → Type 0
  Launched s calls = (id : Text) × Ready first (with_job id) s calls

  created-At :
      (calls : List Call) (kwargs : Dict Json) (id : Option Text)
      → At first choosing calls
      → Gives
          (λ id. At first (launched id))
          (IsAllowed first)
          (or_error id (calls ++ (create_job kwargs id ∷ [])))
  unfolding step
  created-At calls kwargs none h = (choosing, refl, At-snoc first choosing choosing calls _ refl h)
  created-At calls kwargs (some id) h = At-snoc first choosing (launched id) calls _ refl h

  jobs_create-At :
      (kwargs : Dict Json)
      → Yields
          (At first choosing)
          (λ id. At first (launched id))
          (IsAllowed first)
          (jobs_create w kwargs)
  unfolding jobs_create
  jobs_create-At kwargs = record {
    from = λ calls h. created-At calls kwargs (w.job_created (length calls)) h;
  }

  -- The id of the job is among the settings that are saved.
  recorded :
      (id : Text) (c : Config)
      → get (codes "job_id") (
          insert
            (codes "job_status")
            (Json.str (codes "queued"))
            (insert (codes "job_id") (Json.str id) c))
        ≡ Json.str id
  unfolding text_eq
  recorded id c = ground (
    arith,
    get-insert (codes "job_status") (codes "job_id") (Json.str (codes "queued"))
        (insert (codes "job_id") (Json.str id) c),
    get-insert (codes "job_id") (codes "job_id") (Json.str id) c,
  )

  step_launched :
      (id : Text) (now : Text) (c : Config)
      → get (codes "job_id") c ≡ Json.str id
      → step (launched id) (write_state now c) ≡ some (running id)
  unfolding step
  step_launched id now c e = rw e (rw (text_eq_refl id) refl)

  record_job-Launched :
      (s : Session) (id : Text)
      → Yields (At first (launched id)) Launched (IsAllowed first) (record_job w s id)
  unfolding record_job step
  record_job-Launched s id =
      Yields-weaken
        (save_config-At w first s (launched id) (with_job id) _
          (λ now. step_launched id now _ (recorded id s.config)) refl (recorded id s.config))
        (λ s' calls h. (id, h)) (λ calls r. r)

  pub launch_job-Launched :
      (p : Phase) (s : Session)
      → IsFirst p
      → Yields (Ready first p s) Launched (IsAllowed first) (launch_job w s)
  unfolding launch_job should_launch_job
  launch_job-Launched (resumed id) s i =
      Yields-fact (λ a. rw a.1 (Yields-pure (λ calls h. (id, (a.0, h)))))
  launch_job-Launched before s i = Yields-fact (λ a. rw a (
      Yields-after (λ calls h. (a, h))
        (KeepsWith-then first before s (gather-Keeps w first before s) (λ r.
          Keeps-then first before r.0 (confirm_create_job-Keeps w first before r.0) (λ s'.
            Yields-fact (λ a'.
              Yields-bind (λ id. At first (launched id))
                (jobs_create-At (job_create_kwargs s'.config r.1))
                (λ id. record_job-Launched s' id)))))))
  launch_job-Launched (with_job id) s i = elim i [ ]
