-- ===== src/Tuning/Run.antt =====
-- crusoe-managed-finetuning-example/run.py: the steps of a run. The summary at its end only
-- prints.
pub mod Stages
pub mod Rules
pub mod Asking
pub mod Saving
pub mod Choices
pub mod Files
pub mod Launch
pub mod Waiting
pub mod Finish
pub mod Promises
pub mod Known
pub mod Recorded
pub mod Relaunch
pub mod Main
pub mod Again
use solutions_library.Prelude.{
  Bool, false, Option, none, some, List, [], ◌∷◌, ◌++◌, map, if◌then◌else◌, ◌&&◌, length,
}
use solutions_library.Prelude.Calls.{pure, raise, out_of_fuel, ◌>>=◌}
use solutions_library.Prelude.Sort.{sorted}
use solutions_library.Prelude.Text.{Text, codes, text_eq}
use solutions_library.Prelude.Dict.{Dict, insert}
use solutions_library.Prelude.Json.{Json, object, array}
use solutions_library.Transfer.Shard.{text_le}
use solutions_library.Tuning.Swagger.{is_truthy, get}
use solutions_library.Tuning.State.{Config, should_launch_job}
use solutions_library.Tuning.Polls.{
  is_terminal, Polled, returned, paused, cancelled, unsaved, at_work, poll_until_terminated,
}
use solutions_library.Tuning.Service.{
  World, Action, remove_state, list_files, delete_file, create_job, retrieve_job, cancel_job,
  poll_job, or_error, other_error, call, abort, confirm,
}
use solutions_library.Tuning.Overrides.{
  Session, save_config, gather_hyperparameter_overrides, confirm_create_job,
}
use solutions_library.Tuning.Adapter.{await_fine_tuned_model, fetch_adapter}
use solutions_library.Tuning.Selection.{
  uploaded_ids, choose_model, select_training_file, select_validation_file,
}

-- `config.job_status in constants.TERMINAL_STATUSES`
abbrev is_terminal_value : Json → Bool
is_terminal_value (Json.str status) = is_terminal status
is_terminal_value _ = false

-- A job that had come to its end when the run was resumed.
abbrev pub has_ended : Config → Bool
has_ended c = is_truthy (get (codes "resuming") c) && is_terminal_value (get (codes "job_status") c)

-- The arguments of the job, in which the validation file is left out where there is none.
unfoldable pub job_create_kwargs : Config → Json → Dict Json
job_create_kwargs c hyperparameters =
    (codes "model", get (codes "model_id") c)
    ∷ (codes "training_file", get (codes "train_id") c)
    ∷ (codes "suffix", get (codes "suffix") c)
    ∷ (
      codes "method",
      object (
          (codes "type", Json.str (codes "supervised"))
          ∷ (codes "supervised", object ((codes "hyperparameters", hyperparameters) ∷ []))
          ∷ []),
    )
    ∷ (if is_truthy (get (codes "val_id") c)
        then (codes "validation_file", get (codes "val_id") c) ∷ []
        else [])

module _ {F : Type 0} (w : World F) where
  -- `crusoe.fine_tuning.jobs.create(...)`
  unfoldable pub jobs_create : Dict Json → Action Text
  jobs_create kwargs calls =
      let id = w.job_created (length calls) in or_error id (calls ++ (create_job kwargs id ∷ []))

  unfoldable pub record_job : Session → Text → Action Session
  record_job s id = save_config w s (
      insert (codes "job_status") (Json.str (codes "queued"))
        (insert (codes "job_id") (Json.str id) s.config))

  -- Step 2
  unfoldable pub launch_job : Session → Action Session
  launch_job s =
      if should_launch_job s.config
      then (do
        (s', hyperparameters) ← gather_hyperparameter_overrides w s
        s'' ← confirm_create_job w s'
        id ← jobs_create (job_create_kwargs s''.config hyperparameters)
        record_job s'' id)
      else pure s

  -- How the wait for the job goes on.
  unfoldable pub end_poll : Session → Polled → Action Session
  end_poll s (returned status c) = do
    s' ← save_config w s c
    if text_eq status (codes "succeeded") then pure s' else abort w 1
  end_poll s (paused c) = do s' ← save_config w s c; abort w 0
  end_poll s (cancelled c) = do
    sent ← call (cancel_job (get (codes "job_id") s.config))
    removed ← call remove_state
    abort w 1
  end_poll s (unsaved from_service) = if from_service then raise other_error else abort w 1
  end_poll s at_work = out_of_fuel

  -- Step 3
  unfoldable pub poll_to_end : Session → Action Session
  poll_to_end s =
      if has_ended s.config
      then (do
        k ← call (retrieve_job (get (codes "job_id") s.config))
        job ← or_error (w.job k)
        pure s)
      else (do
        k ← call (poll_job (get (codes "job_id") s.config))
        end_poll s (poll_until_terminated (w.rounds k) none s.config))

  -- Deleting the files gives back those that remain.
  unfoldable pub delete_files : List Text → Action (List Text)
  delete_files [] = pure []
  delete_files (id ∷ ids) = do
    k ← call (delete_file id)
    remaining ← delete_files ids
    pure (if w.file_deleted k then remaining else id ∷ remaining)

  unfoldable pub delete_uploaded : Session → Option (List Text) → Action Session
  delete_uploaded s none = raise other_error
  delete_uploaded s (some ids) = do
    agreed ← confirm w false
    (if agreed
        then (delete_files (sorted text_le ids) >>= λ remaining.
            save_config w s
              (insert (codes "uploaded_file_ids") (array (map Json.str remaining)) s.config))
        else pure s)

  unfoldable pub cleanup : Session → Action Session
  cleanup s =
      if is_truthy (get (codes "uploaded_file_ids") s.config)
      then delete_uploaded s (uploaded_ids s.config)
      else pure s

  -- Step 1
  unfoldable pub choose_files : Session → Action Session
  choose_files s = do
    k ← call list_files
    files ← or_error (w.files k)
    s' ← select_training_file w s files
    select_validation_file w s' files

  -- The run behind `Config.load`.
  unfoldable pub run_steps : Session → Action Session
  run_steps s = do
    s₁ ← choose_model w s
    s₂ ← choose_files s₁
    s₃ ← launch_job s₂
    s₄ ← poll_to_end s₃
    s₅ ← await_fine_tuned_model w s₄
    s₆ ← fetch_adapter w s₅
    cleanup s₆
