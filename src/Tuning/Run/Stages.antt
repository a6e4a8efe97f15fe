-- ===== src/Tuning/Run/Stages.antt =====
-- run.py, in the abstract: what a run does to the account and to its state file, as the stages that
-- it goes through and the calls that each of them allows. The id of what is created is saved by the
-- next call, or cannot be saved, and there is one job at most. Behind a failure to write the state
-- file there is no call.
use solutions_library.Prelude.{Bool, false, Option, none, some, if◌then◌else◌}
use solutions_library.Prelude.Text.{Text, codes}
use solutions_library.Prelude.Json.{Json, elements}
use solutions_library.Tuning.Swagger.{has_str, is_str, get}
use solutions_library.Tuning.Service.{
  Call, prompt, write_state, write_failed, remove_state, read_catalog, list_models, list_files,
  retrieve_file, check_file, create_file, delete_file, create_job, retrieve_job, cancel_job,
  poll_job, await_model, list_checkpoints, download,
}

pub data Stage : Type 0 where
  -- no job is launched
  choosing : Stage
  -- a file, and the job, with an id that is not saved yet
  uploaded : Text → Stage
  launched : Text → Stage
  -- the job is in the state file
  running : Text → Stage
  -- it was to be cancelled, and the state file was removed
  cancelling closed : Stage
  -- the state file could not be written
  broken : Stage

-- The stages in which a run may end: a job that was created is in the state file, unless that could
-- not be written, and behind a cancel the state file was removed.
abbrev pub is_steady : Stage → Bool
is_steady (launched id) = false
is_steady cancelling = false
is_steady _ = Bool.true

abbrev pub lists_id : Text → Json → Bool
lists_id id (Json.arr xs) = has_str id (elements xs)
lists_id id _ = false

-- Reading and asking change nothing.
abbrev pub is_passive : Call → Bool
is_passive prompt = Bool.true
is_passive read_catalog = Bool.true
is_passive list_models = Bool.true
is_passive list_files = Bool.true
is_passive (retrieve_file id) = Bool.true
is_passive (check_file path) = Bool.true
is_passive _ = false

-- Neither do the calls that follow a job.
abbrev pub is_following : Call → Bool
is_following (retrieve_job id) = Bool.true
is_following (poll_job id) = Bool.true
is_following (await_model id) = Bool.true
is_following (list_checkpoints id) = Bool.true
is_following (download model) = Bool.true
is_following (delete_file id) = Bool.true
is_following c = is_passive c

-- The stage behind a call, where the stage allows it.
unfoldable pub step : Stage → Call → Option Stage
step choosing (create_file path (some id)) = some (uploaded id)
step choosing (create_file path none) = some choosing
step choosing (create_job kwargs (some id)) = some (launched id)
step choosing (create_job kwargs none) = some choosing
step choosing (write_state now c) = some choosing
step choosing write_failed = some broken
step choosing c = if is_passive c then some choosing else none
step (uploaded id) (write_state now c) =
    if lists_id id (get (codes "uploaded_file_ids") c) then some choosing else none
step (uploaded id) write_failed = some broken
step (launched id) write_failed = some broken
step (running id) write_failed = some broken
step (launched id) (write_state now c) =
    if is_str id (get (codes "job_id") c) then some (running id) else none
step (running id) (write_state now c) =
    if is_str id (get (codes "job_id") c) then some (running id) else none
step (running id) (cancel_job job) = some cancelling
step (running id) c = if is_following c then some (running id) else none
step cancelling remove_state = some closed
step s c = none
