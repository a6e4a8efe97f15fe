-- ===== src/Tuning/State.antt =====
-- crusoe-managed-finetuning-example/src/config.py: the settings of a run, and the file from which a
-- run is resumed. A `Config` is the dict of its attributes; that `hasattr` also finds its methods
-- is left out, and so are the prompts and what is printed. Writing the file is taken to succeed.
pub mod Attributes
pub mod Saved
pub mod Resumed
use solutions_library.Prelude.{
  Bool, true, false, Option, none, some, List, [], ◌∷◌, if◌then◌else◌, not, ◌&&◌, is_nil,
}
use solutions_library.Prelude.Options.{◌>>=◌}
use solutions_library.Prelude.Text.{Text, codes}
use solutions_library.Prelude.Dict.{Dict, contains, insert}
use solutions_library.Prelude.Json.{Json, null, entries, object, array}
use solutions_library.Tuning.Cache.{Codec}
use solutions_library.Tuning.Swagger.{is_truthy, as_dict, is_none, get}

abbrev pub Config : Type 0
Config = Dict Json

abbrev pub state_fields : List Text
state_fields =
    codes "model_id"
    ∷ codes "train_id"
    ∷ codes "val_id"
    ∷ codes "hyperparameters"
    ∷ codes "job_id"
    ∷ codes "job_status"
    ∷ codes "fine_tuned_model"
    ∷ codes "downloaded"
    ∷ codes "out_dir_path"
    ∷ codes "uploaded_file_ids"
    ∷ codes "created_at"
    ∷ codes "updated_at"
    ∷ []

-- A new `Config`.
abbrev pub defaults : Text → Config
defaults api_key =
    (codes "api_key", Json.str api_key)
    ∷ (codes "train_file", Json.str (codes "data/training_file.jsonl"))
    ∷ (codes "val_file", Json.str (codes "data/validation_file.jsonl"))
    ∷ (codes "suffix", Json.str (codes "crusoe-finetune-script"))
    ∷ (codes "poll_interval", Json.num 10)
    ∷ (codes "out_dir", Json.str (codes "outputs"))
    ∷ (codes "state_file_path", Json.str (codes ".crusoe-finetune-state.json"))
    ∷ (codes "swagger_cache_path", Json.str (codes ".crusoe-swagger.json"))
    ∷ (codes "resuming", Json.bool false)
    ∷ (codes "model_id", Json.str [])
    ∷ (codes "train_id", null)
    ∷ (codes "val_id", null)
    ∷ (codes "hyperparameters", object [])
    ∷ (codes "job_id", null)
    ∷ (codes "job_status", null)
    ∷ (codes "fine_tuned_model", null)
    ∷ (codes "downloaded", Json.bool false)
    ∷ (codes "out_dir_path", null)
    ∷ (codes "uploaded_file_ids", array [])
    ∷ (codes "created_at", null)
    ∷ (codes "updated_at", null)
    ∷ []

-- `{k: getattr(self, k) for k in ...}`
unfoldable pub state_of : List Text → Config → Dict Json
state_of [] c = []
state_of (k ∷ ks) c = (k, get k c) ∷ state_of ks c

-- A job as the service gives it: its status and its model, if it has one.
pub record Job : Type 0 where
  pub status : Text
  pub fine_tuned_model : Option Text

-- `if getattr(job, "fine_tuned_model", None):`
unfoldable pub set_model : Option Text → Dict Json → Dict Json
set_model none state = state
set_model (some model) state =
    if is_nil model then state else insert (codes "fine_tuned_model") (Json.str model) state

-- The fields of a saved job, brought up to date. `none` is an exception of the service.
unfoldable pub refresh_job : Option Job → Dict Json → Dict Json
refresh_job none state = state
refresh_job (some job) state =
    set_model job.fine_tuned_model (insert (codes "job_status") (Json.str job.status) state)

-- The loop that sets the attributes of a saved state.
unfoldable pub set_all : Dict Json → Config → Config
set_all [] c = c
set_all ((k, v) ∷ state) c =
    set_all state (if contains k c && not (is_none v) then insert k v c else c)

-- The state in a file that could be read; the argument `none` is the `JSONDecodeError`. A value
-- that is no object counts as no state where it is false, and else the first use of it raises.
unfoldable pub state_from : Option Json → Option (Dict Json)
state_from none = some []
state_from (some (Json.obj fs)) = some (entries fs)
state_from (some v) = if is_truthy v then none else some []

module _ (codec : Codec) where
  -- The content of the state file; `now` is the time as a text.
  unfoldable pub save : Text → Config → Text
  save now c =
      codec.dumps (object (insert (codes "updated_at") (Json.str now) (state_of state_fields c)))

  -- `none` is an exception: the file holds JSON that is true and no object.
  unfoldable pub load_state : Option Text → Option (Dict Json)
  load_state none = some []
  load_state (some content) = state_from (codec.loads content)

  -- A run that starts anew.
  unfoldable pub start : Text → Config → Config × Option Text
  start now c = let c' = insert (codes "created_at") (Json.str now) c in (c', some (save now c'))

  -- `if not self.resuming`, behind the loop, which can set this attribute too.
  unfoldable pub resumed : Text → Option Text → Config → Config × Option Text
  resumed now file c = if not (is_truthy (get (codes "resuming") c)) then start now c else (c, file)

  -- With the saved state: the answer of the user says whether to resume from it.
  unfoldable pub resume_from :
      Dict Json → Option Job → Bool → Text → Config → Option Text → Config × Option Text
  resume_from state job assent now c file =
      let state' =
        (if is_truthy (get (codes "job_id") state) then refresh_job job state else state) in
      if is_nil state
      then start now c
      else if assent
      then resumed now file (set_all state' (insert (codes "resuming") (Json.bool true) c))
      else start now c

  -- `prompt_resume`: the settings and the file behind it.
  unfoldable pub prompt_resume :
      Option Job → Bool → Text → Config → Option Text → Option (Config × Option Text)
  prompt_resume job assent now c file = do
    state ← load_state file
    some (resume_from state job assent now c file)

-- `bool(self.resuming and self.job_id)`
unfoldable pub resume_from_job : Config → Bool
resume_from_job c = is_truthy (get (codes "resuming") c) && is_truthy (get (codes "job_id") c)

unfoldable pub should_pick_model : Config → Bool
should_pick_model c = not (is_truthy (get (codes "model_id") c))

unfoldable pub resolve_train_id : Config → Json × Bool
resolve_train_id c =
    if resume_from_job c
    then (get (codes "train_id") c, true)
    else if is_truthy (get (codes "resuming") c) && is_truthy (get (codes "train_id") c)
    then (get (codes "train_id") c, true)
    else (null, false)

unfoldable pub resolve_val_id : Config → Json × Bool
resolve_val_id c =
    if resume_from_job c
    then (get (codes "val_id") c, true)
    else if is_truthy (get (codes "resuming") c) && not (is_none (get (codes "val_id") c))
    then (get (codes "val_id") c, true)
    else (null, false)

unfoldable pub should_gather_hyperparameter_overrides : Config → Bool
should_gather_hyperparameter_overrides c =
    not (resume_from_job c)
    && not (is_truthy (get (codes "resuming") c) && is_truthy (get (codes "hyperparameters") c))

unfoldable pub should_launch_job : Config → Bool
should_launch_job c = not (resume_from_job c)

unfoldable pub should_await_fine_tuned_model : Config → Bool
should_await_fine_tuned_model c =
    not (is_truthy (get (codes "resuming") c) && is_truthy (get (codes "fine_tuned_model") c))

-- `clear`: the file is removed.
unfoldable pub clear : Config → Config × Option Text
clear c = (
  insert (codes "resuming") (Json.bool false)
      (insert (codes "job_status") null (insert (codes "job_id") null c)),
  none,
)
