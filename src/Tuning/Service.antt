-- ===== src/Tuning/Service.antt =====
-- crusoe-managed-finetuning-example/run.py: what a run exchanges with the service, the user and the
-- disk. Each exchange is a value of `Call`, with the answer where the answer gives an id; the world
-- answers by the number of the call. What is printed is left out.
use solutions_library.Prelude.{
  ℕ, Bool, Option, none, some, List, [], ◌∷◌, ◌++◌, if◌then◌else◌, length, is_nil,
}
use solutions_library.Prelude.Text.{Text}
use solutions_library.Prelude.Dict.{Dict}
use solutions_library.Prelude.Json.{Json}
use solutions_library.Prelude.Calls.{ok, raised, Run, pure, raise, ◌>>=◌}
use solutions_library.Tuning.Cache.{Codec}
use solutions_library.Tuning.Polls.{Round}
use solutions_library.Tuning.State.{Config, Job}
use solutions_library.Tuning.Runtime.{
  Builtins, Menu, ask, input_pick, input_multi, input_confirm, input_text,
}

pub data Call : Type 0 where
  prompt : Call
  -- the state file, with the time and the settings that are saved
  write_state : Text → Config → Call
  -- an attempt to write it, which raises an exception
  write_failed : Call
  remove_state : Call
  read_catalog : Call
  list_models list_files : Call
  retrieve_file : Json → Call
  check_file : Text → Call
  -- the path, and the id of the file
  create_file : Text → Option Text → Call
  delete_file : Text → Call
  -- the arguments, and the id of the job
  create_job : Dict Json → Option Text → Call
  retrieve_job : Json → Call
  cancel_job : Json → Call
  poll_job : Json → Call
  await_model : Json → Call
  list_checkpoints : Json → Call
  download : Json → Call

pub record Model : Type 0 where
  pub id : Text
  pub model_name : Text

pub record FileObject : Type 0 where
  pub id : Text
  pub filename : Text
  pub bytes : ℕ
  pub created_at : ℕ
  pub purpose : Text

-- The response to a download: its status, and whether the archive could be written and extracted.
pub record Response : Type 0 where
  pub status_code : ℕ
  pub extracts : Bool

-- `none` is an exception of the service throughout.
pub record World (F : Type 0) : Type 0 where
  pub builtins : Builtins F
  pub codec : Codec
  -- the terminal
  pub kernel : Bool
  pub isatty : Bool
  pub questionary : Bool
  pub select : ℕ → List Text → Menu Text
  pub checkbox : ℕ → List Text → Menu (List Text)
  pub confirms : ℕ → Bool → Menu Bool
  pub texts : ℕ → Text → Menu Text
  pub typed : ℕ → List Text
  -- the disk and the clock
  pub now : ℕ → Text
  pub time : ℕ → ℕ
  pub strftime : ℕ → Text
  pub writable : ℕ → Bool
  pub exists : ℕ → Text → Bool
  pub path_join : Text → Text → Text
  pub swagger : ℕ → Option Json
  -- the service
  pub models : ℕ → Option (List Model)
  pub files : ℕ → Option (List FileObject)
  pub file : ℕ → Option FileObject
  pub file_created : ℕ → Option Text
  pub file_deleted : ℕ → Bool
  pub job_created : ℕ → Option Text
  pub job : ℕ → Option Job
  pub rounds : ℕ → List Round
  pub registration : ℕ → Option (ℕ → Json)
  pub checkpoints : ℕ → Option ℕ
  pub response : ℕ → Option Response

-- How a run stops: `sys.exit` with a status, a `WorkflowError`, or another exception.
pub data Stop : Type 0 where
  exits : ℕ → Stop
  workflow_error : Stop
  other_error : Stop

abbrev pub Action : Type 0 → Type 0
Action A = Run Call Stop A

-- A value, or else an exception.
abbrev pub or_error : {A : Type 0} → Option A → Action A
or_error none = raise other_error
or_error (some a) = pure a

-- The number of the call.
unfoldable pub call : Call → Action ℕ
call c calls = (calls ++ (c ∷ []), ok (length calls))

module _ {F : Type 0} (w : World F) where
  unfoldable pub abort : {A : Type 0} → ℕ → Action A
  abort status = if w.kernel then raise workflow_error else raise (exits status)

  abbrev pub or_abort : {A : Type 0} → Option A → Action A
  or_abort none = abort 1
  or_abort (some a) = pure a

  unfoldable pub pick : List Text → Action Text
  pick options = if is_nil options then raise other_error else (do
    k ← call prompt
    or_abort (
        ask w.isatty w.questionary (w.select k options)
          (input_pick w.builtins options (w.typed k))))

  unfoldable pub confirm : Bool → Action Bool
  confirm default = do
    k ← call prompt
    or_abort (
        ask w.isatty w.questionary (w.confirms k default)
          (input_confirm w.builtins default (w.typed k)))

  unfoldable pub text : Text → Action Text
  text default = do
    k ← call prompt
    or_abort
        (ask w.isatty w.questionary (w.texts k default) (input_text w.builtins default (w.typed k)))

  unfoldable pub multi_pick : List Text → Action (List Text)
  multi_pick options = if is_nil options then raise other_error else (do
    k ← call prompt
    or_abort (
        ask w.isatty w.questionary (w.checkbox k options)
          (input_multi w.builtins options (w.typed k))))

  -- `config.save()`, which raises an exception where the state file cannot be written.
  unfoldable pub save_state : Config → Action (Unit {0})
  save_state c calls =
      if w.writable (length calls)
      then (calls ++ (write_state (w.now (length calls)) c ∷ []), ok tt)
      else (calls ++ (write_failed ∷ []), raised other_error)
