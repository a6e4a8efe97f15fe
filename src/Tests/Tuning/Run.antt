-- ===== src/Tests/Tuning/Run.antt =====
-- The theorems on a run of crusoe-managed-finetuning-example at concrete inputs: a run that
-- launches a job, is interrupted, and is followed by another.
use solutions_library.Prelude.{
  ℕ, ◌≡◌, ◌≢◌, refl, true, false, Option, none, some, List, [], ◌∷◌, ◌++◌, All, select,
  if◌then◌else◌, ◌==◌,
}
use solutions_library.Prelude.Int.{ℤ, pos}
use solutions_library.Prelude.Text.{Text, codes, text_eq}
use solutions_library.Prelude.Dict.{Dict, lookup, insert}
use solutions_library.Prelude.Json.{Json, object, entries, fields}
use solutions_library.Prelude.Calls.{ok}
use solutions_library.Tuning.Swagger.{is_truthy, get}
use solutions_library.Tuning.State.{
  Config, defaults, save, prompt_resume, resume_from_job, should_pick_model, resolve_train_id,
  resolve_val_id, should_launch_job, should_gather_hyperparameter_overrides,
}
use solutions_library.Tuning.Polls.{told, interrupted, poll_until_terminated}
use solutions_library.Tuning.Runtime.{Builtins, Menu, broken}
use solutions_library.Tuning.Service.{World}
use solutions_library.Tuning.Service
use solutions_library.Tuning.Prompts
use solutions_library.Tuning.Overrides
use solutions_library.Tuning.Selection
use solutions_library.Tuning.Run
use solutions_library.Tuning.Runtime
use solutions_library.Tuning.Catalog
use solutions_library.Tuning.Catalog.{load_supervised_hyperparams}
use solutions_library.Prelude.Lines.{rstrip}
use solutions_library.Transfer.Shard.{lstrip}
use solutions_library.Transfer.Config.Sources.{strip}
use solutions_library.Tuning.Prompts.{Value, plain}
use solutions_library.Tuning.Overrides.{Session, ask_values}
use solutions_library.Tuning.Overrides.Bounds.{IsAllowedValue, ask_values-IsAllowedValue}
use solutions_library.Tuning.Run.{run_steps}
use solutions_library.Tuning.Run.Known.{IsRecorded, left_by}
use solutions_library.Tuning.Run.Recorded.{is_creation, left_new, run_steps_new-IsRecorded}
use solutions_library.Tuning.Run.Relaunch.{run_steps_again-creates}
use solutions_library.Tuning.Run.Main.{main}
use solutions_library.Tuning.Run.Again.{reply, main_again-creates}
use solutions_library.Tests.Codec.{json_load-json_dump}
use solutions_library.Tests.Tuning.{codec, specs}

abbrev int_of : Text → Option ℤ
int_of s =
    if text_eq s (codes "7")
    then some (pos 7)
    else if text_eq s (codes "2")
    then some (pos 2)
    else none

abbrev builtins : Builtins ℕ
builtins = record {
  int_of = int_of;
  float_of = λ s. none;
  is_positive = λ x. true;
  is_at_least = λ x n. true;
  is_at_most = λ x n. true;
  json_of = Json.num;
  str_of = λ (v : Json). elim v as (λ v. Text) [ Json.str s ↦ s | _ ↦ codes "?" ];
  lower = λ s. s;
  is_space = λ c. c == b' ';
  scaled = λ n k. codes "?";
}

-- The user types what is given by the number of the call.
abbrev world : (ℕ → List Text) → World ℕ
world typed = record {
  builtins = builtins;
  codec = codec;
  kernel = false;
  isatty = false;
  questionary = false;
  select = λ k options. broken;
  checkbox = λ k options. broken;
  confirms = λ k default. broken;
  texts = λ k default. broken;
  typed = typed;
  now = λ k. codes "now";
  time = λ k. k;
  strftime = λ t. codes "then";
  writable = λ k. true;
  exists = λ k path. true;
  path_join = λ a b. a ++ b;
  swagger = λ k. none;
  models = λ k. some [];
  files = λ k. some [];
  file = λ k. some (record {
    id = codes "file-1";
    filename = codes "train.jsonl";
    bytes = 10;
    created_at = 0;
    purpose = codes "fine-tune";
  });
  file_created = λ k. some (codes "file-2");
  file_deleted = λ k. true;
  job_created = λ k. some (codes "ftjob-1");
  job = λ k. none;
  rounds = λ k. told (codes "running") ∷ interrupted (some true) ∷ [];
  registration = λ k. none;
  checkpoints = λ k. some 0;
  response = λ k. none;
}

abbrev agreeing : World ℕ
agreeing = world (λ k. codes "y" ∷ [])

-- A run that was left before the launch.
abbrev chosen : Config
chosen =
    (codes "resuming", Json.bool true)
    ∷ (codes "swagger_cache_path", Json.str (codes "swagger"))
    ∷ (codes "model_id", Json.str (codes "llama"))
    ∷ (codes "train_id", Json.str (codes "file-1"))
    ∷ (codes "val_id", Json.str (codes "file-1"))
    ∷ (codes "hyperparameters", object ((codes "n_epochs", Json.num 3) ∷ []))
    ∷ []

abbrev session : Session
session = record { config = chosen; memo = (codes "swagger", []) ∷ []; cache = none }

fresh : resume_from_job session.config ≡ false
unfolding resume_from_job is_truthy get lookup text_eq
fresh = refl

run_steps_new-IsRecorded_example : IsRecorded (left_new agreeing session none)
run_steps_new-IsRecorded_example = run_steps_new-IsRecorded agreeing session none fresh

-- The first run launches a job, and is interrupted.
launches :
    ((left_new agreeing session none).jobs ≡ codes "ftjob-1" ∷ [])
    × ((left_new agreeing session none).cancelled ≡ false)
    × ((left_new agreeing session none).unwritten ≡ false)
unfolding left_by run_steps Selection.choose_model should_pick_model is_truthy get lookup insert
    text_eq Run.choose_files Service.call Selection.select_training_file Selection.select_file
    resolve_train_id resume_from_job Selection.check_saved Selection.select_validation_file
    resolve_val_id Run.launch_job should_launch_job Overrides.gather_hyperparameter_overrides
    should_gather_hyperparameter_overrides Overrides.confirm_create_job Overrides.load_specs
    Overrides.specs_at load_supervised_hyperparams Catalog.catalog_from Service.confirm Runtime.ask
    Runtime.input_confirm Runtime.first_reply Runtime.read_confirm strip rstrip lstrip
    Run.jobs_create Run.job_create_kwargs Run.record_job Overrides.save_config Service.save_state
    Run.poll_to_end poll_until_terminated Run.end_poll Service.abort entries fields
launches = (refl, refl, refl)

-- The run that follows it.
run_steps_again-creates_example :
    (c : Config) × ((left_new agreeing session none).file ≡ some c)
    × ((r : Config) × (prompt_resume codec none true
            (codes "later")
            (defaults (codes "key"))
            (some (save codec (codes "now") c))
          ≡ some (r, some (save codec (codes "now") c)))
        × (select is_creation
              (run_steps agreeing (record { config = r; memo = []; cache = none }) []).0
            ≡ []))
run_steps_again-creates_example =
    run_steps_again-creates agreeing agreeing session none (codes "ftjob-1") codec none
      (codes "now") (codes "later") (codes "key") [] none json_load-json_dump refl fresh launches.0
      launches.1 launches.2

-- The user types `y` where it is asked whether to resume.
no_refusal : reply agreeing 1 ≢ some false
unfolding Runtime.ask Runtime.input_confirm Runtime.first_reply Runtime.read_confirm strip rstrip
    lstrip text_eq
no_refusal e = cc e

main_again-creates_example :
    (c : Config) × ((left_new agreeing session none).file ≡ some c)
    × (select is_creation
          (main agreeing (some (save codec (codes "now") c)) none (codes "key") []).0
        ≡ [])
main_again-creates_example =
    main_again-creates agreeing agreeing session none (codes "ftjob-1") (codes "now") (codes "key")
      none json_load-json_dump refl no_refusal fresh launches.0 launches.1 launches.2

-- The numbers that the user types: the epochs, and the second choice.
abbrev typing : World ℕ
typing = world (λ k. if k == 0 then codes "7" ∷ [] else codes "9" ∷ codes "2" ∷ [])

abbrev given : Dict (Value ℕ)
given =
    (codes "n_epochs", plain (Json.num 7))
    ∷ (codes "scheduler", plain (Json.str (codes "linear")))
    ∷ []

abbrev wanted : List Text
wanted =
    codes "n_epochs  (default: server default)  — n_epochs"
    ∷ codes "scheduler  (default: server default)  — scheduler"
    ∷ []

asked : (ask_values typing specs wanted [] []).1 ≡ ok given
unfolding ask_values Overrides.before_gap Prompts.starts_with Overrides.spec_named text_eq
    Prompts.prompt_for_hyperparam Prompts.prompt_for Prompts.prompt_int_or_auto Service.text
    Service.call Runtime.ask Runtime.input_text strip rstrip lstrip Prompts.take_int Prompts.between
    Prompts.below Prompts.prompt_choice Service.pick Prompts.display_default Runtime.input_pick
    Runtime.first_reply Runtime.read_pick Runtime.numbered Prompts.chosen_value
    Overrides.add_override insert
asked = refl

ask_values-IsAllowedValue_example : All (IsAllowedValue typing specs) given
ask_values-IsAllowedValue_example =
    ask_values-IsAllowedValue typing specs wanted [] given (λ k options t e. absurd (cc e)) asked
