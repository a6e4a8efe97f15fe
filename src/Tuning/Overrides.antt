-- ===== src/Tuning/Overrides.antt =====
-- crusoe-managed-finetuning-example/src/helper.py: which hyperparameters a job is given, and the
-- question whether to launch it. An exception or an abort in the reading of the catalog is one
-- error.
pub mod Bounds
use solutions_library.Prelude.{
  true, false, Option, none, some, List, [], ◌∷◌, ◌++◌, map, if◌then◌else◌, not,
}
use solutions_library.Prelude.Calls.{pure, raise, ◌>>=◌}
use solutions_library.Prelude.Text.{Text, codes, text_eq}
use solutions_library.Prelude.Dict.{Dict, insert}
use solutions_library.Prelude.Json.{Json, object}
use solutions_library.Tuning.Cache.{File}
use solutions_library.Tuning.Swagger.{as_text, get}
use solutions_library.Tuning.Schema.{Spec}
use solutions_library.Tuning.Catalog.{load_supervised_hyperparams}
use solutions_library.Tuning.State.{Config, should_gather_hyperparameter_overrides}
use solutions_library.Tuning.Service.{
  World, Action, read_catalog, or_error, other_error, call, abort, confirm, multi_pick, save_state,
}
use solutions_library.Tuning.Prompts.{
  Value, plain, real, display_default, starts_with, prompt_for_hyperparam,
}

-- The settings of a run with the memo and the cache of the catalog.
pub record Session : Type 0 where
  pub config : Config
  pub memo : Dict (List Spec)
  pub cache : Option File

abbrev pub with_config : Session → Config → Session
with_config s c = record s { config = c }

-- `s.split("  ", 1)[0]`
unfoldable pub before_gap : Text → Text
before_gap [] = []
before_gap (c ∷ s) =
    let rest = before_gap s in if starts_with (codes "  ") (c ∷ s) then [] else c ∷ rest

-- `next(s for s in hyperparams if s["name"] == name)`, where `none` is the `StopIteration`.
unfoldable pub spec_named : Text → List Spec → Option Spec
spec_named name [] = none
spec_named name (s ∷ specs) =
    let rest = spec_named name specs in if text_eq s.name name then some s else rest

module _ {F : Type 0} (w : World F) where
  -- Settings that are changed and saved.
  unfoldable pub save_config : Session → Config → Action Session
  save_config s c = do tt ← save_state w c; pure (with_config s c)

  unfoldable pub as_json : Value F → Json
  as_json (plain v) = v
  as_json (real v) = w.builtins.json_of v

  unfoldable pub as_object : Dict (Value F) → Json
  as_object overrides = object (map (λ (k, v). (k, as_json v)) overrides)

  -- What the catalog gives, for the file at the path in the settings.
  unfoldable pub specs_at : Session → Option Text → Action (Session × List Spec)
  specs_at s none = raise other_error
  specs_at s (some path) = do
    k ← call read_catalog
    let cat =
        load_supervised_hyperparams w.builtins.is_space path s.memo w.codec (w.time k) s.cache
          (w.swagger k)
    specs ← or_error cat.specs
    pure (record s { memo = cat.memo; cache = cat.file }, specs)

  unfoldable pub load_specs : Session → Action (Session × List Spec)
  load_specs s = specs_at s (as_text (get (codes "swagger_cache_path") s.config))

  unfoldable pub option_for : Spec → Text
  option_for spec =
      spec.name
      ++ (codes "  (default: " ++ (display_default w spec.default ++ (codes ")  — " ++ spec.help)))

  unfoldable pub add_override : Text → Option (Value F) → Dict (Value F) → Dict (Value F)
  add_override name none overrides = overrides
  add_override name (some v) overrides = insert name v overrides

  -- The loop over what was selected.
  unfoldable pub ask_values : List Spec → List Text → Dict (Value F) → Action (Dict (Value F))
  ask_values specs [] overrides = pure overrides
  ask_values specs (item ∷ selected) overrides = do
    let name = before_gap item
    spec ← or_error (spec_named name specs)
    value ← prompt_for_hyperparam w spec
    ask_values specs selected (add_override name value overrides)

  unfoldable pub save_overrides : Session → Json → Action (Session × Json)
  save_overrides s hyperparameters = do
    s' ← save_config s (insert (codes "hyperparameters") hyperparameters s.config)
    pure (s', hyperparameters)

  unfoldable pub select_overrides : Session → Action (Session × Json)
  select_overrides s = do
    (s', specs) ← load_specs s
    selected ← multi_pick w (map option_for specs)
    overrides ← ask_values specs selected []
    save_overrides s' (as_object overrides)

  unfoldable pub gather_hyperparameter_overrides : Session → Action (Session × Json)
  gather_hyperparameter_overrides s =
      if not (should_gather_hyperparameter_overrides s.config)
      then pure (s, get (codes "hyperparameters") s.config)
      else (do
        wanted ← confirm w false
        if wanted then select_overrides s else save_overrides s (object []))

  -- `print_job_params` reads the catalog.
  unfoldable pub confirm_create_job : Session → Action Session
  confirm_create_job s = do
    (s', specs) ← load_specs s
    agreed ← confirm w true
    if agreed then pure s' else abort w 1
