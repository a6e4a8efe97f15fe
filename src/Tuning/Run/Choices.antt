-- ===== src/Tuning/Run/Choices.antt =====
-- run.py: the choice of a model and of hyperparameters keeps a run in its phase.
use solutions_library.Prelude.{◌≡◌, refl, true, false, not, Option, none, some, List, [], is_nil}
use solutions_library.Prelude.Text.{Text, codes, text_eq}
use solutions_library.Prelude.Json.{Json, object}
use solutions_library.Prelude.Calls.Yields.{Yields-pure, Yields-if}
use solutions_library.Tuning.State.{should_pick_model, should_gather_hyperparameter_overrides}
use solutions_library.Tuning.Service.{World, read_catalog, Model, list_models}
use solutions_library.Tuning.Overrides.{
  Session, specs_at, load_specs, save_overrides, select_overrides, gather_hyperparameter_overrides,
  confirm_create_job,
}
use solutions_library.Tuning.Selection.{save_model, model_shown, pick_model, choose_model}
use solutions_library.Tuning.Run.Stages.{Stage, step}
use solutions_library.Tuning.Run.Rules.{
  Phase, before, resumed, with_job, stage_of, Keeps, KeepsWith, Stays-then, Keeps-then,
  KeepsWith-then, raise-Ready, abort-Ready, Keeps-pure, KeepsWith-pure, call-At, Stays-pick,
  Stays-confirm, Stays-multi_pick, Stays-or_error,
}
use solutions_library.Tuning.Run.Asking.{Stays-ask_values}
use solutions_library.Tuning.Run.Saving.{save_config-Keeps}

step_list_models : (p : Phase) → step (stage_of p) list_models ≡ some (stage_of p)
unfolding step
step_list_models before = refl
step_list_models (resumed id) = refl
step_list_models (with_job id) = refl

step_read_catalog : (p : Phase) → step (stage_of p) read_catalog ≡ some (stage_of p)
unfolding step
step_read_catalog before = refl
step_read_catalog (resumed id) = refl
step_read_catalog (with_job id) = refl

module _ {F : Type 0} (w : World F) (first : Stage) (p : Phase) (s : Session) where
  save_model-Keeps : (id : Option Text) → Keeps first p s (save_model w s id)
  unfolding save_model text_eq
  save_model-Keeps none = abort-Ready first p s w 1
  save_model-Keeps (some id) = save_config-Keeps w first p s (codes "model_id") _ refl

  pick_model-Keeps : (models : List Model) → Keeps first p s (pick_model w s models)
  unfolding pick_model
  pick_model-Keeps models =
      Yields-if (is_nil models) (λ _. abort-Ready first p s w 1)
        (λ _.
          Stays-then first p s (Stays-pick w first p _)
            (λ chosen. save_model-Keeps (model_shown w chosen models)))

  pub choose_model-Keeps : Keeps first p s (choose_model w s)
  unfolding choose_model
  choose_model-Keeps =
      Yields-if (should_pick_model s.config)
        (λ _. Stays-then first p s (call-At first _ _ list_models (step_list_models p)) (λ k.
          Stays-then first p s (Stays-or_error first p (w.models k))
            (λ models. pick_model-Keeps models)))
        (λ _. Keeps-pure first p s)

  specs_at-Keeps : (path : Option Text) → KeepsWith first p s (specs_at w s path)
  unfolding specs_at
  specs_at-Keeps none = raise-Ready first p s
  specs_at-Keeps (some path) =
      Stays-then first p s (call-At first _ _ read_catalog (step_read_catalog p))
        (λ k. Stays-then first p s (Stays-or_error first p _) (λ specs. Yields-pure (λ calls h. h)))

  load_specs-Keeps : KeepsWith first p s (load_specs w s)
  unfolding load_specs
  load_specs-Keeps = specs_at-Keeps _

  save_overrides-Keeps : (v : Json) → KeepsWith first p s (save_overrides w s v)
  unfolding save_overrides text_eq
  save_overrides-Keeps v =
      Keeps-then first p s (save_config-Keeps w first p s (codes "hyperparameters") v refl)
        (λ s'. KeepsWith-pure first p s' v)

module _ {F : Type 0} (w : World F) (first : Stage) (p : Phase) (s : Session) where
  select_overrides-Keeps : KeepsWith first p s (select_overrides w s)
  unfolding select_overrides
  select_overrides-Keeps = KeepsWith-then first p s (load_specs-Keeps w first p s) (λ r.
      Stays-then first p r.0 (Stays-multi_pick w first p _) (λ selected.
        Stays-then first p r.0 (Stays-ask_values w first p r.1 selected [])
          (λ overrides. save_overrides-Keeps w first p r.0 _)))

  pub gather-Keeps : KeepsWith first p s (gather_hyperparameter_overrides w s)
  unfolding gather_hyperparameter_overrides
  gather-Keeps =
      Yields-if (not (should_gather_hyperparameter_overrides s.config))
        (λ _. KeepsWith-pure first p s _)
        (λ _. Stays-then first p s (Stays-confirm w first p false) (λ wanted.
          Yields-if wanted (λ _. select_overrides-Keeps)
            (λ _. save_overrides-Keeps w first p s (object []))))

  pub confirm_create_job-Keeps : Keeps first p s (confirm_create_job w s)
  unfolding confirm_create_job
  confirm_create_job-Keeps = KeepsWith-then first p s (load_specs-Keeps w first p s) (λ r.
      Stays-then first p r.0 (Stays-confirm w first p true) (λ agreed.
        Yields-if agreed (λ _. Keeps-pure first p r.0) (λ _. abort-Ready first p r.0 w 1)))
