-- ===== src/Tuning/Run/Finish.antt =====
-- run.py: the steps behind the launch keep the job in the state file.
use solutions_library.Prelude.{
  refl, Bool, true, false, not, Option, none, some, List, [], ◌∷◌, ◌==◌,
}
use solutions_library.Prelude.Text.{Text, codes, text_eq}
use solutions_library.Prelude.Dict.{insert}
use solutions_library.Prelude.Json.{Json}
use solutions_library.Prelude.Calls.{pure, ◌>>=◌}
use solutions_library.Prelude.Calls.Yields.{
  Yields-bind, Yields-pure, Yields-if, Yields-fact, Yields-after, Yields-out_of_fuel,
}
use solutions_library.Tuning.Swagger.{is_truthy, get}
use solutions_library.Tuning.State.{should_await_fine_tuned_model}
use solutions_library.Tuning.Polls.{Awaited, found, timed_out}
use solutions_library.Tuning.Service.{
  World, Response, delete_file, await_model, list_checkpoints, download,
}
use solutions_library.Tuning.Overrides.{Session, save_config}
use solutions_library.Tuning.Adapter.{
  is_downloaded, end_wait, await_fine_tuned_model, should_download, extract_dir, extract_adapter,
  download_adapter, fetch_adapter,
}
use solutions_library.Tuning.Run.{poll_to_end, delete_files, delete_uploaded, cleanup}
use solutions_library.Tuning.Run.Stages.{Stage, running, step}
use solutions_library.Tuning.Run.Rules.{
  Phase, with_job, At, Stays, Keeps, KeepsWith, Stays-then, Keeps-then, KeepsWith-then, Keeps-pure,
  KeepsWith-pure, Stays-or_error, Stays-confirm, stays_rules, raise-Ready, abort-Ready,
}
use solutions_library.Tuning.Run.Saving.{Agrees-insert, save_config-Keeps}
use solutions_library.Tuning.Run.Waiting.{Stays-call, save-Keeps, poll_to_end-Keeps}

module _ {F : Type 0} (w : World F) (first : Stage) (id : Text) where
  abbrev job : Phase
  job = with_job id

  end_wait-Keeps : (s : Session) (e : Awaited) → Keeps first job s (end_wait w s e)
  unfolding end_wait text_eq
  end_wait-Keeps s (found k v) = save_config-Keeps w first job s (codes "fine_tuned_model") v refl
  end_wait-Keeps s timed_out = abort-Ready first job s w 1
  end_wait-Keeps s Awaited.out_of_fuel = Yields-out_of_fuel (λ calls h. (running id, refl, h.1))

  await-Keeps : (s : Session) → Keeps first job s (await_fine_tuned_model w s)
  unfolding await_fine_tuned_model step
  await-Keeps s =
      Yields-if (should_await_fine_tuned_model s.config)
        (λ _.
          Stays-then first job s
            (Stays-call first id (await_model (get (codes "job_id") s.config)) refl)
            (λ k.
              Stays-then first job s (Stays-or_error first job (w.registration k))
                (λ poll_fn. end_wait-Keeps s _)))
        (λ _. Keeps-pure first job s)

  decline-Keeps :
      (s : Session)
      → KeepsWith first job s (
          save_config w s (insert (codes "downloaded") (Json.bool false) s.config) >>= λ s'.
          pure (s', false))
  unfolding text_eq
  decline-Keeps s =
      Keeps-then first job s (save_config-Keeps w first job s (codes "downloaded") _ refl)
        (λ s'. KeepsWith-pure first job s' false)

  should_download-Keeps : (s : Session) → KeepsWith first job s (should_download w s)
  unfolding should_download
  should_download-Keeps s =
      Yields-if (is_downloaded s.config) (λ _. KeepsWith-pure first job s false)
        (λ _.
          Yields-if (not (is_truthy (get (codes "fine_tuned_model") s.config)))
            (λ _. KeepsWith-pure first job s false)
            (λ _. Stays-then first job s (Stays-confirm w first job true) (λ agreed.
              Yields-if agreed (λ _. KeepsWith-pure first job s true) (λ _. decline-Keeps s))))

  extract_adapter-Keeps :
      (s : Session) (resp : Response) → Keeps first job s (extract_adapter w s resp)
  unfolding extract_adapter text_eq
  extract_adapter-Keeps s resp =
      Yields-if (not (resp.status_code == 200)) (λ _. abort-Ready first job s w 1)
        (λ _.
          Yields-if (not resp.extracts) (λ _. raise-Ready first job s)
            (λ _. Stays-then first job s (Stays-or_error first job (extract_dir w s.config)) (λ dir.
              Yields-fact (λ a.
                Yields-after (λ calls h. (a, h))
                  (save-Keeps w first id s _ (
                    Agrees-insert job (codes "out_dir_path") (Json.str dir) _ refl (
                      Agrees-insert job (codes "downloaded") (Json.bool true) s.config refl a)))))))

  download_adapter-Keeps :
      (s : Session) (wanted : Bool) → Keeps first job s (download_adapter w s wanted)
  unfolding download_adapter step
  download_adapter-Keeps s false = Keeps-pure first job s
  download_adapter-Keeps s true =
      Stays-then first job s
        (Stays-call first id (download (get (codes "fine_tuned_model") s.config)) refl)
        (λ k.
          Stays-then first job s (Stays-or_error first job (w.response k))
            (λ resp. extract_adapter-Keeps s resp))

  fetch_adapter-Keeps : (s : Session) → Keeps first job s (fetch_adapter w s)
  unfolding fetch_adapter step
  fetch_adapter-Keeps s =
      Stays-then first job s
        (Stays-call first id (list_checkpoints (get (codes "job_id") s.config)) refl)
        (λ k. Stays-then first job s (Stays-or_error first job (w.checkpoints k)) (λ checkpoints.
          KeepsWith-then first job s (should_download-Keeps s)
            (λ r. download_adapter-Keeps r.0 r.1)))

  Stays-delete_files : (ids : List Text) → Stays first job (delete_files w ids)
  unfolding delete_files step
  Stays-delete_files [] = search stays_rules
  Stays-delete_files (f ∷ ids) =
      Yields-bind (λ k. At first (running id)) (Stays-call first id (delete_file f) refl)
        (λ k.
          Yields-bind (λ remaining. At first (running id)) (Stays-delete_files ids)
            (λ remaining. Yields-pure (λ calls h. h)))

  delete_uploaded-Keeps :
      (s : Session) (ids : Option (List Text)) → Keeps first job s (delete_uploaded w s ids)
  unfolding delete_uploaded text_eq
  delete_uploaded-Keeps s none = raise-Ready first job s
  delete_uploaded-Keeps s (some ids) =
      Stays-then first job s (Stays-confirm w first job false) (λ agreed.
        Yields-if agreed
          (λ _.
            Stays-then first job s (Stays-delete_files _)
              (λ remaining. save_config-Keeps w first job s (codes "uploaded_file_ids") _ refl))
          (λ _. Keeps-pure first job s))

  cleanup-Keeps : (s : Session) → Keeps first job s (cleanup w s)
  unfolding cleanup
  cleanup-Keeps s =
      Yields-if (is_truthy (get (codes "uploaded_file_ids") s.config))
        (λ _. delete_uploaded-Keeps s _) (λ _. Keeps-pure first job s)

  -- All that follows the launch.
  pub finish-Keeps :
      (s : Session)
      → Keeps first job s (
          poll_to_end w s >>= λ s₄.
          await_fine_tuned_model w s₄ >>= λ s₅. fetch_adapter w s₅ >>= λ s₆. cleanup w s₆)
  finish-Keeps s = Keeps-then first job s (poll_to_end-Keeps w first id s) (λ s₄.
      Keeps-then first job s₄ (await-Keeps s₄)
        (λ s₅. Keeps-then first job s₅ (fetch_adapter-Keeps s₅) cleanup-Keeps))
