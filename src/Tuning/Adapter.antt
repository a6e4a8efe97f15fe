-- ===== src/Tuning/Adapter.antt =====
-- crusoe-managed-finetuning-example/run.py: the steps for the adapter of a job, with the download
-- of helper.py and the question of config.py before it.
use solutions_library.Prelude.{
  ◌==◌, Bool, true, false, Option, none, some, if◌then◌else◌, not, ◌&&◌,
}
use solutions_library.Prelude.Calls.{pure, raise, out_of_fuel, ◌>>=◌}
use solutions_library.Prelude.Text.{Text, codes}
use solutions_library.Prelude.Dict.{insert}
use solutions_library.Prelude.Json.{Json}
use solutions_library.Tuning.Swagger.{is_truthy, as_text, get}
use solutions_library.Tuning.State.{Config, should_await_fine_tuned_model}
use solutions_library.Tuning.Polls.{Awaited, found, timed_out, poll_until_value}
use solutions_library.Tuning.Service.{
  World, Action, Response, await_model, list_checkpoints, download, or_error, other_error, call,
  abort, confirm,
}
use solutions_library.Tuning.Overrides.{Session, save_config}

-- An adapter that an earlier run has downloaded.
abbrev pub is_downloaded : Config → Bool
is_downloaded c =
    is_truthy (get (codes "resuming") c)
    && (is_truthy (get (codes "downloaded") c) && is_truthy (get (codes "out_dir_path") c))

module _ {F : Type 0} (w : World F) where
  unfoldable pub end_wait : Session → Awaited → Action Session
  end_wait s (found k v) = save_config w s (insert (codes "fine_tuned_model") v s.config)
  end_wait s timed_out = abort w 1
  end_wait s Awaited.out_of_fuel = out_of_fuel

  -- Step 3b: up to 120 seconds, every 5.
  unfoldable pub await_fine_tuned_model : Session → Action Session
  await_fine_tuned_model s =
      if should_await_fine_tuned_model s.config
      then (do
        k ← call (await_model (get (codes "job_id") s.config))
        poll_fn ← or_error (w.registration k)
        end_wait s (poll_until_value poll_fn 120 5 120))
      else pure s

  -- `should_download`, with the settings behind it.
  unfoldable pub should_download : Session → Action (Session × Bool)
  should_download s =
      if is_downloaded s.config
      then pure (s, false)
      else if not (is_truthy (get (codes "fine_tuned_model") s.config))
      then pure (s, false)
      else (do
        agreed ← confirm w true
        (if agreed
            then pure (s, true)
            else (save_config w s (insert (codes "downloaded") (Json.bool false) s.config) >>= λ s'.
                pure (s', false))))

  -- The directory to which the adapter is extracted.
  unfoldable pub extract_dir : Config → Option Text
  extract_dir c = elim (as_text (get (codes "out_dir") c)) [
    | none ↦ none
    | some out_dir ↦ (elim (as_text (get (codes "fine_tuned_model") c)) [
      | none ↦ none
      | some model_id ↦ some (w.path_join out_dir model_id)
    ])
  ]

  unfoldable pub extract_adapter : Session → Response → Action Session
  extract_adapter s resp =
      if not (resp.status_code == 200)
      then abort w 1
      else if not resp.extracts
      then raise other_error
      else (do
        dir ← or_error (extract_dir s.config)
        save_config w s (
            insert (codes "out_dir_path") (Json.str dir)
              (insert (codes "downloaded") (Json.bool true) s.config)))

  unfoldable pub download_adapter : Session → Bool → Action Session
  download_adapter s false = pure s
  download_adapter s true = do
    k ← call (download (get (codes "fine_tuned_model") s.config))
    resp ← or_error (w.response k)
    extract_adapter s resp

  -- Steps 4 and 5
  unfoldable pub fetch_adapter : Session → Action Session
  fetch_adapter s = do
    k ← call (list_checkpoints (get (codes "job_id") s.config))
    checkpoints ← or_error (w.checkpoints k)
    (s', wanted) ← should_download s
    download_adapter s' wanted
