-- ===== src/Tuning/Run/Main.antt =====
-- run.py and config.py: a run from its start, with the loading of the configuration.
use solutions_library.Prelude.{true, not, Option, [], if◌then◌else◌, is_nil, length}
use solutions_library.Prelude.Calls.{ok, pure, ◌>>=◌}
use solutions_library.Prelude.Text.{Text, codes}
use solutions_library.Prelude.Dict.{Dict, insert}
use solutions_library.Prelude.Json.{Json}
use solutions_library.Tuning.Cache.{File}
use solutions_library.Tuning.Swagger.{is_truthy, get}
use solutions_library.Tuning.State.{Config, defaults, refresh_job, set_all, load_state}
use solutions_library.Tuning.Service.{
  World, Action, remove_state, retrieve_job, or_error, call, abort, confirm, save_state,
}
use solutions_library.Tuning.Overrides.{Session}
use solutions_library.Tuning.Run.{run_steps}

module _ {F : Type 0} (w : World F) where
  -- `self.created_at = datetime.now().isoformat()`
  unfoldable pub stamped : Config → Action Config
  stamped c calls = (calls, ok (insert (codes "created_at") (Json.str (w.now (length calls))) c))

  -- `if not self.resuming`
  unfoldable pub begin : Config → Action Config
  begin c =
      if not (is_truthy (get (codes "resuming") c))
      then (do c' ← stamped c; tt ← save_state w c'; pure c')
      else pure c

  -- The state with the status of its job, where it has one.
  unfoldable pub refreshed : Dict Json → Action (Dict Json)
  refreshed state =
      if is_truthy (get (codes "job_id") state)
      then (do
        k ← call (retrieve_job (get (codes "job_id") state))
        pure (refresh_job (w.job k) state))
      else pure state

  -- `Config.load`, with the content of the state file.
  unfoldable pub load : Option Text → Text → Action Config
  load file api_key = do
    state ← or_error (load_state w.codec file)
    (if is_nil state then begin (defaults api_key) else (do
      state' ← refreshed state
      agreed ← confirm w true
      (if agreed
          then begin
              (set_all state' (insert (codes "resuming") (Json.bool true) (defaults api_key)))
          else (call remove_state >>= λ removed. begin (defaults api_key)))))

  unfoldable pub main : Option Text → Option File → Text → Action Session
  main file cache api_key =
      if is_nil api_key
      then abort w 1
      else (do c ← load file api_key; run_steps w (record { config = c; memo = []; cache = cache }))
