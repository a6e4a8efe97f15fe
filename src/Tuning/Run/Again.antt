-- ===== src/Tuning/Run/Again.antt =====
-- run.py and config.py: a run from its start, where the state file names a job.
use solutions_library.Prelude.{
  ℕ, suc, ◌≡◌, ◌≢◌, refl, sym, subst, ◌∙◌, List, length, length-append, arith, Bool, true, false,
  Option, none, some, [], ◌∷◌, select, is_nil, if◌then◌else◌,
}
use solutions_library.Prelude.Text.{Text, codes}
use solutions_library.Prelude.Json.{Json}
use solutions_library.Prelude.Dict.{Dict, insert}
use solutions_library.Prelude.Calls.{◌>>=◌}
use solutions_library.Prelude.Calls.Yields.{
  Yields, Yields-bind, Yields-pure, Yields-if, Yields-fact, Yields-after, Gives-all,
}
use solutions_library.Prelude.Calls.Follow.{follow}
use solutions_library.Tuning.Cache.{File}
use solutions_library.Tuning.Swagger.{is_truthy, get}
use solutions_library.Tuning.State.{
  Config, Job, defaults, save, resume_from_job, state_of, state_fields, refresh_job, set_all,
  load_state,
}
use solutions_library.Tuning.State.Saved.{saved, saved-HasUniqueKeys, is_nil-insert}
use solutions_library.Tuning.State.Resumed.{
  load_state-save, get-resumed, get-saved, get-reloaded-resuming, reloaded,
}
use solutions_library.Tuning.Runtime.{ask, input_confirm}
use solutions_library.Tuning.Service.{
  World, Action, Call, prompt, retrieve_job, remove_state, or_error, or_abort, confirm, call,
}
use solutions_library.Tuning.Overrides.{Session}
use solutions_library.Tuning.Run.Stages.{running, step}
use solutions_library.Tuning.Run.Rules.{resumed, Agrees, At, IsAllowed, At-snoc, abort-Stops}
use solutions_library.Tuning.Run.Promises.{steps-IsAllowed}
use solutions_library.Tuning.Run.Recorded.{
  is_creation, select-settled, left_new, run_steps_new-IsRecorded,
}
use solutions_library.Tuning.Run.Relaunch.{names_job, carried_job, has_job, is_resumed}
use solutions_library.Tuning.Run.Main.{refreshed, begin, load, main}

-- The reply to the question whether to resume, at the call of the number.
abbrev pub reply : {F : Type 0} → World F → ℕ → Option Bool
reply w k =
    ask w.isatty w.questionary (w.confirms k true) (input_confirm w.builtins true (w.typed k))

module _ {F : Type 0} (w : World F) (c : Config) (id now key : Text)
    (survive : (v : Json) → w.codec.loads (w.codec.dumps v) ≡ some v) (some_id : is_nil id ≡ false)
    (job_id : get (codes "job_id") c ≡ Json.str id) (resumes : reply w 1 ≢ some false) where
  -- The job is in the state file, and the next call has the number.
  abbrev Next : ℕ → List Call → Type 0
  Next n calls = At (running id) (running id) calls × (length calls ≡ n)

  call-Next :
      (n : ℕ) (x : Call)
      → step (running id) x ≡ some (running id)
      → Yields (Next n) (λ k calls. (k ≡ n) × Next (suc n) calls) (IsAllowed (running id)) (call x)
  unfolding call
  call-Next n x e = record {
    from = λ calls (at, total). (
      total,
      (
        At-snoc (running id) (running id) (running id) calls x e at,
        omega (arith, total, length-append calls (x ∷ [])),
      ),
    );
  }

  abbrev Following : {A : Type 0} → (A → Type 0) → Action A → Type 0
  Following Q m =
      Yields (At (running id) (running id)) (λ a calls. Q a × At (running id) (running id) calls)
        (IsAllowed (running id)) m

  -- The user does not decline.
  agreed : (o : Option Bool) → o ≢ some false → Following (λ a. a ≡ true) (or_abort w o)
  agreed none h = abort-Stops (running id) (running id) refl w 1
  agreed (some true) h = Yields-pure (λ calls at. (refl, at))
  agreed (some false) h = absurd (h refl)

  confirm-agrees :
      Yields
        (Next 1)
        (λ a calls. (a ≡ true) × At (running id) (running id) calls)
        (IsAllowed (running id))
        (confirm w true)
  unfolding confirm step
  confirm-agrees =
      Yields-bind (λ k calls. (k ≡ 1) × Next 2 calls) (call-Next 1 prompt refl)
        (λ k. Yields-fact (λ second.
          Yields-after (λ calls (at, total). at)
            (agreed (reply w k) (subst (λ j. reply w j ≢ some false) (sym second) resumes))))

  abbrev state : Dict Json
  state = saved now c

  saved_job : get (codes "job_id") state ≡ Json.str id
  saved_job = get-saved now c (codes "job_id") carried_job ∙ job_id

  has_saved_job : is_truthy (get (codes "job_id") state) ≡ true
  unfolding is_truthy
  has_saved_job = rw saved_job (rw some_id refl)

  abbrev IsRefreshed : Dict Json → Type 0
  IsRefreshed st = (job : Option Job) × (st ≡ refresh_job job state)

  refreshed-Following :
      Yields
        (Next 0)
        (λ st calls. IsRefreshed st × Next 1 calls)
        (IsAllowed (running id))
        (refreshed w state)
  unfolding refreshed step
  refreshed-Following = rw has_saved_job (
      Yields-bind (λ k calls. (k ≡ 0) × Next 1 calls) (call-Next 0 (retrieve_job _) refl)
        (λ k. Yields-pure (λ calls at. ((w.job k, refl), at.1))))

  -- The settings that the run begins with are those of the job.
  begin-Following :
      (st : Dict Json)
      → IsRefreshed st
      → Following
          (Agrees (resumed id))
          (begin w (set_all st (insert (codes "resuming") (Json.bool true) (defaults key))))
  unfolding begin is_truthy
  begin-Following st (job, e) =
      let flag = get-reloaded-resuming job true now c (defaults key) in
      let same : get (codes "job_id") (reloaded job true now c (defaults key)) ≡ Json.str id =
        get-resumed state (defaults key) job (codes "job_id") true (saved-HasUniqueKeys now c)
          carried_job (has_job key)
        ∙ (rw saved_job refl) in
      rw e (
        rw flag (
          Yields-pure (λ calls at. (
            (same, is_resumed (reloaded job true now c (defaults key)) id some_id flag same),
            at,
          ))))

  some_state : is_nil state ≡ false
  some_state = is_nil-insert (codes "updated_at") (Json.str now) (state_of state_fields c)

  accepted-Following :
      (st : Dict Json)
      → IsRefreshed st
      → (a : Bool) → a ≡ true
      → Following (Agrees (resumed id)) (
          if a
          then begin w (set_all st (insert (codes "resuming") (Json.bool true) (defaults key)))
          else (call remove_state >>= λ removed. begin w (defaults key)))
  accepted-Following st fresh true e = begin-Following st fresh
  accepted-Following st fresh false e = absurd (cc e)

  found-Following :
      (st : Dict Json)
      → st ≡ state
      → Yields
          (Next 0)
          (λ r calls. Agrees (resumed id) r × At (running id) (running id) calls)
          (IsAllowed (running id))
          (if is_nil st then begin w (defaults key) else (do
            st' ← refreshed w st
            a ← confirm w true
            (if a
                then begin w
                    (set_all st' (insert (codes "resuming") (Json.bool true) (defaults key)))
                else (call remove_state >>= λ removed. begin w (defaults key)))))
  found-Following st e =
      rw (e, some_state)
        (Yields-bind (λ st' calls. IsRefreshed st' × Next 1 calls) refreshed-Following
          (λ st'. Yields-fact (λ fresh.
            Yields-bind (λ a calls. (a ≡ true) × At (running id) (running id) calls) confirm-agrees
              (λ a. Yields-fact (λ assent. accepted-Following st' fresh a assent)))))

  file-Following :
      Yields
        (Next 0)
        (λ st calls. (st ≡ state) × Next 0 calls)
        (IsAllowed (running id))
        (or_error (load_state w.codec (some (save w.codec now c))))
  file-Following = rw (load_state-save w.codec now c survive) (Yields-pure (λ calls at. (refl, at)))

  load-Following :
      Yields
        (Next 0)
        (λ r calls. Agrees (resumed id) r × At (running id) (running id) calls)
        (IsAllowed (running id))
        (load w (some (save w.codec now c)) key)
  unfolding load
  load-Following =
      Yields-bind (λ st calls. (st ≡ state) × Next 0 calls) file-Following
        (λ st. Yields-fact (λ e. found-Following st e))

  main-Following :
      (cache : Option File)
      → Yields
          (Next 0)
          (λ s. IsAllowed (running id))
          (IsAllowed (running id))
          (main w (some (save w.codec now c)) cache key)
  unfolding main
  main-Following cache =
      Yields-if (is_nil key)
        (λ _.
          Yields-after (λ calls (at, total). at) (abort-Stops (running id) (running id) refl w 1))
        (λ _.
          Yields-bind (λ r calls. Agrees (resumed id) r × At (running id) (running id) calls)
            load-Following
            (λ r.
              steps-IsAllowed w (resumed id) (record { config = r; memo = []; cache = cache }) tt))

  main_resumed-creates :
      (cache : Option File)
      → select is_creation (main w (some (save w.codec now c)) cache key []).0 ≡ []
  unfolding follow
  main_resumed-creates cache =
      let (t, steady, followed) =
        Gives-all (IsAllowed (running id)) (main w (some (save w.codec now c)) cache key [])
          ((main-Following cache).from [] (refl, refl)) in
      select-settled (main w (some (save w.codec now c)) cache key []).0 (running id) t refl
        followed

-- After a run that has launched a job, could write its state file each time, and was not asked to
-- cancel the job, however it ended, there are settings in the state file, with which the program
-- that is started next, with any key and cache, creates no job and uploads no file, whatever the
-- service answers it and however it ends. JSON values survive being written, the id of the job is
-- not empty, and the user, asked after the status of the job was fetched, does not decline to
-- resume.
pub main_again-creates :
    {F G : Type 0} (w : World F) (w' : World G) (s : Session) (file : Option Config) (id : Text)
    (now key : Text) (cache : Option File)
    → ((v : Json) → w'.codec.loads (w'.codec.dumps v) ≡ some v)
    → is_nil id ≡ false
    → reply w' 1 ≢ some false
    → resume_from_job s.config ≡ false
    → (left_new w s file).jobs ≡ id ∷ []
    → (left_new w s file).cancelled ≡ false
    → (left_new w s file).unwritten ≡ false
    → (c : Config) × ((left_new w s file).file ≡ some c)
      × (select is_creation (main w' (some (save w'.codec now c)) cache key []).0 ≡ [])
main_again-creates w w' s file id now key cache survive some_id resumes fresh one kept saved =
    let (c, written, named) =
      names_job (left_new w s file) id (run_steps_new-IsRecorded w s file fresh) one kept saved in
    (c, written, main_resumed-creates w' c id now key survive some_id named resumes cache)
