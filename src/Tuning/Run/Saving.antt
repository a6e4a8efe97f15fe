-- ===== src/Tuning/Run/Saving.antt =====
-- run.py: saving keeps a run in its phase, and so do the steps before the launch.
use solutions_library.Prelude.{
  ◌≡◌, refl, ◌∙◌, Bool, true, false, not, ◌&&◌, none, some, [], ◌∷◌, ◌++◌, length, if◌then◌else◌,
  arith,
}
use solutions_library.Prelude.Text.{Text, codes, text_eq, text_eq_refl}
use solutions_library.Prelude.Dict.{insert}
use solutions_library.Prelude.Json.{Json}
use solutions_library.Prelude.Calls.Yields.{Gives, Yields, Yields-bind, Yields-pure, Yields-fact}
use solutions_library.Prelude.Calls.{ok, raised}
use solutions_library.Tuning.Swagger.{is_str, get}
use solutions_library.Tuning.State.{Config, resume_from_job}
use solutions_library.Tuning.State.Attributes.{get-insert}
use solutions_library.Tuning.Service.{World, write_state, write_failed, other_error, save_state}
use solutions_library.Tuning.Overrides.{Session, save_config}
use solutions_library.Tuning.Run.Stages.{Stage, running, broken, step}
use solutions_library.Tuning.Run.Rules.{
  Phase, before, resumed, with_job, stage_of, Agrees, At, IsAllowed, Ready, Keeps, At-snoc,
}

-- Other attributes do not matter.
abbrev pub is_other : Text → Bool
is_other k = not (text_eq k (codes "job_id")) && not (text_eq k (codes "resuming"))

get-insert_other :
    (k j : Text) (v : Json) (c : Config) → text_eq k j ≡ false → get j (insert k v c) ≡ get j c
get-insert_other k j v c h = ground (arith, get-insert k j v c)

Agrees-get :
    (p : Phase) (c d : Config)
    → get (codes "job_id") d ≡ get (codes "job_id") c
    → get (codes "resuming") d ≡ get (codes "resuming") c
    → Agrees p c
    → Agrees p d
unfolding resume_from_job
Agrees-get before c d e f a = rw (e, f) a
Agrees-get (resumed id) c d e f a = (e ∙ a.0, (rw (e, f) a.1))
Agrees-get (with_job id) c d e f a = e ∙ a

pub Agrees-insert :
    (p : Phase) (k : Text) (v : Json) (c : Config)
    → is_other k ≡ true
    → Agrees p c
    → Agrees p (insert k v c)
Agrees-insert p k v c h a =
    Agrees-get p c (insert k v c) (get-insert_other k (codes "job_id") v c (ground arith))
      (get-insert_other k (codes "resuming") v c (ground arith)) a

pub step_recorded :
    (s : Stage) (id : Text) (v : Json)
    → v ≡ Json.str id
    → (if is_str id v then some s else none) ≡ some s
step_recorded s id v e = rw e (rw (text_eq_refl id) refl)

pub step_write :
    (p : Phase) (now : Text) (c : Config)
    → Agrees p c
    → step (stage_of p) (write_state now c) ≡ some (stage_of p)
unfolding step
step_write before now c a = refl
step_write (resumed id) now c a = step_recorded (running id) id _ a.0
step_write (with_job id) now c a = step_recorded (running id) id _ a

pub step_failed : (p : Phase) → step (stage_of p) write_failed ≡ some broken
unfolding step
step_failed before = refl
step_failed (resumed id) = refl
step_failed (with_job id) = refl

module _ {F : Type 0} (w : World F) (first : Stage) where
  save_state-At :
      (from to : Stage) (c : Config)
      → ((now : Text) → step from (write_state now c) ≡ some to)
      → step from write_failed ≡ some broken
      → Yields (At first from) (λ u. At first to) (IsAllowed first) (save_state w c)
  unfolding save_state
  save_state-At from to c allowed fails = record {
    from = λ calls h.
        elim (w.writable (length calls))
          as (λ b.
            Gives (λ (u : Unit {0}). At first to) (IsAllowed first)
              (if b
                then (calls ++ (write_state (w.now (length calls)) c ∷ []), ok tt)
                else (calls ++ (write_failed ∷ []), raised other_error))) [
                  | true ↦ At-snoc first from to calls _ (allowed _) h
                  | false ↦ (broken, refl, At-snoc first from broken calls write_failed fails h)
                ];
  }

  -- The file is written in a stage that allows it.
  pub save_config-At :
      (s : Session) (from : Stage) (p : Phase) (c : Config)
      → ((now : Text) → step from (write_state now c) ≡ some (stage_of p))
      → step from write_failed ≡ some broken
      → Agrees p c
      → Yields (At first from) (Ready first p) (IsAllowed first) (save_config w s c)
  unfolding save_config
  save_config-At s from p c allowed fails a =
      Yields-bind (λ u. At first (stage_of p)) (save_state-At from (stage_of p) c allowed fails)
        (λ u. Yields-pure (λ calls h. (a, h)))

  pub save_config-Keeps :
      (p : Phase) (s : Session) (k : Text) (v : Json)
      → is_other k ≡ true
      → Keeps first p s (save_config w s (insert k v s.config))
  save_config-Keeps p s k v other = Yields-fact (λ a.
      let a' = Agrees-insert p k v s.config other a in
      save_config-At s (stage_of p) p (insert k v s.config)
        (λ now. step_write p now (insert k v s.config) a') (step_failed p) a')
