-- ===== src/Tuning/Run/Rules.antt =====
-- run.py: how the calls that all steps make move a run between the stages.
use solutions_library.Prelude.{
  ℕ, ◌≡◌, refl, ◌∙◌, Bool, true, false, Option, none, some, List, [], ◌∷◌, ◌++◌, if◌then◌else◌,
}
use solutions_library.Prelude.Text.{Text, codes}
use solutions_library.Prelude.Json.{Json}
use solutions_library.Prelude.Calls.{pure, raise, ◌>>=◌}
use solutions_library.Prelude.Calls.Yields.{
  Yields, Yields-bind, Yields-pure, Yields-raise, Yields-if, Yields-fact, Yields-frame,
}
use solutions_library.Prelude.Calls.Follow.{follow, follow-snoc}
use solutions_library.Tuning.Swagger.{get}
use solutions_library.Tuning.State.{Config, resume_from_job}
use solutions_library.Tuning.Service.{
  World, Action, Call, prompt, Stop, call, abort, or_error, or_abort, pick, confirm, text,
  multi_pick,
}
use solutions_library.Tuning.Overrides.{Session}
use solutions_library.Tuning.Run.Stages.{Stage, is_steady, choosing, running, step}

-- Where a run stands between two steps: before a job, with the job of an earlier run, or with one.
pub data Phase : Type 0 where
  before : Phase
  resumed with_job : Text → Phase

abbrev pub stage_of : Phase → Stage
stage_of before = choosing
stage_of (resumed id) = running id
stage_of (with_job id) = running id

-- What the settings say of it.
abbrev pub Agrees : Phase → Config → Type 0
Agrees before c = resume_from_job c ≡ false
Agrees (resumed id) c = (get (codes "job_id") c ≡ Json.str id) × (resume_from_job c ≡ true)
Agrees (with_job id) c = get (codes "job_id") c ≡ Json.str id

module _ (first : Stage) where
  abbrev pub At : Stage → List Call → Type 0
  At s calls = follow step first calls ≡ some s

  -- The calls are allowed, one after the other, and end in a stage in which a run may end.
  abbrev pub IsAllowed : List Call → Type 0
  IsAllowed calls = (s : Stage) × (is_steady s ≡ true) × At s calls

  -- From a phase the run stays in it, or stops.
  abbrev pub Stays : {A : Type 0} → Phase → Action A → Type 0
  Stays p m = Yields (At (stage_of p)) (λ a. At (stage_of p)) IsAllowed m

  abbrev pub Ready : Phase → Session → List Call → Type 0
  Ready p s calls = Agrees p s.config × At (stage_of p) calls

  -- A step of a session in a phase ends in that phase.
  abbrev pub Keeps : Phase → Session → Action Session → Type 0
  Keeps p s m = Yields (Ready p s) (Ready p) IsAllowed m

  -- The same with another value.
  abbrev pub KeepsWith : {X : Type 0} → Phase → Session → Action (Session × X) → Type 0
  KeepsWith {X} p s m = Yields (Ready p s) (λ (r : Session × X). Ready p r.0) IsAllowed m

pub At-snoc :
    (first s t : Stage) (calls : List Call) (c : Call)
    → step s c ≡ some t
    → At first s calls
    → At first t (calls ++ (c ∷ []))
At-snoc first s t calls c e h = follow-snoc step first calls c ∙ (rw h e)

module _ (first : Stage) where
  pub call-At :
      (s t : Stage) (c : Call)
      → step s c ≡ some t
      → Yields (At first s) (λ k. At first t) (IsAllowed first) (call c)
  unfolding call
  call-At s t c e = record { from = λ calls h. At-snoc first s t calls c e h }

pub steady_stage_of : (p : Phase) → is_steady (stage_of p) ≡ true
steady_stage_of before = refl
steady_stage_of (resumed id) = refl
steady_stage_of (with_job id) = refl

-- Stopping is allowed in a steady stage.
module _ {A : Type 0} {Q : A → List Call → Type 0} (first s : Stage)
    (steady : is_steady s ≡ true) where
  pub raise-Stops : {e : Stop} → Yields (At first s) Q (IsAllowed first) (raise {A = A} e)
  raise-Stops = Yields-raise (λ calls h. (s, steady, h))

  pub abort-Stops :
      {F : Type 0} (w : World F) (status : ℕ)
      → Yields (At first s) Q (IsAllowed first) (abort w {A = A} status)
  unfolding abort
  abort-Stops w status = Yields-if w.kernel (λ _. raise-Stops) (λ _. raise-Stops)

module _ (first : Stage) (p : Phase) where
  pub Stays-pure : {A : Type 0} {a : A} → Stays first p (pure a)
  Stays-pure = Yields-pure (λ calls h. h)

  pub Stays-raise : {A : Type 0} {e : Stop} → Stays first p (raise {A = A} e)
  Stays-raise = raise-Stops first (stage_of p) (steady_stage_of p)

  pub Stays-bind :
      {A B : Type 0} {m : Action A} {f : A → Action B}
      → Stays first p m
      → ((a : A) → Stays first p (f a))
      → Stays first p (m >>= f)
  Stays-bind h k = Yields-bind (λ a. At first (stage_of p)) h k

  pub Stays-if :
      {A : Type 0} {m n : Action A} (b : Bool)
      → Stays first p m
      → Stays first p n
      → Stays first p (if b then m else n)
  Stays-if true h k = h
  Stays-if false h k = k

  pub Stays-or_error : {A : Type 0} (o : Option A) → Stays first p (or_error o)
  Stays-or_error none = Stays-raise
  Stays-or_error (some a) = Stays-pure

-- A chain, by what its first part does.
module _ (first : Stage) (p : Phase) {B : Type 0} {S : B → List Call → Type 0} (s : Session) where
  pub Stays-then :
      {A : Type 0} {m : Action A} {f : A → Action B}
      → Stays first p m
      → ((a : A) → Yields (Ready first p s) S (IsAllowed first) (f a))
      → Yields (Ready first p s) S (IsAllowed first) (m >>= f)
  Stays-then h k = Yields-bind (λ a. Ready first p s) (Yields-frame h) k

  pub Keeps-then :
      {m : Action Session} {f : Session → Action B}
      → Keeps first p s m
      → ((s' : Session) → Yields (Ready first p s') S (IsAllowed first) (f s'))
      → Yields (Ready first p s) S (IsAllowed first) (m >>= f)
  Keeps-then h k = Yields-bind (Ready first p) h k

  pub KeepsWith-then :
      {X : Type 0} {m : Action (Session × X)} {f : Session × X → Action B}
      → KeepsWith first p s m
      → ((r : Session × X) → Yields (Ready first p r.0) S (IsAllowed first) (f r))
      → Yields (Ready first p s) S (IsAllowed first) (m >>= f)
  KeepsWith-then h k = Yields-bind (λ r. Ready first p r.0) h k

  pub raise-Ready : {e : Stop} → Yields (Ready first p s) S (IsAllowed first) (raise {A = B} e)
  raise-Ready = Yields-fact (λ a. raise-Stops first (stage_of p) (steady_stage_of p))

  pub abort-Ready :
      {F : Type 0} (w : World F) (status : ℕ)
      → Yields (Ready first p s) S (IsAllowed first) (abort w {A = B} status)
  abort-Ready w status =
      Yields-fact (λ a. abort-Stops first (stage_of p) (steady_stage_of p) w status)

module _ (first : Stage) (p : Phase) (s : Session) where
  pub Keeps-pure : Keeps first p s (pure s)
  Keeps-pure = Yields-pure (λ calls h. h)

  pub KeepsWith-pure : {X : Type 0} (x : X) → KeepsWith first p s (pure (s, x))
  KeepsWith-pure x = Yields-pure (λ calls h. h)

pub ruleset stays_rules = (Stays-pure, Stays-raise, Stays-bind, Stays-if, Stays-or_error)

step_prompt : (p : Phase) → step (stage_of p) prompt ≡ some (stage_of p)
unfolding step
step_prompt before = refl
step_prompt (resumed id) = refl
step_prompt (with_job id) = refl

module _ {F : Type 0} (w : World F) (first : Stage) (p : Phase) where
  pub Stays-abort : {A : Type 0} (status : ℕ) → Stays first p (abort w {A = A} status)
  Stays-abort status = abort-Stops first (stage_of p) (steady_stage_of p) w status

  pub Stays-or_abort : {A : Type 0} (o : Option A) → Stays first p (or_abort w o)
  Stays-or_abort none = Stays-abort 1
  Stays-or_abort (some a) = search stays_rules

  Stays-prompt : Stays first p (call prompt)
  Stays-prompt = call-At first (stage_of p) (stage_of p) prompt (step_prompt p)

  ruleset prompt_rules = (stays_rules, Stays-abort, Stays-or_abort, Stays-prompt)

  pub Stays-pick : (options : List Text) → Stays first p (pick w options)
  unfolding pick
  Stays-pick options = search prompt_rules

  pub Stays-confirm : (default : Bool) → Stays first p (confirm w default)
  unfolding confirm
  Stays-confirm default = search prompt_rules

  pub Stays-text : (default : Text) → Stays first p (text w default)
  unfolding text
  Stays-text default = search prompt_rules

  pub Stays-multi_pick : (options : List Text) → Stays first p (multi_pick w options)
  unfolding multi_pick
  Stays-multi_pick options = search prompt_rules
