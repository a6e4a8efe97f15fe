-- ===== src/Tuning/Run/Known.antt =====
-- run.py: what each stage knows of the jobs and of the state file.
use solutions_library.Prelude.{
  ◌≡◌, refl, ap, ◌⊎◌, inl, inr, Bool, true, false, Option, none, some, List, [], ◌∷◌, arith, subst,
  if◌then◌else◌,
}
use mathlib.Core.Option.{some-injective}
use solutions_library.Prelude.Text.{Text, codes, text_eq_iff}
use solutions_library.Prelude.Json.{Json}
use solutions_library.Prelude.Calls.Follow.{follow}
use solutions_library.Tuning.Swagger.{is_str, get}
use solutions_library.Tuning.State.{Config}
use solutions_library.Tuning.Service.{
  Call, prompt, write_state, write_failed, remove_state, read_catalog, list_models, list_files,
  retrieve_file, check_file, create_file, delete_file, create_job, retrieve_job, cancel_job,
  poll_job, await_model, list_checkpoints, download,
}
use solutions_library.Tuning.Run.Stages.{
  Stage, choosing, uploaded, launched, running, cancelling, closed, broken, step,
}
use solutions_library.Prelude.Options.{>>=-eq-some}

-- The jobs that were launched, the settings in the state file, whether the job was to be cancelled,
-- whatever came of that, and whether the state file could not be written.
pub record Left : Type 0 where
  pub jobs : List Text
  pub file : Option Config
  pub cancelled : Bool
  pub unwritten : Bool

abbrev pub account : Left → Call → Left
account l (create_job kwargs (some id)) = record l { jobs = id ∷ l.jobs }
account l (write_state now c) = record l { file = some c }
account l write_failed = record l { unwritten = true }
account l remove_state = record l { file = none }
account l (cancel_job id) = record l { cancelled = true }
account l _ = l

unfoldable pub left_by : Left → List Call → Left
left_by l [] = l
left_by l (c ∷ calls) = left_by (account l c) calls

-- The state file names the job.
abbrev pub Names : Text → Option Config → Type 0
Names id none = ⊥
Names id (some c) = get (codes "job_id") c ≡ Json.str id

abbrev pub IsOneAtMost : List Text → Type 0
IsOneAtMost jobs = (jobs ≡ []) ⊎ ((id : Text) × (jobs ≡ id ∷ []))

-- No job, or one that the state file names, unless that could not be written or the job was to be
-- cancelled.
abbrev pub IsRecorded : Left → Type 0
IsRecorded l =
    IsOneAtMost l.jobs
    × ((l.unwritten ≡ true)
        ⊎ ((l.cancelled ≡ true) ⊎ ((id : Text) → l.jobs ≡ id ∷ [] → Names id l.file)))

-- What each stage knows.
abbrev pub Knows : Stage → Left → Type 0
Knows choosing l = l.jobs ≡ []
Knows (uploaded id) l = l.jobs ≡ []
Knows (launched id) l = l.jobs ≡ id ∷ []
Knows (running id) l = (l.jobs ≡ id ∷ []) × Names id l.file
Knows cancelling l = (id : Text) × (l.jobs ≡ id ∷ []) × (l.cancelled ≡ true)
Knows closed l = (id : Text) × (l.jobs ≡ id ∷ []) × (l.cancelled ≡ true)
Knows broken l = IsOneAtMost l.jobs × (l.unwritten ≡ true)

kept : (s t : Stage) (l : Left) → some s ≡ some t → Knows s l → Knows t l
kept s t l e k = subst (λ t. Knows t l) (some-injective _ _ e) k

passive :
    (s t : Stage) (b : Bool) (l : Left)
    → (if b then some s else none) ≡ some t
    → Knows s l
    → Knows t l
passive s t true l h k = kept s t l h k
passive s t false l h k = absurd (cc h)

written :
    (id : Text) (v : Json) (t : Stage)
    → (if is_str id v then some (running id) else none) ≡ some t
    → (v ≡ Json.str id) × (some (running id) ≡ some t)
written id (Json.str s) t h = ground (arith, text_eq_iff s id)
written id _ t h = absurd (cc h)

from_choosing :
    (t : Stage) (c : Call) (l : Left)
    → step choosing c ≡ some t
    → Knows choosing l
    → Knows t (account l c)
unfolding step
from_choosing t (create_file path (some id)) l h k = kept (uploaded id) t l h k
from_choosing t (create_job kwargs (some id)) l h k =
    kept (launched id) t (account l (create_job kwargs (some id))) h (ap (λ jobs. id ∷ jobs) k)
from_choosing t (write_state now c) l h k = kept choosing t (account l (write_state now c)) h k
from_choosing t write_failed l h k = kept broken t (account l write_failed) h (inl k, refl)
from_choosing t prompt l h k = kept choosing t l h k
from_choosing t read_catalog l h k = kept choosing t l h k
from_choosing t list_models l h k = kept choosing t l h k
from_choosing t list_files l h k = kept choosing t l h k
from_choosing t (retrieve_file id) l h k = kept choosing t l h k
from_choosing t (check_file path) l h k = kept choosing t l h k
from_choosing t (create_file path none) l h k = kept choosing t l h k
from_choosing t (create_job kwargs none) l h k = kept choosing t l h k
from_choosing t c l h k = absurd (cc h)

from_running :
    (id : Text) (t : Stage) (c : Call) (l : Left)
    → step (running id) c ≡ some t
    → Knows (running id) l
    → Knows t (account l c)
unfolding step
from_running id t (write_state now c) l h k =
    let (named, same) = written id (get (codes "job_id") c) t h in
    kept (running id) t (record l { file = some c }) same (k.0, named)
from_running id t (cancel_job job) l h k =
    kept cancelling t (record l { cancelled = true }) h (id, k.0, refl)
from_running id t write_failed l h k =
    kept broken t (account l write_failed) h (inr (id, k.0), refl)
from_running id t prompt l h k = kept (running id) t l h k
from_running id t read_catalog l h k = kept (running id) t l h k
from_running id t list_models l h k = kept (running id) t l h k
from_running id t list_files l h k = kept (running id) t l h k
from_running id t (retrieve_file f) l h k = kept (running id) t l h k
from_running id t (check_file path) l h k = kept (running id) t l h k
from_running id t (retrieve_job f) l h k = kept (running id) t l h k
from_running id t (poll_job f) l h k = kept (running id) t l h k
from_running id t (await_model f) l h k = kept (running id) t l h k
from_running id t (list_checkpoints f) l h k = kept (running id) t l h k
from_running id t (download f) l h k = kept (running id) t l h k
from_running id t (delete_file f) l h k = kept (running id) t l h k
from_running id t c l h k = absurd (cc h)

step-Knows :
    (s t : Stage) (c : Call) (l : Left) → step s c ≡ some t → Knows s l → Knows t (account l c)
unfolding step
step-Knows choosing t c l h k = from_choosing t c l h k
step-Knows (running id) t c l h k = from_running id t c l h k
step-Knows (launched id) t (write_state now c) l h k =
    let (named, same) = written id (get (codes "job_id") c) t h in
    kept (running id) t (record l { file = some c }) same (k, named)
step-Knows (launched id) t write_failed l h k =
    kept broken t (account l write_failed) h (inr (id, k), refl)
step-Knows (uploaded id) t write_failed l h k =
    kept broken t (account l write_failed) h (inl k, refl)
step-Knows (uploaded id) t (write_state now c) l h k =
    passive choosing t _ (record l { file = some c }) h k
step-Knows cancelling t remove_state l h k = kept closed t (record l { file = none }) h k
step-Knows s t c l h k = absurd (cc h)

pub follow-Knows :
    (calls : List Call) (s t : Stage) (l : Left)
    → follow step s calls ≡ some t
    → Knows s l
    → Knows t (left_by l calls)
unfolding follow left_by
follow-Knows [] s t l h k = kept s t l h k
follow-Knows (c ∷ calls) s t l h k =
    let (u, first, rest) = >>=-eq-some (step s c) _ h in
    follow-Knows calls u t (account l c) rest (step-Knows s u c l first k)
