-- ===== src/Tuning/Run/Recorded.antt =====
-- run.py: a job that is launched is found again.
use solutions_library.Prelude.{
  ◌≡◌, refl, inl, inr, Bool, true, false, Option, some, List, [], ◌∷◌, select, subst, arith,
}
use solutions_library.Prelude.Text.{Text, codes}
use solutions_library.Prelude.Json.{Json}
use solutions_library.Prelude.Calls.Follow.{follow}
use solutions_library.Tuning.Swagger.{get}
use solutions_library.Tuning.State.{Config, resume_from_job}
use solutions_library.Tuning.Service.{World, Call, create_file, create_job}
use solutions_library.Tuning.Overrides.{Session}
use solutions_library.Tuning.Run.{run_steps}
use solutions_library.Tuning.Run.Stages.{
  Stage, choosing, uploaded, launched, running, cancelling, closed, broken, step, is_steady,
}
use solutions_library.Tuning.Run.Rules.{before, resumed}
use solutions_library.Tuning.Run.Promises.{run_steps-IsAllowed}
use solutions_library.Tuning.Run.Known.{Left, left_by, Names, IsRecorded, Knows, follow-Knows}
use solutions_library.Prelude.Options.{>>=-eq-some}

-- What is made in the account.
abbrev pub is_creation : Call → Bool
is_creation (create_job kwargs id) = true
is_creation (create_file path id) = true
is_creation _ = false

-- The stages with a job.
abbrev pub is_settled : Stage → Bool
is_settled (running id) = true
is_settled cancelling = true
is_settled closed = true
is_settled broken = true
is_settled _ = false

settled_step :
    (s t : Stage) (c : Call)
    → is_settled s ≡ true
    → step s c ≡ some t
    → (is_settled t ≡ true) × (is_creation c ≡ false)
unfolding step
settled_step s t c b h = ground arith

pub select-settled :
    (calls : List Call) (s t : Stage)
    → is_settled s ≡ true
    → follow step s calls ≡ some t
    → select is_creation calls ≡ []
unfolding follow
select-settled [] s t b h = refl
select-settled (c ∷ calls) s t b h =
    let (u, first, rest) = >>=-eq-some (step s c) _ h in
    let (b', passive) = settled_step s u c b first in rw passive (select-settled calls u t b' rest)

named_again : (l : Left) (id j : Text) → Knows (running id) l → l.jobs ≡ j ∷ [] → Names j l.file
named_again l id j k one = let same : id ≡ j = cc in subst (λ i. Names i l.file) same k.1

Knows-IsRecorded : (t : Stage) (l : Left) → is_steady t ≡ true → Knows t l → IsRecorded l
Knows-IsRecorded choosing l b k = (inl k, inr (inr (λ id one. absurd (cc))))
Knows-IsRecorded (uploaded id) l b k = (inl k, inr (inr (λ id one. absurd (cc))))
Knows-IsRecorded (launched id) l b k = absurd (cc b)
Knows-IsRecorded (running id) l b k = (inr (id, k.0), inr (inr (λ j one. named_again l id j k one)))
Knows-IsRecorded cancelling l b k = absurd (cc b)
Knows-IsRecorded closed l b k = (inr (k.0, k.1), inr (inl k.2))
Knows-IsRecorded broken l b k = (k.0, inl k.1)

-- What a run leaves that begins with nothing launched, and a state file or none.
abbrev pub left_new : {F : Type 0} → World F → Session → Option Config → Left
left_new w s file =
    left_by (record { jobs = []; file = file; cancelled = false; unwritten = false })
      (run_steps w s []).0

-- A run that is not resumed with a job launches one job at most, however it ends. If it has
-- launched one, its state file names that job, unless an attempt to write the file failed, or the
-- user asked to cancel the job, whatever the service made of that.
pub run_steps_new-IsRecorded :
    {F : Type 0} (w : World F) (s : Session) (file : Option Config)
    → resume_from_job s.config ≡ false
    → IsRecorded (left_new w s file)
run_steps_new-IsRecorded w s file h =
    let (t, steady, followed) = run_steps-IsAllowed w before s tt h in
    Knows-IsRecorded t _ steady (follow-Knows (run_steps w s []).0 choosing t _ followed refl)

-- A run that is resumed with a job creates no job and uploads no file.
pub run_steps_resumed-creates :
    {F : Type 0} (w : World F) (s : Session) (id : Text)
    → get (codes "job_id") s.config ≡ Json.str id
    → resume_from_job s.config ≡ true
    → select is_creation (run_steps w s []).0 ≡ []
run_steps_resumed-creates w s id e h =
    let (t, steady, followed) = run_steps-IsAllowed w (resumed id) s tt (e, h) in
    select-settled (run_steps w s []).0 (running id) t refl followed
