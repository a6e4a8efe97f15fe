-- ===== src/Tuning/Run/Relaunch.antt =====
-- run.py and config.py: a run that follows another takes its job up.
use solutions_library.Prelude.{
  ◌≡◌, refl, ◌∙◌, inl, inr, true, false, Option, none, some, List, [], ◌∷◌, select, is_nil,
}
use solutions_library.Prelude.Text.{Text, codes, text_eq}
use solutions_library.Prelude.Dict.{Dict, lookup, contains}
use solutions_library.Prelude.Json.{Json}
use solutions_library.Tuning.Cache.{Codec, File}
use solutions_library.Tuning.Schema.{Spec}
use solutions_library.Tuning.Swagger.{is_truthy, get}
use solutions_library.Tuning.State.{Config, Job, defaults, save, resume_from_job, prompt_resume}
use solutions_library.Tuning.State.Saved.{is_field}
use solutions_library.Tuning.State.Resumed.{carried_fields, prompt_resume-save}
use solutions_library.Tuning.Service.{World}
use solutions_library.Tuning.Overrides.{Session}
use solutions_library.Tuning.Run.{run_steps}
use solutions_library.Tuning.Run.Known.{Left, Names, IsRecorded}
use solutions_library.Tuning.Run.Recorded.{
  is_creation, left_new, run_steps_new-IsRecorded, run_steps_resumed-creates,
}

named_file :
    (o : Option Config) (id : Text)
    → Names id o
    → (c : Config) × (o ≡ some c) × (get (codes "job_id") c ≡ Json.str id)
named_file none id named = absurd named
named_file (some c) id named = (c, refl, named)

pub names_job :
    (l : Left) (id : Text)
    → IsRecorded l
    → l.jobs ≡ id ∷ []
    → l.cancelled ≡ false
    → l.unwritten ≡ false
    → (c : Config) × (l.file ≡ some c) × (get (codes "job_id") c ≡ Json.str id)
names_job l id (most, inl failed) one kept written = absurd (cc)
names_job l id (most, inr (inl gone)) one kept written = absurd (cc)
names_job l id (most, inr (inr named)) one kept written = named_file l.file id (named id one)

pub carried_job : is_field (codes "job_id") carried_fields ≡ true
unfolding text_eq
carried_job = refl

pub has_job : (key : Text) → contains (codes "job_id") (defaults key) ≡ true
unfolding lookup text_eq
has_job key = refl

pub is_resumed :
    (r : Config) (id : Text)
    → is_nil id ≡ false
    → get (codes "resuming") r ≡ Json.bool true
    → get (codes "job_id") r ≡ Json.str id
    → resume_from_job r ≡ true
unfolding resume_from_job is_truthy
is_resumed r id some_id flag job = rw (flag, job) (rw some_id refl)

-- After a run that has launched a job, could write its state file each time, and was not asked to
-- cancel the job, however it ended, there are settings in
-- the state file from which the next run resumes, and that one creates no job and uploads no file.
-- JSON values survive being written, the id of the job is not empty, and the user agrees to resume.
pub run_steps_again-creates :
    {F G : Type 0} (w : World F) (w' : World G) (s : Session) (file : Option Config) (id : Text)
    (codec : Codec) (job : Option Job) (now later key : Text) (memo : Dict (List Spec))
    (cache : Option File)
    → ((v : Json) → codec.loads (codec.dumps v) ≡ some v)
    → is_nil id ≡ false
    → resume_from_job s.config ≡ false
    → (left_new w s file).jobs ≡ id ∷ []
    → (left_new w s file).cancelled ≡ false
    → (left_new w s file).unwritten ≡ false
    → (c : Config) × ((left_new w s file).file ≡ some c)
      × ((r : Config) × (prompt_resume codec job true later (defaults key) (some (save codec now c))
            ≡ some (r, some (save codec now c)))
          × (select is_creation
                (run_steps w' (record { config = r; memo = memo; cache = cache }) []).0
              ≡ []))
run_steps_again-creates w w' s file id codec job now later key memo cache survive some_id fresh one
      kept saved =
    let (c, written, named) =
      names_job (left_new w s file) id (run_steps_new-IsRecorded w s file fresh) one kept saved in
    let (r, resumes, flag, carried) =
      prompt_resume-save codec c (defaults key) job now later (codes "job_id") survive carried_job
        (has_job key) in
    let same : get (codes "job_id") r ≡ Json.str id = carried ∙ (rw named refl) in
    (
      c,
      written,
      (
        r,
        resumes,
        run_steps_resumed-creates w' (record { config = r; memo = memo; cache = cache }) id same
            (is_resumed r id some_id flag same),
      ),
    )
