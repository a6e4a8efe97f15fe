-- ===== src/Tuning/Run/Files.antt =====
-- run.py: the choice of files. A file is uploaded only before there is a job, and then recorded.
use solutions_library.Prelude.{
  ◌≡◌, refl, Bool, true, false, not, Option, none, some, List, [], ◌∷◌, ◌++◌, map, length,
}
use solutions_library.Prelude.Sort.{sorted}
use solutions_library.Prelude.Text.{Text, codes, text_eq, text_eq_refl}
use solutions_library.Prelude.Dict.{insert}
use solutions_library.Prelude.Json.{Json, array}
use solutions_library.Prelude.Calls.{pure}
use solutions_library.Prelude.Calls.Yields.{
  Gives, Yields, Yields-bind, Yields-if, Yields-fact, Yields-frame,
}
use solutions_library.Transfer.Shard.{text_le}
use solutions_library.Tuning.Swagger.{is_truthy}
use solutions_library.Tuning.State.{Config}
use solutions_library.Tuning.State.Attributes.{get-insert}
use solutions_library.Tuning.Service.{
  World, Call, list_files, retrieve_file, check_file, create_file, write_state, FileObject,
  or_error, abort,
}
use solutions_library.Tuning.Overrides.{Session}
use solutions_library.Tuning.Selection.{
  FileAction, reuse, upload, skip, add_id, pick_uploaded_file, choose_file_action, record_id,
  files_create, upload_file, file_for, check_saved, select_file,
}
use solutions_library.Tuning.Selection.Ids.{has_str-add_id}
use solutions_library.Tuning.Run.Stages.{Stage, choosing, uploaded, step}
use solutions_library.Tuning.Run.Rules.{
  Phase, before, resumed, with_job, stage_of, Agrees, At, IsAllowed, Stays, Ready, Keeps, KeepsWith,
  At-snoc, call-At, raise-Stops, Stays-then, KeepsWith-then, abort-Ready, Keeps-pure,
  KeepsWith-pure, stays_rules, Stays-abort, Stays-or_abort, Stays-pick, Stays-text, Stays-or_error,
}
use solutions_library.Tuning.Run.Saving.{is_other, Agrees-insert, save_config-At, save_config-Keeps}

step_check_file :
    (p : Phase) (path : Text) → step (stage_of p) (check_file path) ≡ some (stage_of p)
unfolding step
step_check_file before path = refl
step_check_file (resumed id) path = refl
step_check_file (with_job id) path = refl

pub step_list_files : (p : Phase) → step (stage_of p) list_files ≡ some (stage_of p)
unfolding step
step_list_files before = refl
step_list_files (resumed id) = refl
step_list_files (with_job id) = refl

step_retrieve_file :
    (p : Phase) (id : Json) → step (stage_of p) (retrieve_file id) ≡ some (stage_of p)
unfolding step
step_retrieve_file before id = refl
step_retrieve_file (resumed id) f = refl
step_retrieve_file (with_job id) f = refl

module _ {F : Type 0} (w : World F) (first : Stage) (p : Phase) where
  ruleset choosing_rules = (stays_rules, Stays-abort, Stays-or_abort, Stays-pick, Stays-text)

  Stays-pick_uploaded_file : (files : List FileObject) → Stays first p (pick_uploaded_file w files)
  unfolding pick_uploaded_file
  Stays-pick_uploaded_file files = search choosing_rules

  Stays-choose_file_action :
      (path : Text) (allow_skip : Bool) → Stays first p (choose_file_action w path allow_skip)
  unfolding choose_file_action
  Stays-choose_file_action path allow_skip = search choosing_rules

-- The upload, before there is a job.
module _ {F : Type 0} (w : World F) (first : Stage) where
  created-At :
      (calls : List Call) (path : Text) (id : Option Text)
      → At first choosing calls
      → Gives
          (λ id. At first (uploaded id))
          (IsAllowed first)
          (or_error id (calls ++ (create_file path id ∷ [])))
  unfolding step
  created-At calls path none h = (choosing, refl, At-snoc first choosing choosing calls _ refl h)
  created-At calls path (some id) h = At-snoc first choosing (uploaded id) calls _ refl h

  files_create-At :
      (path : Text)
      → Yields
          (At first choosing)
          (λ id. At first (uploaded id))
          (IsAllowed first)
          (files_create w path)
  unfolding files_create
  files_create-At path = record {
    from = λ calls h. created-At calls path (w.file_created (length calls)) h;
  }

  step_listed :
      (id : Text) (ids : List Text) (now : Text) (c : Config)
      → step (uploaded id) (
          write_state now (
            insert
              (codes "uploaded_file_ids")
              (array (map Json.str (sorted text_le (add_id id ids))))
              c))
        ≡ some choosing
  unfolding step
  step_listed id ids now c =
      let listed =
        get-insert (codes "uploaded_file_ids") (codes "uploaded_file_ids")
          (array (map Json.str (sorted text_le (add_id id ids)))) c in
      rw listed (rw (text_eq_refl (codes "uploaded_file_ids")) (rw (has_str-add_id id ids) refl))

  record_id-Keeps :
      (s : Session) (id : Text) (ids : Option (List Text))
      → Yields
          (λ calls. Agrees before s.config × At first (uploaded id) calls)
          (λ (r : Session × Text). Ready first before r.0)
          (IsAllowed first)
          (record_id w s id ids)
  unfolding record_id text_eq step
  record_id-Keeps s id none = Yields-fact (λ a. raise-Stops first (uploaded id) refl)
  record_id-Keeps s id (some ids) =
      Yields-bind (Ready first before)
        (Yields-fact (λ a.
          save_config-At w first s (uploaded id) before _ (λ now. step_listed id ids now s.config)
            refl (Agrees-insert before (codes "uploaded_file_ids") _ s.config refl a)))
        (λ s'. KeepsWith-pure first before s' id)

  upload_file-Keeps : (s : Session) (path : Text) → KeepsWith first before s (upload_file w s path)
  unfolding upload_file
  upload_file-Keeps s path =
      Stays-then first before s (call-At first _ _ (check_file path) (step_check_file before path))
        (λ k.
          Yields-if (not (w.exists k path)) (λ _. abort-Ready first before s w 1)
            (λ _.
              Yields-bind (λ id calls. Agrees before s.config × At first (uploaded id) calls)
                (Yields-frame (files_create-At path)) (λ id. record_id-Keeps s id _)))

  file_for-Keeps :
      (s : Session) (files : List FileObject) (action : FileAction) (path : Text)
      → KeepsWith first before s (file_for w s files (action, path))
  unfolding file_for
  file_for-Keeps s files reuse path =
      Stays-then first before s (Stays-pick_uploaded_file w first before files)
        (λ id. KeepsWith-pure first before s _)
  file_for-Keeps s files upload path =
      KeepsWith-then first before s (upload_file-Keeps s path)
        (λ r. KeepsWith-pure first before r.0 _)
  file_for-Keeps s files skip path = KeepsWith-pure first before s _

  -- What was chosen before is only looked up.
  pub check_saved-Keeps :
      (p : Phase) (s : Session) (id : Json) → Keeps first p s (check_saved w s id)
  unfolding check_saved
  check_saved-Keeps p s id =
      Yields-if (is_truthy id)
        (λ _.
          Stays-then first p s (call-At first _ _ (retrieve_file id) (step_retrieve_file p id))
            (λ k. found p s (w.file k)))
        (λ _. Keeps-pure first p s)
    where
      found :
          (p : Phase) (s : Session) (o : Option FileObject)
          → Keeps first p s (elim o [ none ↦ abort w 1 | some f ↦ pure s ])
      found p s none = abort-Ready first p s w 1
      found p s (some f) = Keeps-pure first p s

  choose_file-Keeps :
      (attr path_attr : Text) (allow_skip : Bool) (id : Json) (s : Session)
      (files : List FileObject)
      → is_other attr ≡ true
      → Keeps first before s (select_file w attr path_attr allow_skip (id, false) s files)
  unfolding select_file
  choose_file-Keeps attr path_attr allow_skip id s files other =
      Stays-then first before s (Stays-or_error first before _) (λ path.
        Stays-then first before s (Stays-choose_file_action w first before path allow_skip)
          (λ chosen.
            KeepsWith-then first before s (file_for-Keeps s files chosen.0 chosen.1)
              (λ r. save_config-Keeps w first before r.0 attr r.1 other)))

  pub select_file-Keeps :
      (attr path_attr : Text) (allow_skip : Bool) (o : Json × Bool) (s : Session)
      (files : List FileObject)
      → is_other attr ≡ true
      → Keeps first before s (select_file w attr path_attr allow_skip o s files)
  unfolding select_file
  select_file-Keeps attr path_attr allow_skip (id, true) s files other =
      check_saved-Keeps before s id
  select_file-Keeps attr path_attr allow_skip (id, false) s files other =
      choose_file-Keeps attr path_attr allow_skip id s files other
