-- ===== src/Tuning/Selection.antt =====
-- crusoe-managed-finetuning-example/src/helper.py and run.py: the choice of the model and of the
-- files, and the upload. A list of uploaded ids in the settings that is no list of texts is taken
-- for an error.
pub mod Ids
use solutions_library.Prelude.{
  ℕ, suc, ◌^◌, Bool, true, false, Option, none, some, List, [], ◌∷◌, ◌++◌, map, ltb, if◌then◌else◌,
  not, is_nil, length,
}
use solutions_library.Prelude.Calls.{pure, raise, ◌>>=◌}
use mathlib.Core.Option
use solutions_library.Prelude.Sort.{sorted}
use solutions_library.Prelude.Text.{Text, codes, text_eq}
use solutions_library.Prelude.Dict.{insert}
use solutions_library.Prelude.Json.{Json, null, array}
use solutions_library.Transfer.Shard.{text_le}
use solutions_library.Tuning.Swagger.{is_truthy, as_text, as_list, get}
use solutions_library.Tuning.State.{Config, should_pick_model, resolve_train_id, resolve_val_id}
use solutions_library.Tuning.Service.{
  World, Action, Model, FileObject, list_models, check_file, retrieve_file, create_file, or_error,
  other_error, call, abort, or_abort, pick, text,
}
use solutions_library.Tuning.Overrides.{Session, save_config}

pub data FileAction : Type 0 where
  reuse upload skip : FileAction

abbrev pub has_text : Text → List Text → Bool
has_text t [] = false
has_text t (x ∷ xs) = if text_eq x t then true else has_text t xs

-- `sorted(set(ids) | {id})`, where the ids are a list
unfoldable pub add_id : Text → List Text → List Text
add_id id [] = id ∷ []
add_id id (x ∷ ids) = let rest = add_id id ids in if has_text x rest then rest else x ∷ rest

-- The texts of a list.
unfoldable pub as_texts : List Json → Option (List Text)
as_texts [] = some []
as_texts (v ∷ vs) =
    let rest = as_texts vs in elim (as_text v) [ none ↦ none | some t ↦ Option.map (◌∷◌ t) rest ]

-- The units from the k-th on.
unfoldable pub in_unit : (ℕ → ℕ → Text) → ℕ → ℕ → List Text → Text
in_unit scaled n k [] = scaled n k ++ codes " PB"
in_unit scaled n k (unit ∷ units) =
    let rest = in_unit scaled n (suc k) units in
    if ltb n (1024 ^ suc (suc k)) then scaled n (suc k) ++ (codes " " ++ unit) else rest

abbrev pub uploaded_ids : Config → Option (List Text)
uploaded_ids c = elim (as_list (get (codes "uploaded_file_ids") c)) [
  | none ↦ none
  | some vs ↦ as_texts vs
]

module _ {F : Type 0} (w : World F) where
  unfoldable pub human_size : ℕ → Text
  human_size n =
      if ltb n 1024
      then w.builtins.str_of (Json.num n) ++ codes " B"
      else in_unit w.builtins.scaled n 0 (codes "KB" ∷ codes "MB" ∷ codes "GB" ∷ codes "TB" ∷ [])

  unfoldable pub format_file : FileObject → Text
  format_file f =
      f.filename
      ++ (codes "  ("
          ++ (human_size f.bytes
              ++ (codes ", created "
                  ++ (w.strftime f.created_at
                      ++ (codes ", purpose " ++ (f.purpose ++ codes ")"))))))

  unfoldable pub display_model : Model → Text
  display_model m = m.model_name ++ (codes "  (id=" ++ (m.id ++ codes ")"))

  -- The loop that finds the model behind its text; `none` is its end.
  unfoldable pub model_shown : Text → List Model → Option Text
  model_shown chosen [] = none
  model_shown chosen (m ∷ models) =
      let rest = model_shown chosen models in
      if text_eq (display_model m) chosen then some m.id else rest

  unfoldable pub save_model : Session → Option Text → Action Session
  save_model s none = abort w 1
  save_model s (some id) = save_config w s (insert (codes "model_id") (Json.str id) s.config)

  unfoldable pub pick_model : Session → List Model → Action Session
  pick_model s models =
      if is_nil models
      then abort w 1
      else (do chosen ← pick w (map display_model models); save_model s (model_shown chosen models))

  -- Step 0
  unfoldable pub choose_model : Session → Action Session
  choose_model s =
      if should_pick_model s.config
      then (do k ← call list_models; models ← or_error (w.models k); pick_model s models)
      else pure s

  -- The same for a file.
  unfoldable pub file_shown : Text → List FileObject → Option Text
  file_shown chosen [] = none
  file_shown chosen (f ∷ files) =
      let rest = file_shown chosen files in
      if text_eq (format_file f) chosen then some f.id else rest

  unfoldable pub pick_uploaded_file : List FileObject → Action Text
  pick_uploaded_file files =
      if is_nil files
      then abort w 1
      else (do chosen ← pick w (map format_file files); or_abort w (file_shown chosen files))

  abbrev reuse_option : Text
  reuse_option = codes "Use an already-uploaded file"

  abbrev upload_option : Text
  upload_option = codes "Upload a local file"

  abbrev skip_option : Text
  skip_option = codes "Skip validation file"

  -- With the path, where a file is to be uploaded.
  unfoldable pub choose_file_action : Text → Bool → Action (FileAction × Text)
  choose_file_action default_path allow_skip = do
    choice ← pick w (reuse_option ∷ upload_option ∷ (if allow_skip then skip_option ∷ [] else []))
    (if text_eq choice reuse_option
        then pure (reuse, [])
        else if text_eq choice upload_option
        then (text w default_path >>= λ path. pure (upload, path))
        else pure (skip, []))

  -- The id of a file that was created, recorded in the settings.
  unfoldable pub record_id : Session → Text → Option (List Text) → Action (Session × Text)
  record_id s id none = raise other_error
  record_id s id (some ids) = do
    let all_ids = array (map Json.str (sorted text_le (add_id id ids)))
    s' ← save_config w s (insert (codes "uploaded_file_ids") all_ids s.config)
    pure (s', id)

  -- `crusoe.files.create(...)`
  unfoldable pub files_create : Text → Action Text
  files_create path calls =
      let id = w.file_created (length calls) in or_error id (calls ++ (create_file path id ∷ []))

  unfoldable pub upload_file : Session → Text → Action (Session × Text)
  upload_file s path = do
    k ← call (check_file path)
    if not (w.exists k path)
        then abort w 1
        else (files_create path >>= λ id. record_id s id (uploaded_ids s.config))

  unfoldable pub file_for : Session → List FileObject → FileAction × Text → Action (Session × Json)
  file_for s files (reuse, path) = do id ← pick_uploaded_file files; pure (s, Json.str id)
  file_for s files (upload, path) = do (s', id) ← upload_file s path; pure (s', Json.str id)
  file_for s files (skip, path) = pure (s, null)

  -- A choice that was saved before is checked against the service.
  unfoldable pub check_saved : Session → Json → Action Session
  check_saved s file_id =
      if is_truthy file_id
      then (do
        k ← call (retrieve_file file_id)
        elim (w.file k) [ none ↦ abort w 1 | some f ↦ pure s ])
      else pure s

  unfoldable pub select_file :
      Text → Text → Bool → Json × Bool → Session → List FileObject → Action Session
  select_file attr path_attr allow_skip (file_id, resolved) s files =
      if resolved then check_saved s file_id else (do
        default_path ← or_error (as_text (get path_attr s.config))
        chosen ← choose_file_action default_path allow_skip
        (s', id) ← file_for s files chosen
        save_config w s' (insert attr id s'.config))

  unfoldable pub select_training_file : Session → List FileObject → Action Session
  select_training_file s files =
      select_file (codes "train_id") (codes "train_file") false (resolve_train_id s.config) s files

  unfoldable pub select_validation_file : Session → List FileObject → Action Session
  select_validation_file s files =
      select_file (codes "val_id") (codes "val_file") true (resolve_val_id s.config) s files
