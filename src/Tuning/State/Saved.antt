-- ===== src/Tuning/State/Saved.antt =====
-- config.py: the dict of the fields that are saved, and of a job that is brought up to date.
use solutions_library.Prelude.{
  ◌≡◌, refl, Bool, true, false, Option, none, some, List, [], ◌∷◌, ◌||◌, is_nil, arith,
}
use solutions_library.Prelude.Text.{Text, codes, text_eq, text_eq_iff}
use solutions_library.Prelude.Dict.{Dict, lookup, insert, HasUniqueKeys, insert-HasUniqueKeys}
use solutions_library.Prelude.Json.{Json, null}
use solutions_library.Tuning.Swagger.{get}
use solutions_library.Tuning.State.{Config, state_fields, state_of, Job, set_model, refresh_job}
use solutions_library.Tuning.State.Attributes.{get-insert, get-cons}

abbrev pub is_field : Text → List Text → Bool
is_field k [] = false
is_field k (j ∷ js) = text_eq j k || is_field k js

pub get-state_of :
    (ks : List Text) (c : Config) (k : Text)
    → is_field k ks ≡ true
    → get k (state_of ks c) ≡ get k c
unfolding state_of
get-state_of [] c k h = cc
get-state_of (j ∷ ks) c k h =
    ground (arith, text_eq_iff j k, get-cons j k (get j c) (state_of ks c), get-state_of ks c k)

pub state_of-HasUniqueKeys : (c : Config) → HasUniqueKeys (state_of state_fields c)
unfolding state_of lookup text_eq
state_of-HasUniqueKeys c = ground arith

-- The dict that is saved.
abbrev pub saved : Text → Config → Dict Json
saved now c = insert (codes "updated_at") (Json.str now) (state_of state_fields c)

pub saved-HasUniqueKeys : (now : Text) (c : Config) → HasUniqueKeys (saved now c)
saved-HasUniqueKeys now c =
    insert-HasUniqueKeys (codes "updated_at") (Json.str now) (state_of state_fields c)
      (state_of-HasUniqueKeys c)

pub is_nil-insert : (k : Text) (v : Json) (d : Dict Json) → is_nil (insert k v d) ≡ false
unfolding insert
is_nil-insert k v [] = refl
is_nil-insert k v ((j, w) ∷ d) = ground arith

pub set_model-HasUniqueKeys :
    (model : Option Text) (d : Dict Json) → HasUniqueKeys d → HasUniqueKeys (set_model model d)
unfolding set_model
set_model-HasUniqueKeys none d h = h
set_model-HasUniqueKeys (some model) d h =
    ground (arith, insert-HasUniqueKeys (codes "fine_tuned_model") (Json.str model) d h)

pub refresh_job-HasUniqueKeys :
    (job : Option Job) (d : Dict Json) → HasUniqueKeys d → HasUniqueKeys (refresh_job job d)
unfolding refresh_job
refresh_job-HasUniqueKeys none d h = h
refresh_job-HasUniqueKeys (some job) d h =
    set_model-HasUniqueKeys job.fine_tuned_model _
      (insert-HasUniqueKeys (codes "job_status") (Json.str job.status) d h)

pub get-set_model :
    (model : Option Text) (d : Dict Json) (k : Text)
    → text_eq (codes "fine_tuned_model") k ≡ false
    → get k (set_model model d) ≡ get k d
unfolding set_model
get-set_model none d k h = refl
get-set_model (some model) d k h =
    ground (arith, get-insert (codes "fine_tuned_model") k (Json.str model) d)

pub get-refresh_job :
    (job : Option Job) (d : Dict Json) (k : Text)
    → is_field k (codes "job_status" ∷ codes "fine_tuned_model" ∷ []) ≡ false
    → get k (refresh_job job d) ≡ get k d
unfolding refresh_job
get-refresh_job none d k h = refl
get-refresh_job (some job) d k h =
    let before = get-insert (codes "job_status") k (Json.str job.status) d in
    let after =
      get-set_model job.fine_tuned_model (insert (codes "job_status") (Json.str job.status) d) k
        (ground arith) in
    ground (arith, before, after)

pub get-state_of-missing :
    (ks : List Text) (c : Config) (k : Text) → is_field k ks ≡ false → get k (state_of ks c) ≡ null
unfolding state_of get lookup
get-state_of-missing [] c k h = refl
get-state_of-missing (j ∷ ks) c k h = ground (arith, get-state_of-missing ks c k)

-- The file does not say whether a run is resumed.
pub get-saved-resuming : (now : Text) (c : Config) → get (codes "resuming") (saved now c) ≡ null
unfolding text_eq
get-saved-resuming now c = ground (
  arith,
  get-insert (codes "updated_at") (codes "resuming") (Json.str now) (state_of state_fields c),
  get-state_of-missing state_fields c (codes "resuming"),
)
