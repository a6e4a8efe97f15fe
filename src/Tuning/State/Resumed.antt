-- ===== src/Tuning/State/Resumed.antt =====
-- config.py: what a run finds that is resumed from the file of another.
use solutions_library.Prelude.{
  ◌≡◌, refl, sym, ◌∙◌, ap, inl, inr, Bool, true, false, Option, some, List, [], ◌∷◌, if◌then◌else◌,
  Bool-cases, arith,
}
use solutions_library.Prelude.Text.{Text, codes, text_eq, text_eq_refl, text_eq_iff}
use solutions_library.Prelude.Dict.{Dict, contains, insert, lookup-insert, HasUniqueKeys}
use solutions_library.Prelude.Json.{Json, null, object, entries-fields}
use solutions_library.Tuning.Cache.{Codec}
use solutions_library.Tuning.Swagger.{is_truthy, get}
use solutions_library.Tuning.State.{
  Config, state_fields, state_of, Job, refresh_job, state_from, set_all, save, load_state, resumed,
  resume_from, prompt_resume,
}
use solutions_library.Prelude.Options.{◌>>=◌}
use solutions_library.Tuning.State.Saved.{
  is_field, get-state_of, saved, saved-HasUniqueKeys, is_nil-insert, refresh_job-HasUniqueKeys,
  get-refresh_job, get-saved-resuming,
}
use solutions_library.Tuning.State.Attributes.{or_default, contains-insert, get-insert, get-set_all}

pub load_state-save :
    (codec : Codec) (now : Text) (c : Config)
    → ((v : Json) → codec.loads (codec.dumps v) ≡ some v)
    → load_state codec (some (save codec now c)) ≡ some (saved now c)
unfolding load_state save state_from
load_state-save codec now c survive =
    ap state_from (survive (object (saved now c))) ∙ ap some (entries-fields (saved now c))

-- What a resumed run takes over as it was: the fields but the time of the saving and the two that
-- the service may bring up to date.
abbrev pub carried_fields : List Text
carried_fields =
    codes "model_id"
    ∷ codes "train_id"
    ∷ codes "val_id"
    ∷ codes "hyperparameters"
    ∷ codes "job_id"
    ∷ codes "downloaded"
    ∷ codes "out_dir_path"
    ∷ codes "uploaded_file_ids"
    ∷ codes "created_at"
    ∷ []

apart :
    (ks : List Text) (j k : Text)
    → is_field k ks ≡ true
    → is_field j ks ≡ false
    → text_eq j k ≡ false
apart ks j k h n = elim (Bool-cases (text_eq j k)) [
  | inl e ↦
      let same : j ≡ k = (text_eq_iff j k).0 e in
      let clash : true ≡ false = sym h ∙ (ap (λ t. is_field t ks) (sym same) ∙ n) in
      absurd (cc clash)
  | inr e ↦ e
]

listed_state : (k : Text) → is_field k carried_fields ≡ true → is_field k state_fields ≡ true
listed_state k h = ground arith

not_carried :
    (is_field (codes "updated_at") carried_fields ≡ false)
    × (is_field (codes "job_status") carried_fields ≡ false)
    × (is_field (codes "fine_tuned_model") carried_fields ≡ false)
    × (is_field (codes "resuming") carried_fields ≡ false)
unfolding text_eq
not_carried = (refl, refl, refl, refl)

pub get-saved :
    (now : Text) (c : Config) (k : Text)
    → is_field k carried_fields ≡ true
    → get k (saved now c) ≡ get k c
get-saved now c k h =
    let other = apart carried_fields (codes "updated_at") k h not_carried.0 in
    ground (
      arith,
      other,
      get-insert (codes "updated_at") k (Json.str now) (state_of state_fields c),
      get-state_of state_fields c k (listed_state k h),
    )

get-set_all-insert :
    (state d : Dict Json) (k : Text)
    → HasUniqueKeys state
    → is_field k carried_fields ≡ true
    → contains k d ≡ true
    → get k (set_all state (insert (codes "resuming") (Json.bool true) d))
      ≡ or_default (get k state) (get k d)
get-set_all-insert state d k unique h has =
    let flag = apart carried_fields (codes "resuming") k h not_carried.3 in
    let all =
      get-set_all state (insert (codes "resuming") (Json.bool true) d) k unique
        (contains-insert (codes "resuming") k (Json.bool true) d has) in
    ground (arith, flag, all, get-insert (codes "resuming") k (Json.bool true) d)

-- The attributes of a run that is resumed from a state.
pub get-resumed :
    (state d : Dict Json) (job : Option Job) (k : Text) (b : Bool)
    → HasUniqueKeys state
    → is_field k carried_fields ≡ true
    → contains k d ≡ true
    → get k (
        set_all
          (if b then refresh_job job state else state)
          (insert (codes "resuming") (Json.bool true) d))
      ≡ or_default (get k state) (get k d)
get-resumed state d job k false unique h has = get-set_all-insert state d k unique h has
get-resumed state d job k true unique h has =
    let status = apart carried_fields (codes "job_status") k h not_carried.1 in
    let model = apart carried_fields (codes "fine_tuned_model") k h not_carried.2 in
    let same : get k (refresh_job job state) ≡ get k state =
      get-refresh_job job state k (ground (arith, status, model)) in
    get-set_all-insert (refresh_job job state) d k (refresh_job-HasUniqueKeys job state unique) h
      has
    ∙ ap (λ v. or_default v (get k d)) same

get-refreshed-resuming :
    (job : Option Job) (b : Bool) (state : Dict Json)
    → get (codes "resuming") (if b then refresh_job job state else state)
      ≡ get (codes "resuming") state
unfolding text_eq
get-refreshed-resuming job true state = get-refresh_job job state (codes "resuming") refl
get-refreshed-resuming job false state = refl

refreshed-HasUniqueKeys :
    (job : Option Job) (b : Bool) (now : Text) (c : Config)
    → HasUniqueKeys (if b then refresh_job job (saved now c) else saved now c)
refreshed-HasUniqueKeys job true now c =
    refresh_job-HasUniqueKeys job (saved now c) (saved-HasUniqueKeys now c)
refreshed-HasUniqueKeys job false now c = saved-HasUniqueKeys now c

contains-insert_same : (k : Text) (v : Json) (d : Config) → contains k (insert k v d) ≡ true
contains-insert_same k v d = ground (arith, lookup-insert k k v d, text_eq_refl k)

get-insert_same : (k : Text) (v : Json) (d : Config) → get k (insert k v d) ≡ v
get-insert_same k v d = ground (arith, get-insert k k v d, text_eq_refl k)

-- The attributes behind the loop over a saved state.
abbrev pub reloaded : Option Job → Bool → Text → Config → Config → Config
reloaded job b now c d =
    set_all (if b then refresh_job job (saved now c) else saved now c)
      (insert (codes "resuming") (Json.bool true) d)

pub get-reloaded-resuming :
    (job : Option Job) (b : Bool) (now : Text) (c d : Config)
    → get (codes "resuming") (reloaded job b now c d) ≡ Json.bool true
get-reloaded-resuming job b now c d =
    let state = (if b then refresh_job job (saved now c) else saved now c) in
    let absent : get (codes "resuming") state ≡ null =
      get-refreshed-resuming job b (saved now c) ∙ get-saved-resuming now c in
    get-set_all state (insert (codes "resuming") (Json.bool true) d) (codes "resuming")
      (refreshed-HasUniqueKeys job b now c)
      (contains-insert_same (codes "resuming") (Json.bool true) d)
    ∙ (rw absent (get-insert_same (codes "resuming") (Json.bool true) d))

resumed_lem :
    (codec : Codec) (now : Text) (file : Option Text) (c : Config)
    → get (codes "resuming") c ≡ Json.bool true
    → resumed codec now file c ≡ (c, file)
unfolding resumed is_truthy
resumed_lem codec now file c e = rw e refl

-- If JSON values survive being written, a run that is resumed from what another run saved has in
-- each of the nine carried fields the value that was saved, or its own default where that is
-- `None`, and leaves the file as it is, whatever the service answers. The settings that it begins
-- with have the field. It is marked as resumed.
pub prompt_resume-save :
    (codec : Codec) (c d : Config) (job : Option Job) (now later : Text) (k : Text)
    → ((v : Json) → codec.loads (codec.dumps v) ≡ some v)
    → is_field k carried_fields ≡ true
    → contains k d ≡ true
    → (r : Config) × (prompt_resume codec job true later d (some (save codec now c))
        ≡ some (r, some (save codec now c)))
      × (get (codes "resuming") r ≡ Json.bool true)
      × (get k r ≡ or_default (get k c) (get k d))
unfolding prompt_resume resume_from
prompt_resume-save codec c d job now later k survive h has =
    let b = is_truthy (get (codes "job_id") (saved now c)) in
    let some_state = is_nil-insert (codes "updated_at") (Json.str now) (state_of state_fields c) in
    let flag = get-reloaded-resuming job b now c d in
    (
      reloaded job b now c d,
      ap
            (λ o. o >>= λ state.
              some (resume_from codec state job true later d (some (save codec now c))))
            (load_state-save codec now c survive)
          ∙ ap some (rw some_state (resumed_lem codec later _ (reloaded job b now c d) flag)),
      flag,
      get-resumed (saved now c) d job k b (saved-HasUniqueKeys now c) h has
          ∙ ap (λ v. or_default v (get k d)) (get-saved now c k h),
    )
