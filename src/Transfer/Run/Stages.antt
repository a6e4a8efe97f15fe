-- ===== src/Transfer/Run/Stages.antt =====
-- run.py, in the abstract: the stages of a transfer, and the calls that each of them allows. This
-- is the pipeline that the comment at the head of run.py lists.
use solutions_library.Prelude.{
  ℕ, ◌≤◌, ◌≡◌, ◌∙◌, Bool, false, Option, none, some, if◌then◌else◌, arith,
}
use solutions_library.Prelude.Text.{Text, codes, text_eq}
use solutions_library.Prelude.Dict.{lookup}
use solutions_library.Prelude.Json.{Json, entries}
use solutions_library.Transfer.Manifests.{worker_label}
use solutions_library.Transfer.Kubectl.{
  Call, get_version, get_nodes, get_storage_class, get_pods, apply, apply_cluster, wait_ready, exec,
  cp_to, logs, delete_pods, write_file, write_generated,
}

-- What a manifest is for.
pub data Part : Type 0 where
  class secret volume claim master worker unknown : Part

abbrev member : Text → Json → Json
member k (Json.obj fs) = elim (lookup k (entries fs)) [ none ↦ Json.null | some v ↦ v ]
member k _ = Json.null

abbrev is_text : Text → Json → Bool
is_text s (Json.str t) = text_eq t s
is_text s _ = false

-- By its kind, and a pod by its label.
unfoldable pub part_of : Json → Part
part_of j =
    let kind = member (codes "kind") j in
    let app = member (codes "app") (member (codes "labels") (member (codes "metadata") j)) in
    if is_text (codes "StorageClass") kind
    then class
    else if is_text (codes "Secret") kind
    then secret
    else if is_text (codes "PersistentVolume") kind
    then volume
    else if is_text (codes "PersistentVolumeClaim") kind
    then claim
    else if is_text (codes "Pod") kind
    then (if is_text worker_label app then worker else master)
    else unknown

pub data Stage : Type 0 where
  checking reached counted unclassed classed secured bound claimed created : Stage
  ready listed sharding copying launching watching reporting cleaning cleaned : Stage

unfoldable pub step_apply : Stage → Part → Option Stage
step_apply counted secret = some secured
step_apply classed secret = some secured
step_apply unclassed secret = some secured
step_apply secured volume = some bound
step_apply secured claim = some claimed
step_apply bound claim = some claimed
step_apply claimed master = some created
step_apply launching worker = some launching
step_apply _ _ = none

-- The stage behind a call, where the stage allows it.
unfoldable pub step : Stage → Call → Option Stage
step checking (write_generated _ _) = some checking
step checking get_version = some reached
step reached (get_nodes _) = some counted
step counted (get_storage_class _) = some unclassed
step unclassed (apply_cluster _) = some classed
step created (wait_ready _) = some ready
step ready (exec _ _) = some listed
step listed (exec _ _) = some sharding
step sharding (write_file _ _) = some sharding
step sharding (cp_to _ _ _) = some copying
step sharding (get_nodes _) = some launching
step copying (cp_to _ _ _) = some copying
step copying (get_nodes _) = some launching
step launching (get_pods _) = some watching
step watching (get_pods _) = some watching
step watching (logs _) = some reporting
step reporting (logs _) = some reporting
step watching (delete_pods _ _) = some cleaning
step reporting (delete_pods _ _) = some cleaning
step cleaning (delete_pods _ _) = some cleaned
step s (apply doc) = step_apply s (part_of doc)
step s c = none

-- The place of a stage in the order of the pipeline.
abbrev pub rank : Stage → ℕ
rank checking = 0
rank reached = 1
rank counted = 2
rank unclassed = 3
rank classed = 4
rank secured = 5
rank bound = 6
rank claimed = 7
rank created = 8
rank ready = 9
rank listed = 10
rank sharding = 11
rank copying = 12
rank launching = 13
rank watching = 14
rank reporting = 15
rank cleaning = 16
rank cleaned = 17

pub rank-injective : (s t : Stage) → rank s ≡ rank t → s ≡ t
rank-injective s t h = ground arith

step_apply_mono : (s t : Stage) (p : Part) → step_apply s p ≡ some t → rank s ≤ rank t
unfolding step_apply
step_apply_mono s t p h = ground arith

-- Manifests have rules of their own.
pub step-apply : (s : Stage) (doc : Json) → step_apply s (part_of doc) ≡ step s (apply doc)
unfolding step
step-apply s doc = ground arith

-- A call never leads back.
pub step_mono : (s t : Stage) (c : Call) → step s c ≡ some t → rank s ≤ rank t
unfolding step
step_mono s t (apply doc) h = step_apply_mono s t (part_of doc) (step-apply s doc ∙ h)
step_mono s t c h = ground arith
