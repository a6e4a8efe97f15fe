-- ===== src/Transfer/Sweep/Fleet.antt =====
-- sweep.py and collect.py: when workers run, as an automaton on the calls, which refuses new shards
-- while they do.
use solutions_library.Prelude.{
  ℕ, ◌≡◌, refl, ◌∙◌, Bool, true, false, Option, none, some, List, [], ◌∷◌, ◌++◌, if◌then◌else◌,
  ◌&&◌, is_nil, length, arith,
}
use solutions_library.Prelude.Text.{Text, codes, text_eq, text_eq_refl}
use solutions_library.Prelude.Calls.{ok, raised}
use solutions_library.Prelude.Calls.Yields.{Gives}
use solutions_library.Prelude.Calls.Leads.{Leads, Leads-bind, Leads-pure, Leads-raise}
use solutions_library.Prelude.Calls.Follow.{follow, follow-snoc}
use solutions_library.Transfer.Kubectl.{
  Call, apply, cp_to, delete_pods, exec, get_pod, Cluster, called_process_error, Action, call,
  checked, mutate, delete, exec_in, exists,
}
use solutions_library.Transfer.Collect.Keeps.{is_shell}
use solutions_library.Transfer.Manifests.{worker_label}
use solutions_library.Transfer.Run.Stages.{part_of}
use solutions_library.Transfer.Run.Promises.{is_worker}
use solutions_library.Transfer.Sweep.{or_raise}

abbrev quiet : Bool → Option Bool
quiet true = none
quiet false = some false

-- `kubectl delete pods` for the label of the workers.
abbrev pub deletes_workers : Text → Text → Bool
deletes_workers name selector = is_nil name && text_eq selector (codes "app=" ++ worker_label)

-- Whether workers may run behind a call: the manifest of a worker is applied, or the deletion of
-- all workers is asked for. No file is copied to the master pod, and no command runs in its shell,
-- while they may.
abbrev pub fleet : Bool → Call → Option Bool
fleet running (apply doc) = some (if is_worker (part_of doc) then true else running)
fleet running (cp_to _ _ _) = quiet running
fleet running (exec _ argv) = if is_shell argv then quiet running else some running
fleet running (delete_pods name selector) =
    some (if deletes_workers name selector then false else running)
fleet running _ = some running

-- The calls were allowed, and behind them workers run or not.
abbrev pub IsRunning : Bool → List Call → Type 0
IsRunning b calls = follow fleet false calls ≡ some b

abbrev pub IsAllowed : List Call → Type 0
IsAllowed calls = (b : Bool) × IsRunning b calls

abbrev pub Down : {A : Type 0} → Action A → Type 0
Down m = Leads (IsRunning false) (IsRunning false) IsAllowed m

abbrev pub Kept : {A : Type 0} → Action A → Type 0
Kept m = Leads IsAllowed IsAllowed IsAllowed m

pub down : (calls : List Call) → IsRunning false calls → IsAllowed calls
down calls h = (false, h)

pub IsRunning-snoc :
    (b b' : Bool) (c : Call) (e : fleet b c ≡ some b') (calls : List Call)
    → IsRunning b calls
    → IsRunning b' (calls ++ (c ∷ []))
IsRunning-snoc b b' c e calls h = follow-snoc fleet false calls c ∙ (rw h e)

-- `call` and `checked` add their call, whatever the cluster answers.
module _ (cl : Cluster) (c : Call) {P Q : List Call → Type 0}
    (adds : (calls : List Call) → P calls → Q (calls ++ (c ∷ [])))
    (allowed : (calls : List Call) → Q calls → IsAllowed calls) where
  call_adds : Leads P Q IsAllowed (call cl c)
  unfolding call
  call_adds = record { from = adds }

  checked_adds : Leads P Q IsAllowed (checked cl c)
  unfolding checked
  checked_adds = record {
    from = λ calls h.
        elim (cl.succeeds (length calls) c)
          as (λ s.
            Gives (λ (a : ℕ). Q) IsAllowed
              (calls ++ (c ∷ []), (if s then ok (length calls) else raised called_process_error))) [
                | true ↦ adds calls h
                | false ↦ allowed _ (adds calls h)
              ];
  }

-- A call that leaves the fleet down.
module _ (cl : Cluster) (c : Call) (e : fleet false c ≡ some false) where
  pub call-Down : Down (call cl c)
  call-Down = call_adds cl c (IsRunning-snoc false false c e) down

  checked-Down : Down (checked cl c)
  checked-Down = checked_adds cl c (IsRunning-snoc false false c e) down

  pub mutate-Down : Down (mutate cl false c)
  unfolding mutate
  mutate-Down = Leads-bind checked-Down (λ k. Leads-pure)

-- A call that any fleet allows.
module _ (cl : Cluster) (c : Call) (next : Bool → Bool)
    (e : (b : Bool) → fleet b c ≡ some (next b)) where
  adds-Kept : (calls : List Call) → IsAllowed calls → IsAllowed (calls ++ (c ∷ []))
  adds-Kept calls (b, h) = (next b, IsRunning-snoc b (next b) c (e b) calls h)

  pub call-Kept : Kept (call cl c)
  call-Kept = call_adds cl c adds-Kept (λ calls h. h)

  pub checked-Kept : Kept (checked cl c)
  checked-Kept = checked_adds cl c adds-Kept (λ calls h. h)

  pub mutate-Kept : Kept (mutate cl false c)
  unfolding mutate
  mutate-Kept = Leads-bind checked-Kept (λ k. Leads-pure)

module _ (cl : Cluster) where
  pub exec_in-Down : (pod : Text) (argv : List Text) → Down (exec_in cl false pod argv)
  unfolding exec_in
  exec_in-Down pod argv =
      Leads-bind (checked-Down cl (exec pod argv) (ground arith)) (λ k. Leads-pure)

  pub exists-Down : (pod : Text) → Down (exists cl pod)
  unfolding exists
  exists-Down pod = Leads-bind (call-Down cl (get_pod pod) refl) (λ r. Leads-pure)

  -- The removal of the workers.
  pub delete-Down :
      Leads IsAllowed
        (IsRunning false)
        IsAllowed
        (delete cl false [] (codes "app=" ++ worker_label))
  unfolding delete
  delete-Down =
      let c = delete_pods [] (codes "app=" ++ worker_label) in
      let gone : (b : Bool) → fleet b c ≡ some false =
        λ b. (rw (text_eq_refl (codes "app=" ++ worker_label)) refl) in
      Leads-bind (call_adds cl c (λ calls (b, h). IsRunning-snoc b false c (gone b) calls h) down)
        (λ k. Leads-pure)

pub or_raise-Down : {A : Type 0} (o : Option A) → Down (or_raise o)
or_raise-Down none = Leads-raise down
or_raise-Down (some a) = Leads-pure

pub or_raise-Kept : {A : Type 0} (o : Option A) → Kept (or_raise o)
or_raise-Kept none = Leads-raise (λ calls h. h)
or_raise-Kept (some a) = Leads-pure
