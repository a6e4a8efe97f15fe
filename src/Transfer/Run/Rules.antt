-- ===== src/Transfer/Run/Rules.antt =====
-- k8s.py: how each of its methods moves a run between the stages.
use solutions_library.Prelude.{
  ◌≤◌, ◌≡◌, ◌∙◌, Bool, true, false, ◌&&◌, ◌||◌, Option, none, some, List, [], ◌∷◌, ◌++◌, leb, ◌==◌,
  Option-cases, inl, inr, arith,
}
use solutions_library.Prelude.Text.{Text}
use solutions_library.Prelude.Json.{Json}
use solutions_library.Prelude.Calls.{pure, raise, ◌>>=◌}
use solutions_library.Prelude.Calls.Leads.{Leads, Leads-bind, Leads-pure, Leads-raise}
use solutions_library.Transfer.Kubectl.{
  Call, get_nodes, get_storage_class, apply, exec, delete_pods, Cluster, Failure, Action, call,
  checked, cluster_exists, list_ready_nodes, mutate, delete, exec_in,
}
use solutions_library.Prelude.Calls.Follow.{follow, follow-snoc}
use solutions_library.Transfer.Run.Stages.{
  Part, Stage, checking, step, step_apply, rank, part_of, step-apply, rank-injective,
}

abbrev pub is_among : Stage → List Stage → Bool
is_among s [] = false
is_among s (p ∷ ps) = (rank s == rank p) || is_among s ps

-- The calls have led to one of the stages.
pub record In (ps : List Stage) (calls : List Call) : Type 0 where
  pub stage : Stage
  pub among : is_among stage ps ≡ true
  pub followed : follow step checking calls ≡ some stage

-- They have led to a stage no later than the given one.
pub record Until (last : Stage) (calls : List Call) : Type 0 where
  pub stage : Stage
  pub early : rank stage ≤ rank last
  pub followed : follow step checking calls ≡ some stage

abbrev pub leads_into : Option Stage → List Stage → Bool
leads_into none qs = false
leads_into (some t) qs = is_among t qs

-- The call leads from each of the first stages to one of the others.
abbrev pub advances : (Stage → Option Stage) → List Stage → List Stage → Bool
advances next [] qs = true
advances next (p ∷ ps) qs = leads_into (next p) qs && advances next ps qs

abbrev pub are_until : Stage → List Stage → Bool
are_until last [] = true
are_until last (q ∷ qs) = leb (rank q) (rank last) && are_until last qs

among-advances :
    (next : Stage → Option Stage) (s : Stage) (ps qs : List Stage)
    → is_among s ps ≡ true
    → advances next ps qs ≡ true
    → leads_into (next s) qs ≡ true
among-advances next s [] qs m h = absurd (ground arith)
among-advances next s (p ∷ ps) qs m h =
    ground (arith, rank-injective s p, among-advances next s ps qs)

among_until :
    (last s : Stage) (qs : List Stage)
    → is_among s qs ≡ true
    → are_until last qs ≡ true
    → rank s ≤ rank last
among_until last s [] m h = absurd (ground arith)
among_until last s (q ∷ qs) m h = ground (arith, among_until last s qs)

pub In-Until :
    (last : Stage) (qs : List Stage)
    → are_until last qs ≡ true
    → (calls : List Call) → In qs calls
    → Until last calls
In-Until last qs e calls i = record {
  stage = i.stage;
  early = among_until last i.stage qs i.among e;
  followed = i.followed;
}

In-snoc :
    (ps qs : List Stage) (c : Call) (calls : List Call)
    → advances (λ s. step s c) ps qs ≡ true
    → In ps calls
    → In qs (calls ++ (c ∷ []))
In-snoc ps qs c calls h i =
    let into = among-advances (λ s. step s c) i.stage ps qs i.among h in
    elim (Option-cases (step i.stage c)) [
      | inl e ↦ absurd (ground arith)
      | inr (t, e) ↦ record {
        stage = t;
        among = ground arith;
        followed = follow-snoc step checking calls c ∙ (rw i.followed e);
      }
    ]

pub In-include :
    (ps qs : List Stage) (calls : List Call)
    → advances some ps qs ≡ true
    → In ps calls
    → In qs calls
In-include ps qs calls h i = record {
  stage = i.stage;
  among = among-advances some i.stage ps qs i.among h;
  followed = i.followed;
}

step-apply_advances :
    (doc : Json) (p : Part)
    → part_of doc ≡ p
    → (ps qs : List Stage) → advances (λ s. step_apply s p) ps qs ≡ true
    → advances (λ s. step s (apply doc)) ps qs ≡ true
step-apply_advances doc p e [] qs h = h
step-apply_advances doc p e (s ∷ ps) qs h =
    ground (arith, step-apply s doc, step-apply_advances doc p e ps qs)

-- One rule for each method. `last` bounds the stages at which the method can fail.
module _ (cl : Cluster) {ps qs : List Stage} {R : List Call → Type 0} where
  pub call-In :
      (c : Call) → advances (λ s. step s c) ps qs ≡ true → Leads (In ps) (In qs) R (call cl c)
  unfolding call
  call-In c h = record { from = λ calls i. In-snoc ps qs c calls h i }

module _ (cl : Cluster) (last : Stage) {ps qs : List Stage} where
  pub checked-In :
      (c : Call)
      → advances (λ s. step s c) ps qs ≡ true
      → are_until last qs ≡ true
      → Leads (In ps) (In qs) (Until last) (checked cl c)
  unfolding checked
  checked-In c h b = record {
    from = λ calls i.
        (let j = In-snoc ps qs c calls h i in
          ground (arith, j, In-Until last qs b (calls ++ (c ∷ [])) j));
  }

  pub mutate-In :
      (c : Call)
      → advances (λ s. step s c) ps qs ≡ true
      → are_until last qs ≡ true
      → Leads (In ps) (In qs) (Until last) (mutate cl false c)
  unfolding mutate
  mutate-In c h b = Leads-bind (checked-In c h b) (λ k. Leads-pure)

  pub apply-In :
      (doc : Json) (p : Part)
      → part_of doc ≡ p
      → advances (λ s. step_apply s p) ps qs ≡ true
      → are_until last qs ≡ true
      → Leads (In ps) (In qs) (Until last) (mutate cl false (apply doc))
  apply-In doc p e h b = mutate-In (apply doc) (step-apply_advances doc p e ps qs h) b

  pub list_ready_nodes-In :
      (class : Text)
      → advances (λ s. step s (get_nodes class)) ps qs ≡ true
      → are_until last qs ≡ true
      → Leads (In ps) (In qs) (Until last) (list_ready_nodes cl class)
  unfolding list_ready_nodes
  list_ready_nodes-In class h b = Leads-bind (checked-In (get_nodes class) h b) (λ k. Leads-pure)

  pub exec_in-In :
      (pod : Text) (argv : List Text)
      → advances (λ s. step s (exec pod argv)) ps qs ≡ true
      → are_until last qs ≡ true
      → Leads (In ps) (In qs) (Until last) (exec_in cl false pod argv)
  unfolding exec_in
  exec_in-In pod argv h b = Leads-bind (checked-In (exec pod argv) h b) (λ k. Leads-pure)

module _ (cl : Cluster) {ps qs : List Stage} {R : List Call → Type 0} where
  pub cluster_exists-In :
      (class : Text)
      → advances (λ s. step s (get_storage_class class)) ps qs ≡ true
      → Leads (In ps) (In qs) R (cluster_exists cl class)
  unfolding cluster_exists
  cluster_exists-In class h = Leads-bind (call-In cl (get_storage_class class) h) (λ k. Leads-pure)

  pub delete-In :
      (name selector : Text)
      → advances (λ s. step s (delete_pods name selector)) ps qs ≡ true
      → Leads (In ps) (In qs) R (delete cl false name selector)
  unfolding delete
  delete-In name selector h =
      Leads-bind (call-In cl (delete_pods name selector) h) (λ k. Leads-pure)

  -- No call is made.
  pub pure-In :
      {A : Type 0} (a : A)
      → advances some ps qs ≡ true
      → Leads {E = Failure} (In ps) (In qs) R (pure a)
  pure-In a h = record { from = λ calls i. In-include ps qs calls h i }

pub raise-In :
    {A : Type 0} {Q : List Call → Type 0} (last : Stage) {ps : List Stage} (e : Failure)
    → are_until last ps ≡ true
    → Leads (In ps) Q (Until last) (raise {A = A} e)
raise-In last {ps = ps} e h = Leads-raise (In-Until last ps h)

pub Until-later :
    (s last : Stage)
    → leb (rank s) (rank last) ≡ true
    → (calls : List Call) → Until s calls
    → Until last calls
Until-later s last h calls u = record {
  stage = u.stage;
  early = (let e = u.early in ground arith);
  followed = u.followed;
}

-- A bind, with the stages between its two runs.
module _ {A B : Type 0} {P R S : List Call → Type 0} {m : Action A} {f : A → Action B} where
  pub bind-In :
      (mid : List Stage)
      → Leads P (In mid) R m
      → ((a : A) → Leads (In mid) S R (f a))
      → Leads P S R (m >>= f)
  bind-In mid h k = Leads-bind h k
