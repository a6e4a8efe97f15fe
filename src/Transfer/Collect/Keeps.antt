-- ===== src/Transfer/Collect/Keeps.antt =====
-- collect.py: a round over pods only asks them for their numbers and writes rows.
use solutions_library.Prelude.{ℕ, ◌≡◌, refl, Bool, true, false, not, List, [], ◌∷◌, ◌++◌}
use solutions_library.Prelude.Text.{Text, codes, text_eq}
use solutions_library.Prelude.Calls.Leads.{Leads, Leads-bind, Leads-pure, Leads-option}
use solutions_library.Transfer.Kubectl.{Call, Cluster, Pod, exec, write_row, call}
use solutions_library.Transfer.Collect.{
  Meter, Stats, pod_stats, sample_pods, write_sample, collect_pods,
}

-- A command for the shell, as those that list the sample and remove the old shards.
abbrev pub is_shell : List Text → Bool
is_shell [] = false
is_shell (name ∷ argv) = text_eq name (codes "/bin/sh")

abbrev pub is_metering : Call → Bool
is_metering (exec _ argv) = not (is_shell argv)
is_metering (write_row _ _) = true
is_metering _ = false

-- What such calls keep, the round keeps, and it stops for nothing.
module _ {F : Type 0} (cl : Cluster) (m : Meter F) {P R : List Call → Type 0}
    (keeps : (calls : List Call) (c : Call)
      → is_metering c ≡ true
      → P calls
      → P (calls ++ (c ∷ []))) where
  call-Keeps : (c : Call) → is_metering c ≡ true → Leads P P R (call cl c)
  unfolding call
  call-Keeps c e = record { from = λ calls p. keeps calls c e p }

  pod_stats-Keeps : (pod port : Text) → Leads P P R (pod_stats cl m pod port)
  unfolding pod_stats text_eq
  pod_stats-Keeps pod port = Leads-bind (call-Keeps (exec pod _) refl) (λ r. Leads-pure)

  sample_pods-Keeps : (pods : List Pod) (aggr : F) → Leads P P R (sample_pods cl m pods aggr)
  unfolding sample_pods
  sample_pods-Keeps [] aggr = Leads-pure
  sample_pods-Keeps (p ∷ pods) aggr = Leads-bind (pod_stats-Keeps p.name _) (λ st.
      Leads-option st (sample_pods-Keeps pods aggr)
        (λ s. Leads-bind (sample_pods-Keeps pods (m.add aggr s.speed)) (λ r. Leads-pure)))

  write_sample-Keeps :
      (out elapsed aggr : Text) (sample : List (Text × Stats F))
      → Leads P P R (write_sample cl m out elapsed aggr sample)
  unfolding write_sample
  write_sample-Keeps out elapsed aggr [] = Leads-pure
  write_sample-Keeps out elapsed aggr ((name, s) ∷ sample) =
      Leads-bind (call-Keeps (write_row out _) refl)
        (λ k. Leads-bind (write_sample-Keeps out elapsed aggr sample) (λ cells. Leads-pure))

  pub collect_pods-Keeps :
      (out : Text) (t0 now : ℕ) (pods : List Pod) → Leads P P R (collect_pods cl m out t0 now pods)
  unfolding collect_pods
  collect_pods-Keeps out t0 now pods =
      Leads-bind (sample_pods-Keeps pods _) (λ r. write_sample-Keeps out _ _ r.1)
