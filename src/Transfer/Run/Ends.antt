-- ===== src/Transfer/Run/Ends.antt =====
-- k8s.py: where all calls succeed, its methods give a value.
use solutions_library.Prelude.{ℕ, ◌≡◌, Bool, true, false, List, length}
use solutions_library.Prelude.Calls.Finishes.{Ends, Finishes, Finishes-bind, Finishes-pure}
use solutions_library.Prelude.Calls.Yields.{Yields-bind, Yields-pure, Yields-if}
use solutions_library.Prelude.Text.{Text}
use solutions_library.Transfer.Kubectl.{
  Call, Cluster, get_storage_class, call, checked, mutate, delete, exec_in, list_ready_nodes,
  ready_names, cluster_exists, exec, get_nodes,
}

module _ (cl : Cluster) (up : (k : ℕ) (x : Call) → cl.succeeds k x ≡ true) where
  pub call-Finishes : (x : Call) → Finishes (call cl x)
  unfolding call
  call-Finishes x = record { from = λ calls u. tt }

  checked-Ends : (Q : ℕ → Type 0) (x : Call) → ((k : ℕ) → Q k) → Ends Q (checked cl x)
  unfolding checked
  checked-Ends Q x h = record { from = λ calls u. (rw (up (length calls) x) (h (length calls))) }

  pub checked-Finishes : (x : Call) → Finishes (checked cl x)
  checked-Finishes x = checked-Ends (λ k. Unit) x (λ k. tt)

  pub mutate-Finishes : (x : Call) (b : Bool) → Finishes (mutate cl b x)
  unfolding mutate
  mutate-Finishes x b =
      Yields-if b (λ _. Finishes-pure)
        (λ _. Finishes-bind (checked-Finishes x) (λ k. Finishes-pure))

  pub list_ready_nodes-Ends :
      (class : Text) (Q : List Text → Type 0)
      → ((k : ℕ) → Q (ready_names (cl.nodes k)))
      → Ends Q (list_ready_nodes cl class)
  unfolding list_ready_nodes
  list_ready_nodes-Ends class Q h =
      Yields-bind (λ k calls. Unit) (checked-Finishes (get_nodes class))
        (λ k. Yields-pure (λ calls u. h k))

  pub exec_in-Ends :
      (pod : Text) (argv : List Text) (Q : List Text → Type 0)
      → ((k : ℕ) → Q (cl.output k))
      → Ends Q (exec_in cl false pod argv)
  unfolding exec_in
  exec_in-Ends pod argv Q h =
      Yields-bind (λ k calls. Unit) (checked-Finishes (exec pod argv))
        (λ k. Yields-pure (λ calls u. h k))

  pub delete-Finishes : (name selector : Text) (b : Bool) → Finishes (delete cl b name selector)
  unfolding delete
  delete-Finishes name selector b =
      Yields-if b (λ _. Finishes-pure) (λ _. Finishes-bind (call-Finishes _) (λ k. Finishes-pure))

  pub cluster_exists-Finishes : (class : Text) → Finishes (cluster_exists cl class)
  unfolding cluster_exists
  cluster_exists-Finishes class =
      Finishes-bind (call-Finishes (get_storage_class class)) (λ k. Finishes-pure)
