-- ===== src/Aria/Completes.antt =====
-- aria2c-download.py: with a cluster in which every call succeeds and every pod ends, the program
-- comes to its end.
use solutions_library.Prelude.{
  ℕ, zero, suc, ◌≤◌, ◌<◌, ◌≡◌, refl, ap, true, false, some, List, [], ◌∷◌, ◌++◌, is_nil, length,
  arith, ◌==◌,
}
use solutions_library.Prelude.Calls.{Ending, ok, raised, no_fuel}
use solutions_library.Prelude.Calls.Yields.{Gives, Yields, Yields-bind}
use solutions_library.Prelude.Calls.Finishes.{Finishes, Finishes-bind, Finishes-pure}
use solutions_library.Prelude.Text.{Text}
use solutions_library.Prelude.Dict.{Dict}
use solutions_library.Prelude.Sort.{sorted, insert_sorted}
use solutions_library.Transfer.Shard.{text_le}
use solutions_library.Aria.{Runtime, split_entries, parse_aria2c_entries}
use solutions_library.Aria.Pods.{
  Call, list_nodes, delete_master, delete_workers, Cluster, Failure, checked, copy_shards,
  create_master_pod_and_copy_shards, launch_loop, launch_pinned, launch_worker_pods,
  wait_for_pods_completion, delete_worker_pods, delete_master_pod, transfer, main,
}
use solutions_library.Aria.Waited.{AllEnded, wait_for_pods_completion-AllEnded}

is_nil-insert_sorted : (x : Text) (xs : List Text) → is_nil (insert_sorted text_le x xs) ≡ false
unfolding insert_sorted
is_nil-insert_sorted x [] = refl
is_nil-insert_sorted x (y ∷ xs) = ground arith

is_nil-sorted : (xs : List Text) → is_nil xs ≡ false → is_nil (sorted text_le xs) ≡ false
unfolding sorted
is_nil-sorted [] h = h
is_nil-sorted (x ∷ xs) h = is_nil-insert_sorted x (sorted text_le xs)

-- The run ends normally, and the last two calls delete the pods.
abbrev pub CleansUp : List Call × Ending Failure ℕ → Type 0
CleansUp end =
    (calls' : List Call) × (k : ℕ) × (end
      ≡ (calls' ++ (delete_master ∷ []) ++ (delete_workers ∷ []), ok k))

-- The last call is that for the master pod.
abbrev MasterGone : Unit {0} → List Call → Type 0
MasterGone u calls = (calls' : List Call) × (calls ≡ calls' ++ (delete_master ∷ []))

abbrev BothGone : ℕ → List Call → Type 0
BothGone k calls =
    (calls' : List Call) × (calls ≡ calls' ++ (delete_master ∷ []) ++ (delete_workers ∷ []))

Gives-CleansUp : (r : List Call × Ending Failure ℕ) → Gives BothGone (λ calls. ⊥) r → CleansUp r
Gives-CleansUp (calls, ok k) (calls', e) = (calls', k, ap (λ l. (l, ok k)) e)
Gives-CleansUp (calls, raised x) g = absurd g
Gives-CleansUp (calls, no_fuel) g = absurd g

module _ (cluster : Cluster) (up : (k : ℕ) (c : Call) → cluster.succeeds k c ≡ true) where
  checked-Finishes : (c : Call) → Finishes (checked cluster c)
  unfolding checked
  checked-Finishes c = record { from = λ calls u. (rw (up (length calls) c) tt) }

  copy_shards-Finishes : (shards : Dict Text) → Finishes (copy_shards cluster shards)
  unfolding copy_shards
  copy_shards-Finishes [] = Finishes-pure
  copy_shards-Finishes ((filename, content) ∷ shards) =
      Finishes-bind (checked-Finishes _) (λ k. copy_shards-Finishes shards)

  create-Finishes :
      (shards : Dict Text) → Finishes (create_master_pod_and_copy_shards cluster shards)
  unfolding create_master_pod_and_copy_shards
  create-Finishes shards = Finishes-bind (checked-Finishes _) (λ k.
      Finishes-bind (checked-Finishes _)
        (λ k. Finishes-bind (checked-Finishes _) (λ k. copy_shards-Finishes shards)))

  wait-Finishes :
      (last fuel : ℕ)
      → ((k : ℕ) → last ≤ k → AllEnded cluster k)
      → last < fuel
      → Finishes (wait_for_pods_completion cluster fuel 15)
  wait-Finishes last fuel ended enough = record {
    from = λ calls u.
        (let (m, pauses, calls', (eq, facts)) =
            wait_for_pods_completion-AllEnded cluster up last fuel 15 calls ended
              (omega (arith, enough)) (omega (arith, enough)) (omega arith) in
          rw eq tt);
  }

  delete_master_pod-MasterGone :
      Yields (λ calls. Unit {0}) MasterGone (λ calls. ⊥) (delete_master_pod cluster)
  unfolding delete_master_pod
  delete_master_pod-MasterGone = record {
    from = λ calls u. rw (up (length calls) delete_master) (calls, refl);
  }

  delete_worker_pods-BothGone :
      Yields (MasterGone tt) BothGone (λ calls. ⊥) (delete_worker_pods cluster)
  unfolding delete_worker_pods checked
  delete_worker_pods-BothGone = record {
    from = λ calls (calls', e).
        rw (up (length calls) delete_workers) (calls', ap (λ l. l ++ (delete_workers ∷ [])) e);
  }

  module _ (rt : Runtime) (some_node : (k : ℕ) → is_nil (cluster.node_names k) ≡ false) where
    launch_loop-Finishes :
        (nodes : List Text) (i n : ℕ) → Finishes (launch_loop rt cluster nodes i n)
    unfolding launch_loop
    launch_loop-Finishes nodes i zero = Finishes-pure
    launch_loop-Finishes nodes i (suc n) =
        Finishes-bind (checked-Finishes _) (λ k. launch_loop-Finishes nodes (suc i) n)

    launch_pinned-Finishes :
        (nodes : List Text) (n : ℕ)
        → is_nil nodes ≡ false
        → Finishes (launch_pinned rt cluster nodes n)
    unfolding launch_pinned
    launch_pinned-Finishes nodes n h = rw h (launch_loop-Finishes nodes 0 n)

    launch-Finishes : (n : ℕ) → Finishes (launch_worker_pods rt cluster n)
    unfolding launch_worker_pods
    launch-Finishes n =
        Finishes-bind (checked-Finishes list_nodes)
          (λ k. launch_pinned-Finishes _ n (is_nil-sorted (cluster.node_names k) (some_node k)))

    transfer-CleansUp :
        (last fuel n : ℕ) (shards : Dict Text)
        → ((k : ℕ) → last ≤ k → AllEnded cluster k)
        → last < fuel
        → Yields (λ calls. Unit {0}) BothGone (λ calls. ⊥) (transfer rt cluster fuel n shards)
    unfolding transfer
    transfer-CleansUp last fuel n shards ended enough =
        Yields-bind (λ u calls. Unit) (create-Finishes shards)
          (λ u.
            Yields-bind (λ u calls. Unit) (launch-Finishes n)
              (λ u.
                Yields-bind (λ p calls. Unit) (wait-Finishes last fuel ended enough)
                  (λ p.
                    Yields-bind MasterGone delete_master_pod-MasterGone
                      (λ u. delete_worker_pods-BothGone))))

    -- If every call succeeds, the cluster has a node, from the `last`-th call on all pods are
    -- listed as ended, there is more fuel than `last`, and the file has an entry, then the program,
    -- started for at least one pod, ends normally, and its last two calls delete the master pod and
    -- the workers. Whether the workers succeeded makes no difference.
    pub main-CleansUp :
        (last fuel n : ℕ) (raws : List Text)
        → ((k : ℕ) → last ≤ k → AllEnded cluster k)
        → last < fuel
        → 1 ≤ n
        → is_nil (parse_aria2c_entries rt.is_space raws) ≡ false
        → CleansUp (main rt cluster fuel n (some raws) [])
    unfolding main split_entries
    main-CleansUp last fuel n raws ended enough one some_entry =
        let positive : (n == 0) ≡ false = ground arith in
        rw some_entry (
          rw positive
            (Gives-CleansUp _ ((transfer-CleansUp last fuel n _ ended enough).from [] tt)))
