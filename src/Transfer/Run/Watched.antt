-- ===== src/Transfer/Run/Watched.antt =====
-- run.py: the monitor and the removal of the pods, on a cluster in which everything goes well.
use solutions_library.Prelude.{
  ℕ, zero, suc, ◌+◌, ◌<◌, ◌≡◌, false, List, [], ◌∷◌, ◌++◌, leb, length, length-append, select,
  is_nil, inl, inr, Bool-cases, arith,
}
use solutions_library.Prelude.Calls.Yields.{Yields, Yields-bind, Yields-if, Yields-after}
use solutions_library.Prelude.Text.{codes, text_eq}
use solutions_library.Transfer.Config.{Config}
use solutions_library.Transfer.Manifests.{worker_label}
use solutions_library.Transfer.Kubectl.{Call, Pod, checked, logs, get_pods}
use solutions_library.Transfer.Run.{World, is_running, report_failures, watch, monitor, teardown}
use solutions_library.Prelude.Calls.Finishes.{Finishes, Finishes-bind, Finishes-pure}
use solutions_library.Transfer.Run.Ends.{call-Finishes, delete-Finishes}
use solutions_library.Transfer.Run.Ready.{GoesWell}

module _ {F : Type 0} (w : World F) (c : Config F) (nodes pods last : ℕ)
    (well : GoesWell w c nodes pods last) where
  report_failures-Finishes : (ps : List Pod) → Finishes (report_failures w c ps)
  unfolding report_failures
  report_failures-Finishes [] = Finishes-pure
  report_failures-Finishes (p ∷ ps) =
      Yields-if (text_eq p.phase (codes "Failed"))
        (λ _.
          Finishes-bind (call-Finishes w.cluster well.succeeds (logs p.name))
            (λ r. report_failures-Finishes ps))
        (λ _. report_failures-Finishes ps)

  -- The number of the call of a round, and the number of rounds left.
  abbrev Counted : ℕ → ℕ → List Call → Type 0
  Counted n k calls = (last < k + suc n) × (length calls ≡ suc k)

  counted :
      (n : ℕ) (x : Call)
      → Yields (λ calls. last < length calls + suc n) (Counted n) (λ calls. ⊥) (checked w.cluster x)
  unfolding checked
  counted n x = record {
    from = λ calls soon.
        rw (well.succeeds (length calls) x) (soon, omega (arith, length-append calls (x ∷ [])));
  }

  -- A round in which a pod still runs was made before the last pod ended.
  early : (k : ℕ) → is_nil (select is_running (w.cluster.pods k)) ≡ false → k < last
  early k e = elim (Bool-cases (leb last k)) [
    | inl late ↦ let over = well.ended k (ground arith) in absurd (ground arith)
    | inr soon ↦ ground arith
  ]

  watch-Finishes :
      (n : ℕ)
      → Yields
          (λ calls. last < length calls + suc n)
          (λ u calls. Unit)
          (λ calls. ⊥)
          (watch w c (suc n))
  unfolding watch
  watch-Finishes zero =
      Yields-bind (Counted 0) (counted 0 (get_pods (codes "app=" ++ worker_label))) (λ k.
        Yields-if (is_nil (select is_running (w.cluster.pods k)))
          (λ _. Yields-after (λ calls h. tt) (report_failures-Finishes (w.cluster.pods k)))
          (λ e. record { from = λ calls h. let soon = early k e in absurd (omega arith) }))
  watch-Finishes (suc n) =
      Yields-bind (Counted (suc n)) (counted (suc n) (get_pods (codes "app=" ++ worker_label)))
        (λ k.
          Yields-if (is_nil (select is_running (w.cluster.pods k)))
            (λ _. Yields-after (λ calls h. tt) (report_failures-Finishes (w.cluster.pods k)))
            (λ e. Yields-after (λ calls h. omega arith) (watch-Finishes n)))

  rounds_left : (r : ℕ) → last < r → Finishes (watch w c r)
  rounds_left zero h = absurd (omega arith)
  rounds_left (suc r) h = Yields-after (λ calls u. omega arith) (watch-Finishes r)

  pub monitor-Finishes : Finishes (monitor w c false)
  unfolding monitor
  monitor-Finishes = rounds_left w.rounds well.patient

  pub teardown-Finishes : Finishes (teardown w c false)
  unfolding teardown
  teardown-Finishes =
      Finishes-bind (delete-Finishes w.cluster well.succeeds _ _ false)
        (λ u. delete-Finishes w.cluster well.succeeds _ _ false)
