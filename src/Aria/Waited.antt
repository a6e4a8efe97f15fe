-- ===== src/Aria/Waited.antt =====
-- aria2c-download.py: the wait for the workers ends when they do.
use solutions_library.Prelude.{
  ℕ, zero, suc, ◌+◌, ◌*◌, ◌≤◌, ◌<◌, ◌≡◌, refl, sym, ap, subst, ◌∙◌, true, false, min, List, [], ◌∷◌,
  not, is_nil, length, select, All, arith, length-append,
}
use solutions_library.Prelude.Calls.{ok}
use solutions_library.Prelude.Calls.Yields.{
  Yields, Yields-bind, Yields-pure, Yields-if, Yields-fact,
}
use solutions_library.Prelude.Calls.Finishes.{value_of, bind-ok}
use solutions_library.Aria.Pods.{
  Call, list_pods, Pod, Cluster, Action, has_ended, checked, wait_round, wait_loop, log_failures,
  wait_for_pods_completion,
}

-- Every pod that the k-th call lists has ended.
abbrev pub AllEnded : Cluster → ℕ → Type 0
AllEnded cluster k = is_nil (select (λ p. not (has_ended p)) (cluster.pods k)) ≡ true

module _ (cluster : Cluster) (up : (k : ℕ) (c : Call) → cluster.succeeds k c ≡ true) where
  -- From n calls, the call is the n-th.
  pub checked-Yields :
      (c : Call) (n : ℕ)
      → Yields
          (λ calls. length calls ≡ n)
          (λ k calls. (k ≡ n) × (length calls ≡ suc n))
          (λ calls. ⊥)
          (checked cluster c)
  unfolding checked
  checked-Yields c n = record {
    from = λ calls e. rw (up (length calls) c) (e, omega (arith, e, length-append calls (c ∷ [])));
  }

  -- The pauses are at most a minute, and at the last poll all pods have ended.
  abbrev Waited : ℕ → List ℕ × List Pod → List Call → Type 0
  Waited n (pauses, pods) calls =
      (pods ≡ cluster.pods (n + length pauses))
      × (All (λ p. p ≤ 60) pauses
          × ((length calls ≡ suc (n + length pauses)) × AllEnded cluster (n + length pauses)))

  Waited-pause :
      (n backoff : ℕ) (pauses : List ℕ) (pods : List Pod) (calls : List Call)
      → backoff ≤ 60
      → Waited (suc n) (pauses, pods) calls
      → Waited n (backoff ∷ pauses, pods) calls
  Waited-pause n backoff pauses pods calls b (e, (small, (total, ended))) =
      let shifted : suc n + length pauses ≡ n + suc (length pauses) = omega arith in
      (
        e ∙ ap cluster.pods shifted,
        ((b, small), (total ∙ ap suc shifted, subst (AllEnded cluster) shifted ended)),
      )

  wait_round-Waited :
      (backoff n k : ℕ) (rest : Action (List ℕ × List Pod))
      → backoff ≤ 60
      → k ≡ n
      → (¬ AllEnded cluster n
          → Yields (λ calls. length calls ≡ suc n) (Waited (suc n)) (λ calls. ⊥) rest)
      → Yields
          (λ calls. length calls ≡ suc n)
          (Waited n)
          (λ calls. ⊥)
          (wait_round cluster backoff rest k)
  unfolding wait_round
  wait_round-Waited backoff n k rest b same h =
      let here : k ≡ n + 0 = omega (arith, same) in
      Yields-if (is_nil (select (λ p. not (has_ended p)) (cluster.pods k)))
        (λ e. Yields-pure (λ calls total.
          (ap cluster.pods here, (tt, (omega (arith, total), subst (AllEnded cluster) here e)))))
        (λ e.
          Yields-bind (Waited (suc n))
            (h (λ ended.
              (let clash : true ≡ false = sym (subst (AllEnded cluster) (sym same) ended) ∙ e in
                cc clash)))
            (λ (pauses, pods).
              Yields-pure (λ calls waited. Waited-pause n backoff pauses pods calls b waited)))

  wait_loop-Waited :
      (last fuel backoff n : ℕ)
      → ((k : ℕ) → last ≤ k → AllEnded cluster k)
      → last < n + fuel
      → backoff ≤ 60
      → 1 ≤ fuel
      → Yields (λ calls. length calls ≡ n) (Waited n) (λ calls. ⊥) (wait_loop cluster fuel backoff)
  unfolding wait_loop
  wait_loop-Waited last zero backoff n ended enough b one = absurd (omega (arith, one))
  wait_loop-Waited last (suc f) backoff n ended enough b one =
      Yields-bind (λ k calls. (k ≡ n) × (length calls ≡ suc n)) (checked-Yields list_pods n)
        (λ k. Yields-fact (λ same.
          wait_round-Waited backoff n k (wait_loop cluster f (min (backoff * 2) 60)) b same
            (λ running.
              let early : ¬ (last ≤ n) = λ le. running (ended n le) in
              wait_loop-Waited last f (min (backoff * 2) 60) (suc n) ended (omega (arith, enough))
                (omega arith) (omega (arith, enough, early)))))

  -- If every call succeeds, from the `last`-th call on all pods are listed as ended, there is fuel
  -- for a poll behind that call, and the first pause is at most a minute, then the wait ends: it
  -- pauses once before each poll but the first, never longer than a minute, and at its last poll
  -- all pods have ended, whether well or not; the logs of those that failed are asked for behind
  -- it.
  pub wait_for_pods_completion-AllEnded :
      (last fuel poll_interval : ℕ) (calls : List Call)
      → ((k : ℕ) → last ≤ k → AllEnded cluster k)
      → last < length calls + fuel
      → 1 ≤ fuel
      → poll_interval ≤ 60
      → (m : ℕ) × (pauses : List ℕ) × (calls' : List Call) × ((wait_for_pods_completion cluster fuel
              poll_interval calls
            ≡ (log_failures (cluster.pods (length calls + m)) calls', ok pauses))
          × (All (λ p. p ≤ 60) pauses
              × ((length pauses ≡ m)
                  × ((length calls' ≡ suc (length calls + m))
                      × AllEnded cluster (length calls + m)))))
  unfolding wait_for_pods_completion
  wait_for_pods_completion-AllEnded last fuel poll_interval calls ended enough one small =
      let ((pauses, pods), (e, (listed, (small, facts)))) =
        value_of (Waited (length calls)) (wait_loop cluster fuel poll_interval calls) (
          (wait_loop-Waited last fuel poll_interval (length calls) ended enough small one).from
            calls refl) in
      (
        length pauses,
        pauses,
        (wait_loop cluster fuel poll_interval calls).0,
        (
          bind-ok (wait_loop cluster fuel poll_interval)
                (λ (pauses, pods) calls. (log_failures pods calls, ok pauses)) calls (pauses, pods)
                e
              ∙ ap (λ l. (log_failures l (wait_loop cluster fuel poll_interval calls).0, ok pauses))
                  listed,
          (small, (refl, facts)),
        ),
      )
