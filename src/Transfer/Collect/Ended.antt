-- ===== src/Transfer/Collect/Ended.antt =====
-- collect.py: with a limit the collector ends, also while workers run on.
use solutions_library.Prelude.{
  ℕ, zero, suc, ◌+◌, ◌*◌, ◌≤◌, ◌<◌, ◌≡◌, true, false, List, [], ◌∷◌, ◌++◌, is_nil, select, length,
  length-append, arith,
}
use solutions_library.Prelude.Text.{Text, codes}
use solutions_library.Prelude.Int.{pos}
use solutions_library.Prelude.Calls.{ok}
use solutions_library.Prelude.Calls.Yields.{
  Yields, Yields-bind, Yields-pure, Yields-if, Yields-after,
}
use solutions_library.Prelude.Calls.Finishes.{value_of}
use solutions_library.Transfer.Kubectl.{
  Call, Cluster, get_pods, write_file, write_row, call, checked,
}
use solutions_library.Transfer.Manifests.{worker_label}
use solutions_library.Transfer.Run.{is_running}
use solutions_library.Transfer.Collect.{Meter, reading, collect_loop, collect, is_over, header}
use solutions_library.Transfer.Collect.Keeps.{collect_pods-Keeps}

module _ {F : Type 0} (cl : Cluster) (m : Meter F) (out : Text) (s : ℕ)
    (answers : (k : ℕ) (selector : Text) → cl.succeeds k (get_pods selector) ≡ true)
    (ticks : (k : ℕ) → m.clock k < m.clock (suc k)) where
  -- The time at which the limit is reached.
  abbrev limit_of : ℕ → ℕ
  limit_of t0 = t0 + suc s * m.second

  -- Within a round: its reading, from which the limit is not further than the rounds left.
  abbrev Within : ℕ → ℕ → ℕ → List Call → Type 0
  Within t0 n now calls = (limit_of t0 < now + suc n) × (now < m.clock (length calls))

  later :
      (now : ℕ) (calls : List Call) (c : Call)
      → now ≤ m.clock (length calls)
      → now < m.clock (length (calls ++ (c ∷ [])))
  later now calls c h =
      let e : length (calls ++ (c ∷ [])) ≡ suc (length calls) =
        omega (arith, length-append calls (c ∷ [])) in
      rw e (omega (arith, ticks (length calls)))

  asked :
      (t0 n now : ℕ)
      → Yields
          (λ calls. (limit_of t0 < now + suc n) × (now ≤ m.clock (length calls)))
          (λ k. Within t0 n now)
          (λ calls. ⊥)
          (checked cl (get_pods (codes "app=" ++ worker_label)))
  unfolding checked
  asked t0 n now = record {
    from = λ calls (near, h).
        rw (answers (length calls) (codes "app=" ++ worker_label))
          (near, later now calls (get_pods (codes "app=" ++ worker_label)) h);
  }

  read :
      (t0 n : ℕ)
      → Yields
          (λ calls. limit_of t0 < m.clock (length calls) + suc n)
          (λ now calls. (limit_of t0 < now + suc n) × (now ≤ m.clock (length calls)))
          (λ calls. ⊥)
          (reading cl m)
  unfolding reading
  read t0 n = record { from = λ calls h. (h, omega arith) }

  not_over : (t0 now : ℕ) → is_over cl m (pos (suc s)) t0 now ≡ false → now < limit_of t0
  unfolding is_over
  not_over t0 now e = ground arith

  abbrev AtEnd : List Text → List Call → Type 0
  AtEnd cells calls = Unit {0}

  -- A round, where the rounds behind it are right.
  round-Yields :
      (t0 n : ℕ)
      → ((now : ℕ)
          → now < limit_of t0
          → Yields (Within t0 n now) AtEnd (λ calls. ⊥) (collect_loop cl m out (pos (suc s)) t0 n))
      → Yields
          (λ calls. limit_of t0 < m.clock (length calls) + suc n)
          AtEnd
          (λ calls. ⊥)
          (collect_loop cl m out (pos (suc s)) t0 (suc n))
  unfolding collect_loop
  round-Yields t0 n again =
      Yields-bind (λ now calls. (limit_of t0 < now + suc n) × (now ≤ m.clock (length calls)))
        (read t0 n)
        (λ now.
          Yields-bind (λ k. Within t0 n now) (asked t0 n now)
            (λ k.
              Yields-if (is_nil (cl.pods k)) (λ _. Yields-pure (λ calls h. tt))
                (λ _.
                  Yields-bind (λ cells. Within t0 n now)
                    (collect_pods-Keeps cl m
                      (λ calls c e (near, h). (near, later now calls c (omega arith))) out t0 now
                      (cl.pods k))
                    (λ cells.
                      Yields-if (is_nil (select is_running (cl.pods k)))
                        (λ _. Yields-pure (λ calls h. tt))
                        (λ _.
                          Yields-if (is_over cl m (pos (suc s)) t0 now)
                            (λ _. Yields-pure (λ calls h. tt))
                            (λ e.
                              Yields-bind AtEnd (again now (not_over t0 now e))
                                (λ rest. Yields-pure (λ calls h. tt))))))))

  collect_loop-Yields :
      (t0 n : ℕ)
      → Yields
          (λ calls. limit_of t0 < m.clock (length calls) + suc n)
          AtEnd
          (λ calls. ⊥)
          (collect_loop cl m out (pos (suc s)) t0 (suc n))
  collect_loop-Yields t0 zero =
      round-Yields t0 zero (λ now soon. record { from = λ calls (near, h). absurd (omega arith) })
  collect_loop-Yields t0 (suc n) =
      round-Yields t0 (suc n)
        (λ now soon. Yields-after (λ calls (near, h). omega arith) (collect_loop-Yields t0 n))

  loop-Yields :
      (t0 rounds : ℕ)
      → suc s * m.second < rounds
      → Yields
          (λ calls. t0 < m.clock (length calls))
          AtEnd
          (λ calls. ⊥)
          (collect_loop cl m out (pos (suc s)) t0 rounds)
  loop-Yields t0 zero h = absurd (omega arith)
  loop-Yields t0 (suc n) h = Yields-after (λ calls b. omega arith) (collect_loop-Yields t0 n)

  started :
      Yields
        (λ calls. Unit {0})
        (λ t0 calls. t0 ≤ m.clock (length calls))
        (λ calls. ⊥)
        (reading cl m)
  unfolding reading
  started = record { from = λ calls u. omega arith }

  called :
      (t0 : ℕ) (c : Call)
      → Yields
          (λ calls. t0 ≤ m.clock (length calls))
          (λ r calls. t0 < m.clock (length calls))
          (λ calls. ⊥)
          (call cl c)
  unfolding call
  called t0 c = record { from = λ calls b. later t0 calls c b }

  collect-Yields :
      (rounds : ℕ)
      → suc s * m.second < rounds
      → Yields (λ calls. Unit {0}) AtEnd (λ calls. ⊥) (collect cl m rounds out (pos (suc s)))
  unfolding collect
  collect-Yields rounds h =
      Yields-bind (λ t0 calls. t0 ≤ m.clock (length calls)) started
        (λ t0.
          Yields-bind (λ k calls. t0 < m.clock (length calls)) (called t0 (write_file out []))
            (λ k.
              Yields-bind (λ k calls. t0 < m.clock (length calls))
                (Yields-after (λ calls b. omega arith) (called t0 (write_row out (header cl m))))
                (λ k. loop-Yields t0 rounds h)))

-- With a limit of at least a second the collector ends with its rows, though the workers may run on
-- and may not answer. The list of the pods can be read at any time, the clock goes on by each call,
-- and the rounds are more than the ticks of the limit.
pub collect-ok :
    {F : Type 0} (cl : Cluster) (m : Meter F) (out : Text) (s rounds : ℕ)
    → ((k : ℕ) (selector : Text) → cl.succeeds k (get_pods selector) ≡ true)
    → ((k : ℕ) → m.clock k < m.clock (suc k))
    → suc s * m.second < rounds
    → (cells : List Text) × ((collect cl m rounds out (pos (suc s)) []).1 ≡ ok cells)
collect-ok cl m out s rounds answers ticks h =
    let (cells, (e, over)) =
      value_of (λ cells calls. Unit) (collect cl m rounds out (pos (suc s)) [])
        ((collect-Yields cl m out s answers ticks rounds h).from [] tt) in
    (cells, e)
