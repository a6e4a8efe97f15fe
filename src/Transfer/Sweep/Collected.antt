-- ===== src/Transfer/Sweep/Collected.antt =====
-- collect.py: the collector neither starts nor removes a worker.
use solutions_library.Prelude.{
  ℕ, zero, suc, ◌≡◌, refl, Bool, true, some, List, [], is_nil, select, arith,
}
use solutions_library.Prelude.Text.{Text}
use solutions_library.Prelude.Int.{ℤ}
use solutions_library.Prelude.Calls.Yields.{Yields-out_of_fuel}
use solutions_library.Prelude.Calls.Leads.{Leads-bind, Leads-pure, Leads-if}
use solutions_library.Transfer.Kubectl.{Call, exec, get_pods, write_file, write_row, Cluster, Pod}
use solutions_library.Transfer.Run.{is_running}
use solutions_library.Transfer.Collect.{
  Meter, reading, collect_pods, collect_loop, collect, is_over,
}
use solutions_library.Transfer.Sweep.Fleet.{fleet, IsRunning-snoc, Kept, call-Kept, checked-Kept}
use solutions_library.Transfer.Collect.Keeps.{is_metering, collect_pods-Keeps}

metering-fleet : (b : Bool) (c : Call) → is_metering c ≡ true → fleet b c ≡ some b
metering-fleet b (exec pod argv) e = ground arith
metering-fleet b (write_row path cells) e = refl
metering-fleet b c e = ground arith

module _ {F : Type 0} (cl : Cluster) (m : Meter F) where
  collect_pods-Kept :
      (out : Text) (t0 now : ℕ) (pods : List Pod) → Kept (collect_pods cl m out t0 now pods)
  collect_pods-Kept out t0 now pods =
      collect_pods-Keeps cl m
        (λ calls c e (b, h). (b, IsRunning-snoc b b c (metering-fleet b c e) calls h)) out t0 now
        pods

  reading-Kept : Kept (reading cl m)
  unfolding reading
  reading-Kept = record { from = λ calls h. h }

  collect_loop-Kept : (out : Text) (s : ℤ) (t0 n : ℕ) → Kept (collect_loop cl m out s t0 n)
  unfolding collect_loop
  collect_loop-Kept out s t0 zero = Yields-out_of_fuel (λ calls h. h)
  collect_loop-Kept out s t0 (suc n) = Leads-bind reading-Kept (λ now.
      Leads-bind (checked-Kept cl (get_pods _) (λ b. b) (λ b. refl)) (λ k.
        Leads-if (is_nil (cl.pods k)) (λ _. Leads-pure)
          (λ _. Leads-bind (collect_pods-Kept out t0 now (cl.pods k)) (λ cells.
            Leads-if (is_nil (select is_running (cl.pods k))) (λ _. Leads-pure)
              (λ _.
                Leads-if (is_over cl m s t0 now) (λ _. Leads-pure)
                  (λ _. Leads-bind (collect_loop-Kept out s t0 n) (λ rest. Leads-pure)))))))

  pub collect-Kept : (rounds : ℕ) (out : Text) (s : ℤ) → Kept (collect cl m rounds out s)
  unfolding collect
  collect-Kept rounds out s = Leads-bind reading-Kept (λ t0.
      Leads-bind (call-Kept cl (write_file out []) (λ b. b) (λ b. refl)) (λ k.
        Leads-bind (call-Kept cl (write_row out _) (λ b. b) (λ b. refl))
          (λ k'. collect_loop-Kept out s t0 rounds)))
