-- ===== src/Splunk/Daemon/Coverage.antt =====
-- The ranges that the daemon of main.py fetches have no gap.
use solutions_library.Prelude.{
  ℕ, ◌≤◌, ◌≡◌, ◌∙◌, subst, ◌⊎◌, inl, inr, Option, none, some, List, [], ◌∷◌, arith, ◌<◌, ltb,
  Bool-cases,
}
use solutions_library.Splunk.Dedup
use solutions_library.Splunk.Hec.{Collector}
use solutions_library.Splunk.Forward.{Surroundings}
use solutions_library.Splunk.Daemon.{
  AppConfig, DaemonOptions, DaemonState, start_of, daemon_cycle, daemon, add_range,
}

-- A time lies in one of the ranges, ends included.
abbrev pub Covered : ℕ → List (ℕ × ℕ) → Type 0
Covered t [] = ⊥
Covered t ((from, to) ∷ ranges) = ((from ≤ t) × (t ≤ to)) ⊎ Covered t ranges

module _ (rt : Dedup.Runtime) (c : Collector) (config : AppConfig) (o : DaemonOptions) where
  -- What a cycle does to the time of the last run, and the range that it reports.
  abbrev CycleLaw : DaemonState → ℕ → DaemonState × Option (ℕ × ℕ) → Type 0
  CycleLaw s end_time (s', none) = s'.last_run_time ≡ s.last_run_time
  CycleLaw s end_time (s', some (from, to)) =
      (s'.last_run_time ≡ some end_time)
      × (to ≡ end_time)
      × (start_of o s.last_run_time end_time ≡ some from)

  daemon_cycle-CycleLaw :
      (end_time : ℕ) (env : Surroundings) (s : DaemonState)
      → CycleLaw s end_time (daemon_cycle rt c config o end_time env s)
  unfolding daemon_cycle
  daemon_cycle-CycleLaw end_time env s = ground arith

  start_of-le : (last end_time from : ℕ) → start_of o (some last) end_time ≡ some from → from ≤ last
  unfolding start_of
  start_of-le last end_time from e = ground arith

  covers_step :
      (s : DaemonState) (end_time before t : ℕ) (ranges : List (ℕ × ℕ))
      (r : DaemonState × Option (ℕ × ℕ))
      → CycleLaw s end_time r
      → s.last_run_time ≡ some before
      → before < t
      → ((b : ℕ) → r.0.last_run_time ≡ some b → b < t → Covered t ranges)
      → Covered t (add_range r.1 ranges)
  covers_step s end_time before t ranges (s', none) law last from ih = ih before (law ∙ last) from
  covers_step s end_time before t ranges (s', some (a, b)) law last from ih =
      elim (Bool-cases (ltb end_time t)) [
        | inl later ↦ inr (ih end_time law.0 (ground arith))
        | inr now ↦
            let e : start_of o (some before) end_time ≡ some a =
              subst (λ l. start_of o l end_time ≡ some a) last law.2 in
            inl (omega (arith, start_of-le before end_time a e), ground arith)
      ]

  -- Between the last run before and the last run after, every time lies in a range that was fetched
  -- by a cycle that ended without an exception, whatever cycles failed in between.
  pub daemon_covers :
      (cycles : List (ℕ × Surroundings)) (s : DaemonState) (before after t : ℕ)
      → s.last_run_time ≡ some before
      → (daemon rt c config o cycles s).0.last_run_time ≡ some after
      → before < t
      → t ≤ after
      → Covered t (daemon rt c config o cycles s).1
  unfolding daemon
  daemon_covers [] s before after t last final from to = absurd (ground arith)
  daemon_covers ((end_time, env) ∷ cycles) s before after t last final from to =
      let r = daemon_cycle rt c config o end_time env s in
      covers_step s end_time before t (daemon rt c config o cycles r.0).1 r
        (daemon_cycle-CycleLaw end_time env s) last from
        (λ b at_b lt. daemon_covers cycles r.0 b after t at_b final lt to)
