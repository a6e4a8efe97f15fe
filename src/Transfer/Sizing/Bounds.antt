-- ===== src/Transfer/Sizing/Bounds.antt =====
-- sizing.py: what a pod gets stays within what its node has.
use solutions_library.Prelude.{
  ℕ, suc, ◌+◌, ◌*◌, ◌/◌, ◌≤◌, ◌≡◌, refl, ap, sym, subst, ◌-◌, ◌∙◌, true, none, some, is_nil, [],
  arith, leb,
}
use solutions_library.Prelude.Options.{◌>>=◌, >>=-eq-some}
use solutions_library.Prelude.Int.{ℤ, pos, ◌≤ℤ◌, max_ℤ, min_ℤ, floor_div, ◌*ℤ◌, ◌-ℤ◌}
use solutions_library.Transfer.Config.{Config, effective_num_pods, effective_pods_per_node}
use solutions_library.Transfer.Sizing.{
  Floats, Sizing, streams_for, checkers_for, ceil_div, transfers_for, cpu_request, compute_sizing,
  str_ℤ,
}

streams_for_bounds :
    (per_pod : ℤ) → (pos 4 ≤ℤ streams_for none per_pod) × (streams_for none per_pod ≤ℤ pos 8)
unfolding streams_for min_ℤ max_ℤ
streams_for_bounds per_pod = ground arith

min_max_bounds :
    (n k : ℤ) → pos 1 ≤ℤ k → (pos 1 ≤ℤ min_ℤ (max_ℤ (pos 1) n) k) × (min_ℤ (max_ℤ (pos 1) n) k ≤ℤ k)
unfolding min_ℤ max_ℤ
min_max_bounds n k h = ground arith

checkers_for_bound : (transfers : ℤ) → checkers_for none transfers ≤ℤ pos 256
unfolding checkers_for min_ℤ
checkers_for_bound transfers = ground arith

-- Twice the cores of a pod, of which it has at least one.
abbrev pub twice_cores : ℤ → ℤ
twice_cores cores = pos 2 *ℤ max_ℤ (pos 1) cores

twice_cores_pos : (cores : ℤ) → pos 1 ≤ℤ twice_cores cores
unfolding ◌*ℤ◌ max_ℤ
twice_cores_pos cores = ground arith

module _ {F : Type 0} (fl : Floats F) (c : Config F) where
  pub record IsFeasible (z : Sizing F) : Type 0 where
    pub streams :
        c.rclone_multi_thread_streams ≡ none
        → (pos 4 ≤ℤ z.multi_thread_streams) × (z.multi_thread_streams ≤ℤ pos 8)
    pub transfers_bound :
        c.rclone_transfers ≡ none
        → (cores : ℤ) × (floor_div c.node_vcpu z.pods_per_node ≡ some cores)
          × (pos 1 ≤ℤ z.transfers)
          × (z.transfers ≤ℤ twice_cores cores)
    pub checkers_bound : c.rclone_checkers ≡ none → z.checkers ≤ℤ pos 256
    pub in_flight : z.in_flight_per_node ≡ z.transfers *ℤ z.multi_thread_streams *ℤ z.pods_per_node
    pub pods : effective_pods_per_node c ≡ some z.pods_per_node
    pub total : z.total_pods ≡ effective_num_pods c

  unforced :
      (per_pod mts p t : ℤ)
      → transfers_for fl c per_pod mts p ≡ some t
      → c.rclone_transfers ≡ none
      → (ceil_div fl per_pod mts >>= λ n.
          floor_div c.node_vcpu p >>= λ cores. some (min_ℤ (max_ℤ (pos 1) n) (twice_cores cores)))
        ≡ some t
  unfolding transfers_for
  unforced per_pod mts p t h e =
      let chain : transfers_for fl c per_pod mts p ≡ (
          ceil_div fl per_pod mts >>= λ n.
          floor_div c.node_vcpu p >>= λ cores. some (min_ℤ (max_ℤ (pos 1) n) (twice_cores cores))) =
        rw (e, transfers_for) refl in
      sym chain ∙ h

  transfers_for_bound :
      (per_pod mts p t : ℤ)
      → transfers_for fl c per_pod mts p ≡ some t
      → c.rclone_transfers ≡ none
      → (cores : ℤ) × (floor_div c.node_vcpu p ≡ some cores)
        × (pos 1 ≤ℤ t)
        × (t ≤ℤ twice_cores cores)
  transfers_for_bound per_pod mts p t h none_set =
      let (n, shared, rest) =
        >>=-eq-some (ceil_div fl per_pod mts) _ (unforced per_pod mts p t h none_set) in
      let (cores, divided, last) = >>=-eq-some (floor_div c.node_vcpu p) _ rest in
      let (low, high) = min_max_bounds n (twice_cores cores) (twice_cores_pos cores) in
      let same : min_ℤ (max_ℤ (pos 1) n) (twice_cores cores) ≡ t = ground arith in
      (
        cores,
        divided,
        subst (λ k. pos 1 ≤ℤ k) same low,
        subst (λ k. k ≤ℤ twice_cores cores) same high,
      )

  abbrev Steps : Sizing F → Type 0
  Steps z =
      (effective_pods_per_node c ≡ some z.pods_per_node)
      × (transfers_for fl c z.per_pod_streams z.multi_thread_streams z.pods_per_node
          ≡ some z.transfers)
      × (z.multi_thread_streams ≡ streams_for c.rclone_multi_thread_streams z.per_pod_streams)
      × (z.checkers ≡ checkers_for c.rclone_checkers z.transfers)
      × (z.in_flight_per_node ≡ z.transfers *ℤ z.multi_thread_streams *ℤ z.pods_per_node)
      × (z.total_pods ≡ effective_num_pods c)

  compute_sizing-Steps : (z : Sizing F) → compute_sizing fl c ≡ some z → Steps z
  unfolding compute_sizing
  compute_sizing-Steps z h = ground arith

  -- If the sizing of some settings can be computed, then, where no number was forced: a pod has
  -- four to eight streams for a file; it has at least one transfer, and at most twice as many as it
  -- has cores, counting one where its share of the node is less; it has at most 256 checkers. The
  -- streams of a node are those of a pod times its pods, and the numbers of pods are those of the
  -- settings.
  pub compute_sizing-IsFeasible : (z : Sizing F) → compute_sizing fl c ≡ some z → IsFeasible z
  compute_sizing-IsFeasible z h =
      let (pods, transfers, streams, checkers, in_flight, total) = compute_sizing-Steps z h in
      record {
        streams = λ e.
            (let s : z.multi_thread_streams ≡ streams_for none z.per_pod_streams =
                streams ∙ ap (λ o. streams_for o z.per_pod_streams) e in
              subst (λ n. (pos 4 ≤ℤ n) × (n ≤ℤ pos 8)) (sym s)
                (streams_for_bounds z.per_pod_streams));
        transfers_bound =
            transfers_for_bound z.per_pod_streams z.multi_thread_streams z.pods_per_node z.transfers
              transfers;
        checkers_bound = λ e.
            (let s : z.checkers ≡ checkers_for none z.transfers =
                checkers ∙ ap (λ o. checkers_for o z.transfers) e in
              subst (λ n. n ≤ℤ pos 256) (sym s) (checkers_for_bound z.transfers));
        in_flight = in_flight;
        pods = pods;
        total = total;
      }

cpu_share-le :
    (v p : ℕ) → suc p + 8 ≤ v → (1 ≤ (v - 8) / suc p) × (suc p * ((v - 8) / suc p) + 8 ≤ v)
cpu_share-le v p h = grind arith

cores-eq :
    (v p : ℕ)
    → suc p + 8 ≤ v
    → floor_div (pos v -ℤ pos 8) (pos (suc p)) ≡ some (pos ((v - 8) / suc p))
unfolding floor_div ◌-ℤ◌
cores-eq v p h =
    let enough : leb (0 + 8) (v + 0) ≡ true = ground arith in
    let left : v + 0 - (0 + 8) ≡ v - 8 = omega arith in rw enough (rw left refl)

max_ℤ-eq : (q : ℕ) → 1 ≤ q → max_ℤ (pos 1) (pos q) ≡ pos q
unfolding max_ℤ
max_ℤ-eq q h = ground arith

-- Where no cores are forced, and a node has at least one core for each of its pods beside eight for
-- the system, what its pods ask for together leaves those eight.
pub cpu_request-le :
    {F : Type 0} (fl : Floats F) (c : Config F) (v p : ℕ)
    → c.node_vcpu ≡ pos v
    → c.worker_cpu_request ≡ []
    → suc p + 8 ≤ v
    → (q : ℕ) × (cpu_request fl c (pos (suc p)) ≡ some (fl.str_of q)) × (suc p * q + 8 ≤ v)
unfolding cpu_request
cpu_request-le fl c v p cores unset h =
    let (one, fits) = cpu_share-le v p h in
    let divided : floor_div (c.node_vcpu -ℤ pos 8) (pos (suc p)) ≡ some (pos ((v - 8) / suc p)) =
      ap (λ n. floor_div (n -ℤ pos 8) (pos (suc p))) cores ∙ cores-eq v p h in
    let blank : is_nil c.worker_cpu_request ≡ true = ap is_nil unset in
    (
      (v - 8) / suc p,
      rw blank (rw divided (ap (λ n. some (str_ℤ fl.str_of n)) (max_ℤ-eq ((v - 8) / suc p) one))),
      fits,
    )
