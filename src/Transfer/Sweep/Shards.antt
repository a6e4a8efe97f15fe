-- ===== src/Transfer/Sweep/Shards.antt =====
-- sweep.py: the shards of a point and its workers.
use solutions_library.Prelude.{
  ℕ, zero, suc, ◌+◌, ◌*◌, ◌≡◌, refl, sym, ap, ◌∙◌, true, some, false, List, [], ◌∷◌, ◌++◌, map,
  length, length-map, arith,
}
use solutions_library.Prelude.Text.{Text}
use solutions_library.Prelude.Int.{ℤ, pos, negsuc, pos_part, leb_ℤ, max_ℤ, ◌*ℤ◌}
use mathlib.Core.List.{append_assoc, append-nil}
use solutions_library.Prelude.Calls.{ok, pure}
use solutions_library.Prelude.Calls.Finishes.{bind-eq}
use solutions_library.Transfer.Kubectl.{Call, apply, checked, mutate}
use solutions_library.Transfer.Manifests.Pods.{worker_pod}
use solutions_library.Transfer.Run.{World, printer}
use solutions_library.Transfer.Collect.{Meter}
use solutions_library.Transfer.Sweep.{SweepArgs, apply_workers, start_workers}
use solutions_library.Transfer.Shard.{Object, packed, bin_pack}
use solutions_library.Transfer.Shard.Balance.{paths, bin_pack_partitions}
use solutions_library.Transfer.Config.{Config, effective_num_pods}
use solutions_library.Transfer.Config.Pods.{*ℤ-pos}
use solutions_library.Transfer.Sizing.{Floats, Sizing, compute_sizing}
use solutions_library.Transfer.Sizing.Bounds.{compute_sizing-IsFeasible}
use solutions_library.Transfer.Grid.{point}

packed-bins : (b b' : List (List Text)) (s s' : List ℤ) → packed b s ≡ packed b' s' → b ≡ b'
packed-bins b b' s s' e = cc e

-- No shards are made for a number that is not positive.
bin_pack_none :
    (objects : List Object) (n : ℤ) (bins : List (List Text)) (sizes : List ℤ)
    → leb_ℤ n (pos 0) ≡ true
    → bin_pack objects n ≡ packed bins sizes
    → ⊥
unfolding bin_pack
bin_pack_none objects n bins sizes e h = ground arith

mul_negsuc : (n p : ℕ) → leb_ℤ (pos (suc n) *ℤ negsuc p) (pos 0) ≡ true
unfolding ◌*ℤ◌
mul_negsuc n p = grind arith

length-bins :
    (objects : List Object) (k : ℕ) (bins : List (List Text)) (sizes : List ℤ)
    → bin_pack objects (pos (suc k)) ≡ packed bins sizes
    → length bins ≡ suc k
length-bins objects k bins sizes e =
    let (groups, (made, (perm, len))) = bin_pack_partitions objects k in
    ap length (packed-bins _ _ _ _ (sym e ∙ made)) ∙ (length-map paths groups ∙ len)

at_least_one : (p : ℕ) → max_ℤ (pos 1) (pos (suc p)) ≡ pos (suc p)
unfolding max_ℤ
at_least_one p = ground arith

shards_of :
    (objects : List Object) (nodes : ℕ) (ppn : ℤ) (bins : List (List Text)) (sizes : List ℤ)
    → bin_pack objects (pos (suc nodes) *ℤ ppn) ≡ packed bins sizes
    → pos (suc nodes) *ℤ max_ℤ (pos 1) ppn ≡ pos (length bins)
shards_of objects nodes (pos zero) bins sizes e = absurd (
    bin_pack_none objects _ bins sizes
      (rw (*ℤ-pos (pos (suc nodes)) (pos 0) (suc nodes) 0 refl refl) (ground arith)) e)
shards_of objects nodes (negsuc p) bins sizes e =
    absurd (bin_pack_none objects _ bins sizes (mul_negsuc nodes p) e)
shards_of objects nodes (pos (suc p)) bins sizes e =
    let made : pos (suc nodes) *ℤ pos (suc p) ≡ pos (suc (nodes * suc p + p)) =
      *ℤ-pos (pos (suc nodes)) (pos (suc p)) (suc nodes) (suc p) refl refl ∙ ap pos (grind arith) in
    rw (at_least_one p) (
      made ∙ ap pos (sym (length-bins objects _ bins sizes (sym (ap (bin_pack objects) made) ∙ e))))

-- A point with a number of pods per node is sized for as many pods as there are shards.
point-bins :
    {F : Type 0} (fl : Floats F) (c : Config F) (nodes : ℕ) (transfers mts ppn : ℤ) (dest : Text)
    (z : Sizing F) (objects : List Object) (bins : List (List Text)) (sizes : List ℤ)
    → c.num_nodes ≡ pos (suc nodes)
    → bin_pack objects (c.num_nodes *ℤ ppn) ≡ packed bins sizes
    → compute_sizing fl (point c transfers mts ppn dest) ≡ some z
    → z.total_pods ≡ pos (length bins)
unfolding point effective_num_pods
point-bins fl c nodes transfers mts ppn dest z objects bins sizes some_nodes divided sized =
    (compute_sizing-IsFeasible fl (point c transfers mts ppn dest) z sized).total
    ∙ (ap (λ n. n *ℤ max_ℤ (pos 1) ppn) some_nodes
        ∙ shards_of objects nodes ppn bins sizes
            (ap (λ n. bin_pack objects (n *ℤ ppn)) (sym some_nodes) ∙ divided))

-- The numbers from `i` on, `n` of them.
pub range : ℕ → ℕ → List ℕ
range i zero = []
range i (suc n) = i ∷ range (suc i) n

module _ {F : Type 0} (w : World F) (m : Meter F) (args : SweepArgs) (c : Config F)
    (up : (k : ℕ) (x : Call) → w.cluster.succeeds k x ≡ true) where
  abbrev pub worker : Sizing F → ℕ → Call
  worker z i = apply (worker_pod (printer w c) c z [] i)

  checked-eq :
      (x : Call) (calls : List Call)
      → checked w.cluster x calls ≡ (calls ++ (x ∷ []), ok (length calls))
  unfolding checked
  checked-eq x calls = rw (up (length calls) x) refl

  mutate-eq :
      (x : Call) (calls : List Call) → mutate w.cluster false x calls ≡ (calls ++ (x ∷ []), ok tt)
  unfolding mutate
  mutate-eq x calls =
      bind-eq (checked w.cluster x) (λ k. pure tt) calls _ (length calls) (checked-eq x calls)

  apply_workers-eq :
      (z : Sizing F) (i n : ℕ) (calls : List Call)
      → apply_workers w m args c z i n calls ≡ (calls ++ map (worker z) (range i n), ok tt)
  unfolding apply_workers range
  apply_workers-eq z i zero calls = ap (λ l. (l, ok tt)) (sym (append-nil calls))
  apply_workers-eq z i (suc n) calls =
      bind-eq (mutate w.cluster false (worker z i)) (λ u. apply_workers w m args c z (suc i) n)
        calls _ tt (mutate-eq (worker z i) calls)
      ∙ apply_workers-eq z (suc i) n (calls ++ (worker z i ∷ []))
      ∙ ap (λ l. (l, ok tt)) (append_assoc calls (worker z i ∷ []) _)

-- Where there are nodes, the objects could be divided into the shards of a number of pods per node,
-- and every call succeeds, the start of the workers of each point with that number whose sizing can
-- be computed ends normally, and its calls apply the manifests of as many workers as there are
-- shards, numbered from 0 on, whatever the settings say of the number of pods.
pub start_workers-bins :
    {F : Type 0} (w : World F) (m : Meter F) (args : SweepArgs) (c : Config F) (nodes : ℕ)
    (transfers mts ppn : ℤ) (dest : Text) (z : Sizing F) (objects : List Object)
    (bins : List (List Text)) (sizes : List ℤ) (calls : List Call)
    → ((k : ℕ) (x : Call) → w.cluster.succeeds k x ≡ true)
    → c.num_nodes ≡ pos (suc nodes)
    → bin_pack objects (c.num_nodes *ℤ ppn) ≡ packed bins sizes
    → compute_sizing w.floats (point c transfers mts ppn dest) ≡ some z
    → let c' = point c transfers mts ppn dest in
      start_workers w m args c' z calls ≡ (
        calls ++ map (λ i. apply (worker_pod (printer w c') c' z [] i)) (range 0 (length bins)),
        ok tt,
      )
unfolding start_workers
start_workers-bins w m args c nodes transfers mts ppn dest z objects bins sizes calls up some_nodes
      divided sized =
    let c' = point c transfers mts ppn dest in
    let total =
      point-bins w.floats c nodes transfers mts ppn dest z objects bins sizes some_nodes divided
        sized in
    ap (λ t. apply_workers w m args c' z 0 (pos_part t) calls) total
    ∙ apply_workers-eq w m args c' up z 0 (length bins) calls
