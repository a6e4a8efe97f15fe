-- ===== src/Transfer/Config/Pods.antt =====
-- config.py: the number of pods of a node is the number of all pods shared out among the nodes.
use solutions_library.Prelude.{
  ℕ, zero, suc, ◌+◌, ◌*◌, ◌/◌, ◌≤◌, ◌<◌, ◌≡◌, refl, ap, sym, ◌∙◌, Option, none, some, arith, ◌⊎◌,
  inl, inr,
}
use native.Mathlib.Nat.{mul_comm}
use solutions_library.Prelude.Int.{ℤ, pos, pos_part, negsuc, max_ℤ, neg_ℤ, floor_div, ◌*ℤ◌}
use solutions_library.Transfer.Config.{Config, forced, effective_num_pods, effective_pods_per_node}

-- `q` pods on each of `n` nodes are enough for `t` pods, and no node is left empty for it.
abbrev pub IsShare : ℕ → ℕ → ℕ → Type 0
IsShare t n q = (1 ≤ q) × ((t ≤ q * n) × (q * n < t + n))

forced-cases :
    (n : Option ℤ)
    → (forced n ≡ none)
      ⊎ (((k : ℕ) × (forced n ≡ some (pos (suc k)))) ⊎ ((k : ℕ) × (forced n ≡ some (negsuc k))))
forced-cases none = inl refl
forced-cases (some (pos zero)) = inl refl
forced-cases (some (pos (suc k))) = inr (inl (k, refl))
forced-cases (some (negsuc k)) = inr (inr (k, refl))

ceil-IsShare : (t m : ℕ) → IsShare (suc t) (suc m) (suc (t / suc m))
ceil-IsShare t m = grind arith

max_ℤ-pos : (a : ℤ) → (q : ℕ) × ((max_ℤ (pos 1) a ≡ pos q) × (1 ≤ q))
unfolding max_ℤ
max_ℤ-pos (pos zero) = (1, (refl, omega arith))
max_ℤ-pos (pos (suc n)) = (suc n, (ground arith, omega arith))
max_ℤ-pos (negsuc n) = (1, (ground arith, omega arith))

pub *ℤ-pos : (a b : ℤ) (m n : ℕ) → a ≡ pos m → b ≡ pos n → a *ℤ b ≡ pos (m * n)
unfolding ◌*ℤ◌
*ℤ-pos a b m n p q =
    let plus : m * n + 0 * 0 ≡ m * n = omega arith in
    let minus : m * 0 + 0 * n ≡ 0 = omega arith in rw p (rw q (rw plus (rw minus (ground arith))))

pos-eq : (a b : ℕ) → pos a ≡ pos b → a ≡ b
pos-eq a b e = ap pos_part e

neg_ℤ-pos : (k : ℕ) → neg_ℤ (pos (suc k)) ≡ negsuc k
unfolding neg_ℤ
neg_ℤ-pos k = ground arith

divided :
    (k m : ℕ) (n : ℤ)
    → n ≡ pos (suc m)
    → floor_div (neg_ℤ (pos (suc k))) n ≡ some (negsuc (k / suc m))
unfolding floor_div
divided k m n e = rw e (rw (neg_ℤ-pos k) refl)

at_least_one : (q : ℕ) → max_ℤ (pos 1) (neg_ℤ (negsuc q)) ≡ pos (suc q)
unfolding max_ℤ neg_ℤ
at_least_one q = ground arith

module _ {F : Type 0} (c : Config F) (m t : ℕ) (nodes : c.num_nodes ≡ pos (suc m))
    (total : effective_num_pods c ≡ pos t) where
  abbrev Shared : Type 0
  Shared = (q : ℕ) × ((effective_pods_per_node c ≡ some (pos q)) × IsShare t (suc m) q)

  unforced_share : forced c.num_pods ≡ none → Shared
  unfolding effective_num_pods effective_pods_per_node
  unforced_share e =
      let (q, (eq, one)) = max_ℤ-pos c.pods_per_node in
      let each : effective_pods_per_node c ≡ some (pos q) =
        rw (e, effective_pods_per_node) (ap some eq) in
      let all : effective_num_pods c ≡ pos (suc m * q) =
        rw (e, effective_num_pods)
          (*ℤ-pos c.num_nodes (max_ℤ (pos 1) c.pods_per_node) (suc m) q nodes eq) in
      let same : t ≡ suc m * q = pos-eq t (suc m * q) (sym total ∙ all) in
      let swapped : suc m * q ≡ q * suc m = mul_comm (suc m) q in
      (q, (each, (one, (omega (arith, same, swapped), omega (arith, same, swapped)))))

  forced_share : (k : ℕ) → forced c.num_pods ≡ some (pos (suc k)) → Shared
  unfolding effective_num_pods effective_pods_per_node
  forced_share k e =
      let all : effective_num_pods c ≡ pos (suc k) = rw (e, effective_num_pods) refl in
      let same : t ≡ suc k = pos-eq t (suc k) (sym total ∙ all) in
      let (one, (enough, few)) = ceil-IsShare k m in
      let each : effective_pods_per_node c ≡ some (pos (suc (k / suc m))) =
        rw (e, effective_pods_per_node)
          (rw (divided k m c.num_nodes nodes) (ap some (at_least_one (k / suc m)))) in
      (suc (k / suc m), (each, (one, (omega (arith, enough, same), omega (arith, few, same)))))

  negative_absurd : (k : ℕ) → forced c.num_pods ≡ some (negsuc k) → ⊥
  unfolding effective_num_pods
  negative_absurd k e =
      let all : effective_num_pods c ≡ negsuc k = rw (e, effective_num_pods) refl in
      let clash : negsuc k ≡ pos t = sym all ∙ total in cc clash

-- With at least one node, and a number of all pods that is not below zero, each node gets as many
-- pods as are needed for all of them, and fewer would not do: a node with `q` of them, on each of
-- the `n` nodes, makes at least that number and less than `n` more.
pub effective_pods_per_node-IsShare :
    {F : Type 0} (c : Config F) (m t : ℕ)
    → c.num_nodes ≡ pos (suc m)
    → effective_num_pods c ≡ pos t
    → (q : ℕ) × ((effective_pods_per_node c ≡ some (pos q)) × IsShare t (suc m) q)
effective_pods_per_node-IsShare c m t nodes total = elim (forced-cases c.num_pods) [
  | inl e ↦ unforced_share c m t nodes total e
  | inr (inl (k, e)) ↦ forced_share c m t nodes total k e
  | inr (inr (k, e)) ↦ absurd (negative_absurd c m t nodes total k e)
]
