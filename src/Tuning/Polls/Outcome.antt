-- ===== src/Tuning/Polls/Outcome.antt =====
-- helper.py: how the wait for a value ends.
use solutions_library.Prelude.{
  ℕ, zero, suc, ◌+◌, ◌*◌, ◌≤◌, ◌<◌, ◌≡◌, refl, sym, subst, ◌==◌, true, false, inl, inr, Bool-cases,
  ltb, ltb→lt, arith,
}
use solutions_library.Prelude.Json.{Json}
use solutions_library.Tuning.Swagger.{is_truthy}
use solutions_library.Tuning.Polls.{
  Awaited, found, timed_out, out_of_fuel, wait_from, poll_until_value,
}

-- The first true answer within the time, or none there.
abbrev pub IsOutcome : (ℕ → Json) → ℕ → ℕ → Awaited → Type 0
IsOutcome poll_fn timeout interval (found k v) =
    (k * interval < timeout)
    × (v ≡ poll_fn k)
    × (is_truthy (poll_fn k) ≡ true)
    × ((j : ℕ) → j < k → is_truthy (poll_fn j) ≡ false)
IsOutcome poll_fn timeout interval timed_out =
    (j : ℕ) → j * interval < timeout → is_truthy (poll_fn j) ≡ false
IsOutcome poll_fn timeout interval out_of_fuel = ⊥

fewer : (j k n : ℕ) → j * n < k * n → j < k
fewer j k n h = grind arith

earlier :
    (poll_fn : ℕ → Json) (k : ℕ)
    → is_truthy (poll_fn k) ≡ false
    → ((j : ℕ) → j < k → is_truthy (poll_fn j) ≡ false)
    → (j : ℕ) → j < suc k
    → is_truthy (poll_fn j) ≡ false
earlier poll_fn k f before j h = elim (Bool-cases (j == k)) [
  | inl e ↦
      let same : j ≡ k = ground arith in subst (λ n. is_truthy (poll_fn n) ≡ false) (sym same) f
  | inr e ↦ before j (ground arith)
]

module _ (poll_fn : ℕ → Json) (timeout i : ℕ) where
  -- Answers from the time limit on do not count.
  late :
      (k : ℕ)
      → timeout ≤ k * suc i
      → ((j : ℕ) → j < k → is_truthy (poll_fn j) ≡ false)
      → IsOutcome poll_fn timeout (suc i) timed_out
  late k over before j soon = before j (fewer j k (suc i) (omega arith))

  wait_from-IsOutcome :
      (fuel k elapsed : ℕ)
      → elapsed ≡ k * suc i
      → timeout ≤ elapsed + fuel
      → ((j : ℕ) → j < k → is_truthy (poll_fn j) ≡ false)
      → IsOutcome poll_fn timeout (suc i) (wait_from poll_fn timeout (suc i) fuel k elapsed)
  unfolding wait_from
  wait_from-IsOutcome zero k elapsed at enough before =
      let over : ltb elapsed timeout ≡ false = ground arith in rw over (late k (omega arith) before)
  wait_from-IsOutcome (suc fuel) k elapsed at enough before =
      elim (Bool-cases (ltb elapsed timeout)) [
        | inr e ↦ rw e (late k (ground arith) before)
        | inl e ↦ (elim (Bool-cases (is_truthy (poll_fn k))) [
          | inl t ↦ let soon = ltb→lt _ _ e in rw e (rw t (omega arith, refl, t, before))
          | inr f ↦ rw e (
              rw f (
                wait_from-IsOutcome fuel (suc k) (elapsed + suc i) (grind arith) (omega arith)
                  (earlier poll_fn k f before)))
        ])
      ]

-- With an interval that is not zero, and the timeout for fuel, the wait ends: with the first answer
-- that is true among those before the timeout, or by the time out, where all of these are false.
pub poll_until_value-IsOutcome :
    (poll_fn : ℕ → Json) (timeout i : ℕ)
    → IsOutcome poll_fn timeout (suc i) (poll_until_value poll_fn timeout (suc i) timeout)
unfolding poll_until_value
poll_until_value-IsOutcome poll_fn timeout i =
    wait_from-IsOutcome poll_fn timeout i timeout 0 0 (omega arith) (omega arith)
      (λ j h. absurd (omega arith))
