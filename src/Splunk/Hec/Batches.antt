-- ===== src/Splunk/Hec/Batches.antt =====
-- How splunk_hec.py divides the entries, and what it reports of the batches.
use solutions_library.Prelude.{
  ℕ, zero, suc, ◌+◌, ◌≤◌, ◌<◌, ◌≡◌, ◌≢◌, refl, Bool, true, false, none, some, List, [], ◌∷◌, ◌++◌,
  map, flatten, arith, if◌then◌else◌, length, drop, All, length-take, length-drop, length-append,
  take-append-drop, All-append, All-append_parts, subst, Bool-cases, inl, inr, sym, drop-drop,
  drop_of_length-le,
}
use mathlib.Core.List.{append-nil, append_assoc}
use solutions_library.Splunk.Dedup.{Event}
use solutions_library.Splunk.Hec.{
  SplunkConfig, Collector, sent, hec_error, other_error, send_events, batch_starts, batch_at,
  send_loop, send_events_batch,
}

-- The batches that the loop makes.
pub batches : List Event → ℕ → List (List Event)
batches xs b = map (batch_at xs b) (batch_starts (length xs) 0 (length xs) b)

module _ (xs : List Event) (b : ℕ) (positive : 0 < b) where
  flatten-batches_from :
      (f i : ℕ)
      → length xs ≤ i + f
      → flatten (map (batch_at xs b) (batch_starts f i (length xs) b)) ≡ drop i xs
  unfolding batch_starts batch_at flatten
  flatten-batches_from zero i h = rw (drop_of_length-le i xs (omega arith))
  flatten-batches_from (suc f) i h = ground (
    arith,
    flatten-batches_from f (i + b),
    drop_of_length-le i xs,
    drop-drop i b xs,
    take-append-drop b (drop i xs),
  )

  sizes-batches_from :
      (f i : ℕ)
      → All
          (λ batch. (batch ≢ []) × (length batch ≤ b))
          (map (batch_at xs b) (batch_starts f i (length xs) b))
  unfolding batch_starts batch_at
  sizes-batches_from zero i = tt
  sizes-batches_from (suc f) i =
      ground (arith, length-take b (drop i xs), length-drop i xs, sizes-batches_from f (i + b))

  -- For a positive batch size the batches, one after another, are the entries: nothing is left
  -- out, repeated or moved. Each batch has from one to `b` entries.
  pub flatten-batches :
      (flatten (batches xs b) ≡ xs)
      × All (λ batch. (batch ≢ []) × (length batch ≤ b)) (batches xs b)
  unfolding batches
  flatten-batches =
      (flatten-batches_from (length xs) 0 (omega arith), sizes-batches_from (length xs) 0)

-- The entries of those batches, from the k-th request on, that the collector accepted.
module _ (c : Collector) (config : SplunkConfig) (clock : ℕ → ℕ) where
  pub accepted : ℕ → List (List Event) → List Event
  accepted k [] = []
  accepted k (batch ∷ rest) =
      let later = accepted (k + 1) rest in
      elim (send_events c config k (clock k) batch) [ sent ↦ batch ++ later | _ ↦ later ]

  -- Whether some request lets an exception through that is no `SplunkHECError`.
  pub fails : ℕ → List (List Event) → Bool
  fails k [] = false
  fails k (batch ∷ rest) =
      let later = fails (k + 1) rest in
      elim (send_events c config k (clock k) batch) [ other_error ↦ true | _ ↦ later ]

  send_loop-eq-accepted :
      (xs : List Event) (b k : ℕ) (starts : List ℕ) (total : ℕ) (sent_events : List Event)
      → let made = map (batch_at xs b) starts in
        send_loop c config clock xs b k starts (total, sent_events) ≡ (
          if fails k made
          then none
          else some (total + length (accepted k made), sent_events ++ accepted k made))
  unfolding send_loop accepted fails
  send_loop-eq-accepted xs b k [] total sent_events = rw append-nil (ground arith)
  send_loop-eq-accepted xs b k (i ∷ starts) total sent_events =
      let batch = batch_at xs b i in
      let rest = accepted (k + 1) (map (batch_at xs b) starts) in
      ground (
        arith,
        send_loop-eq-accepted xs b (k + 1) starts (total + length batch) (sent_events ++ batch),
        send_loop-eq-accepted xs b (k + 1) starts total sent_events,
        length-append batch rest,
        append_assoc sent_events batch rest,
      )

  -- For a positive batch size the call raises exactly if some request lets another exception
  -- through than `SplunkHECError`; else it reports the entries of the accepted batches, in order,
  -- and their number. A refused batch is skipped, and the ones behind it are still sent.
  pub send_events_batch-eq-accepted :
      (k : ℕ) (xs : List Event) (b : ℕ)
      → 0 < b
      → send_events_batch c config clock k xs b ≡ (
          if fails k (batches xs b)
          then none
          else some (length (accepted k (batches xs b)), accepted k (batches xs b)))
  unfolding send_events_batch batches
  send_events_batch-eq-accepted k [] b positive = unfold batch_starts accepted fails in refl
  send_events_batch-eq-accepted k (x ∷ xs) b positive = ground (
    arith,
    send_loop-eq-accepted (x ∷ xs) b k (batch_starts (length (x ∷ xs)) 0 (length (x ∷ xs)) b) 0 [],
  )

  pub send_events_batch-nil : (k b : ℕ) → send_events_batch c config clock k [] b ≡ some (0, [])
  unfolding send_events_batch
  send_events_batch-nil k b = refl

  accepted_all :
      (k : ℕ) (made : List (List Event))
      → ((j : ℕ) (batch : List Event) → send_events c config j (clock j) batch ≡ sent)
      → (accepted k made ≡ flatten made) × (fails k made ≡ false)
  unfolding accepted fails flatten
  accepted_all k [] up = (refl, refl)
  accepted_all k (batch ∷ made) up = ground (arith, up k batch, accepted_all (k + 1) made up)

  accepted_none :
      (b k : ℕ) (made : List (List Event))
      → ((j : ℕ) (batch : List Event)
          → batch ≢ []
          → send_events c config j (clock j) batch ≡ hec_error)
      → All (λ batch. (batch ≢ []) × (length batch ≤ b)) made
      → (accepted k made ≡ []) × (fails k made ≡ false)
  unfolding accepted fails
  accepted_none b k [] down made = (refl, refl)
  accepted_none b k (batch ∷ made) down full =
      ground (arith, down k batch full.0.0, accepted_none b (k + 1) made down full.1)

  -- While the collector accepts every request, all entries are reported as sent, in order.
  pub send_events_batch_up :
      (k : ℕ) (xs : List Event) (b : ℕ)
      → 0 < b
      → ((j : ℕ) (batch : List Event) → send_events c config j (clock j) batch ≡ sent)
      → send_events_batch c config clock k xs b ≡ some (length xs, xs)
  send_events_batch_up k xs b positive up = ground (
    arith,
    send_events_batch-eq-accepted k xs b,
    accepted_all k (batches xs b) up,
    flatten-batches xs b positive,
  )

  -- While every request ends in a `SplunkHECError`, the call still returns, with nothing sent.
  pub send_events_batch_down :
      (k : ℕ) (xs : List Event) (b : ℕ)
      → 0 < b
      → ((j : ℕ) (batch : List Event)
          → batch ≢ []
          → send_events c config j (clock j) batch ≡ hec_error)
      → send_events_batch c config clock k xs b ≡ some (0, [])
  send_events_batch_down k xs b positive down = ground (
    arith,
    send_events_batch-eq-accepted k xs b,
    accepted_none b k (batches xs b) down (flatten-batches xs b positive).1,
  )

module _ (c : Collector) (config : SplunkConfig) (clock : ℕ → ℕ) (P : Event → Type 0) where
  -- What holds of all entries holds of the accepted ones.
  All-accepted :
      (k : ℕ) (made : List (List Event))
      → All P (flatten made)
      → All P (accepted c config clock k made)
  unfolding accepted flatten
  All-accepted k [] h = tt
  All-accepted k (batch ∷ made) h =
      let (now, rest) = All-append_parts P batch (flatten made) h in
      let later = All-accepted (k + 1) made rest in
      elim (send_events c config k (clock k) batch)
        as (λ o. All P (elim o [
          | sent ↦ batch ++ accepted c config clock (k + 1) made
          | _ ↦ accepted c config clock (k + 1) made
        ])) [
          | sent ↦ All-append P batch (accepted c config clock (k + 1) made) now later
          | hec_error ↦ later
          | other_error ↦ later
        ]

  -- What holds of all entries holds of those that the call reports as sent.
  pub All-send_events_batch :
      (k : ℕ) (xs : List Event) (b n : ℕ) (sent_events : List Event)
      → 0 < b
      → All P xs
      → send_events_batch c config clock k xs b ≡ some (n, sent_events)
      → All P sent_events
  All-send_events_batch k xs b n sent_events positive h e =
      let made = batches xs b in
      let ok : All P (accepted c config clock k made) =
        All-accepted k made (subst (All P) (sym (flatten-batches xs b positive).0) h) in
      elim (Bool-cases (fails c config clock k made)) [
        | inl bad ↦
            absurd (ground (arith, send_events_batch-eq-accepted c config clock k xs b positive))
        | inr good ↦
            let same : accepted c config clock k made ≡ sent_events =
              ground (arith, send_events_batch-eq-accepted c config clock k xs b positive) in
            subst (All P) same ok
      ]
