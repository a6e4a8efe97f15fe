-- ===== src/Splunk/Client/Paging.antt =====
-- The loop over the pages of crusoe_client.py.
use solutions_library.Prelude.{
  ℕ, zero, suc, ◌+◌, ◌*◌, ◌≤◌, ◌<◌, ◌≡◌, subst, sym, ap, ◌∙◌, none, List, [], ◌++◌, length, take,
  drop, arith, length-take, length-drop, drop-drop, take-append-drop, take-add, take_of_length-le,
  eq-nil_of_is_nil,
}
use mathlib.Core.List.{append-nil, append_assoc}
use solutions_library.Splunk.Dedup.{Event}
use solutions_library.Splunk.Client.{Result, ok, other_error, done, limit_reached, page_loop}

-- The source answers every request at an offset with at most `cap` of the logs that it holds from
-- there on, and with some if there are any.
abbrev pub Serves : (ℕ → ℕ → Result (List Event)) → ℕ → List Event → Type 0
Serves next cap held = (k offset : ℕ) → next k offset ≡ ok (take cap (drop offset held))

module _ (next : ℕ → ℕ → Result (List Event)) (page_size : ℕ) (positive : 0 < page_size)
    (held : List Event) (serves : Serves next page_size held) where
  page_loop_from :
      (f k offset page_count : ℕ) (all_logs : List Event)
      → offset ≤ length held
      → length held < offset + f
      → page_loop next page_size none f k offset page_count all_logs
        ≡ done (all_logs ++ drop offset held)
  unfolding page_loop limit_reached
  page_loop_from zero k offset page_count all_logs le h = absurd (omega arith)
  page_loop_from (suc f) k offset page_count all_logs le h =
      let d = drop offset held in
      let p = take page_size d in
      rw (serves k offset) (
        ground (
          arith,
          page_loop_from f (k + 1) (offset + length p) (page_count + 1) (all_logs ++ p),
          length-take page_size d,
          length-drop offset held,
          drop-drop offset page_size held,
          take-append-drop page_size d,
          take_of_length-le page_size d,
          eq-nil_of_is_nil p,
          append-nil all_logs,
          append_assoc all_logs p (drop page_size d),
        ))

  -- Against a source that serves full pages of the logs that it holds, with no bound on the pages,
  -- the loop ends and returns them all, each once and in order.
  pub page_loop-all :
      (f k : ℕ) → length held < f → page_loop next page_size none f k 0 0 [] ≡ done held
  page_loop-all f k h = page_loop_from f k 0 0 [] (omega arith) (omega arith)

-- The first `n` requests from the k-th on are answered with the full pages of `held`.
abbrev pub ServesBefore : (ℕ → ℕ → Result (List Event)) → ℕ → List Event → ℕ → ℕ → Type 0
ServesBefore next page_size held k n =
    (j offset : ℕ) → j < n → next (k + j) offset ≡ ok (take page_size (drop offset held))

module _ (next : ℕ → ℕ → Result (List Event)) (page_size : ℕ) (positive : 0 < page_size)
    (held : List Event) where
  page_loop_cut :
      (n f k offset page_count : ℕ) (all_logs : List Event)
      → n < f
      → ServesBefore next page_size held k n
      → ((o : ℕ) → next (k + n) o ≡ other_error)
      → offset + n * page_size ≤ length held
      → page_loop next page_size none f k offset page_count all_logs
        ≡ done (all_logs ++ take (n * page_size) (drop offset held))
  unfolding page_loop limit_reached
  page_loop_cut n zero k offset page_count all_logs h serves fails full = elim h [ ]
  page_loop_cut zero (suc f) k offset page_count all_logs h serves fails full =
      let at_k : next k offset ≡ other_error =
        subst (λ j. next j offset ≡ other_error) (omega arith) (fails offset) in
      let none_taken : zero * page_size ≡ zero = omega arith in
      rw at_k (rw none_taken (rw (append-nil all_logs)))
  page_loop_cut (suc n) (suc f) k offset page_count all_logs h serves fails full =
      let d = drop offset held in
      let p = take page_size d in
      let at_k : next k offset ≡ ok p =
        subst (λ j. next j offset ≡ ok p) (omega arith) (serves 0 offset (omega arith)) in
      let size : length p ≡ page_size =
        omega (arith, length-take page_size d, length-drop offset held) in
      let ih =
        page_loop_cut n f (k + 1) (offset + length p) (page_count + 1) (all_logs ++ p) (omega arith)
          (λ j o lt.
            subst (λ i. next i o ≡ ok (take page_size (drop o held))) (omega arith)
              (serves (suc j) o (omega arith)))
          (λ o. subst (λ i. next i o ≡ other_error) (omega arith) (fails o)) (omega arith) in
      let rest : drop (offset + length p) held ≡ drop page_size d =
        ap (λ z. drop (offset + z) held) size ∙ sym (drop-drop offset page_size held) in
      let count : suc n * page_size ≡ page_size + n * page_size = omega arith in
      rw count (
        rw at_k (
          ground (
            arith,
            ih,
            size,
            rest,
            take-add page_size (n * page_size) d,
            append_assoc all_logs p (take (n * page_size) (drop page_size d)),
          )))

  -- An exception other than `CrusoeAPIError` at the n-th page, behind n full pages, is taken for
  -- the end of the logs: the call returns the logs of the pages before it, as if there were no
  -- more.
  pub page_loop_truncates :
      (n f k : ℕ)
      → n < f
      → ServesBefore next page_size held k n
      → ((o : ℕ) → next (k + n) o ≡ other_error)
      → n * page_size ≤ length held
      → page_loop next page_size none f k 0 0 [] ≡ done (take (n * page_size) held)
  page_loop_truncates n f k h serves fails full =
      page_loop_cut n f k 0 0 [] h serves fails (omega arith)

  -- A source that caps its pages below the page size that was asked for is left after one page.
  pub page_loop_capped :
      (most f k : ℕ)
      → 0 < f
      → most < page_size
      → Serves next most held
      → page_loop next page_size none f k 0 0 [] ≡ done (take most held)
  unfolding page_loop limit_reached
  page_loop_capped most zero k h short serves = elim h [ ]
  page_loop_capped most (suc f) k h short serves =
      rw (serves k 0) (ground (arith, length-take most held, eq-nil_of_is_nil (take most held)))
