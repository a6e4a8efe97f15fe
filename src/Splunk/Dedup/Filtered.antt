-- ===== src/Splunk/Dedup/Filtered.antt =====
-- The state in which deduplicator.py leaves the recorded hashes after filtering.
use solutions_library.Prelude.{
  ℕ, ◌+◌, ◌≡◌, refl, ap, ◌∙◌, true, none, List, [], ◌∷◌, Option-cases, inl, inr, All, arith,
}
use solutions_library.Prelude.Text.{Text}
use solutions_library.Prelude.Dict.{lookup, keep_if, HasUniqueKeys}
use solutions_library.Splunk.Dedup.{
  EventDeduplicator, Event, Runtime, is_live, cleanup_old_entries, generate_event_hash, filter_loop,
  filter_duplicates,
}
use solutions_library.Splunk.Dedup.Window.{
  lookup-cleanup_old_entries, cleanup_old_entries-HasUniqueKeys, fields-cleanup_old_entries,
  is_duplicate-eq,
}

module _ (rt : Runtime) (clock : ℕ → ℕ) where
  lookup-filter_loop :
      (i : ℕ) (events : List Event) (d : EventDeduplicator) (j : Text)
      → HasUniqueKeys d.seen_events
      → d.enabled ≡ true
      → lookup j d.seen_events ≡ none
      → lookup j (filter_loop rt clock i events d).0.seen_events ≡ none
  unfolding filter_loop
  lookup-filter_loop i [] d j u en absent = absent
  lookup-filter_loop i (e ∷ events) d j u en absent =
      let d' = cleanup_old_entries (clock i) d in
      rw (is_duplicate-eq rt (clock i) e d u en) (
        lookup-filter_loop (i + 1) events d' j (cleanup_old_entries-HasUniqueKeys (clock i) d u)
          ((fields-cleanup_old_entries (clock i) d).0 ∙ en)
          (lookup-cleanup_old_entries (clock i) d j u en
            ∙ ap (keep_if (is_live d.tracking_window_seconds (clock i))) absent))

  pub filter_loop-absent :
      (i : ℕ) (events : List Event) (d : EventDeduplicator)
      → HasUniqueKeys d.seen_events
      → d.enabled ≡ true
      → let (d', unique) = filter_loop rt clock i events d in
        All (λ e. lookup (generate_event_hash rt e) d'.seen_events ≡ none) unique
        × HasUniqueKeys d'.seen_events
        × (d'.enabled ≡ true)
        × (d'.tracking_window_seconds ≡ d.tracking_window_seconds)
  unfolding filter_loop
  filter_loop-absent i [] d u en = (tt, u, en, refl)
  filter_loop-absent i (e ∷ events) d u en =
      let d' = cleanup_old_entries (clock i) d in
      let h = generate_event_hash rt e in
      let (same_enabled, same_window) = fields-cleanup_old_entries (clock i) d in
      let u' = cleanup_old_entries-HasUniqueKeys (clock i) d u in
      let en' = same_enabled ∙ en in
      let (absent, unique, enabled, window) = filter_loop-absent (i + 1) events d' u' en' in
      let found = keep_if (is_live d.tracking_window_seconds (clock i)) (lookup h d.seen_events) in
      rw (is_duplicate-eq rt (clock i) e d u en) (elim (Option-cases found) [
        | inl gone ↦ rw gone (
          (
            lookup-filter_loop (i + 1) events d' h u' en'
                (lookup-cleanup_old_entries (clock i) d h u en ∙ gone),
            absent,
          ),
          unique,
          enabled,
          window ∙ same_window,
        )
        | inr (t, live) ↦ rw live (absent, unique, enabled, window ∙ same_window)
      ])

  -- The filter leaves no hash of an event that it returns among the recorded ones, and changes
  -- nothing else of the deduplicator than the recorded hashes.
  pub filter_duplicates-absent :
      (events : List Event) (d : EventDeduplicator)
      → HasUniqueKeys d.seen_events
      → d.enabled ≡ true
      → let (d', unique) = filter_duplicates rt clock events d in
        All (λ e. lookup (generate_event_hash rt e) d'.seen_events ≡ none) unique
        × HasUniqueKeys d'.seen_events
        × (d'.enabled ≡ true)
        × (d'.tracking_window_seconds ≡ d.tracking_window_seconds)
  unfolding filter_duplicates
  filter_duplicates-absent events d u en = simp en (filter_loop-absent 0 events d u en)

  pub filter_duplicates-nil : (d : EventDeduplicator) → (filter_duplicates rt clock [] d).1 ≡ []
  unfolding filter_duplicates filter_loop
  filter_duplicates-nil d = ground arith
