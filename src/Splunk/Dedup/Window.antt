-- ===== src/Splunk/Dedup/Window.antt =====
-- What the tracking window promises, for deduplicator.py: the read-only check, the filter, and
-- the marks that a later check finds.
use solutions_library.Prelude.{
  ℕ, ◌+◌, ◌≤◌, ◌<◌, ◌≡◌, ◌↔◌, true, Option, none, some, List, [], ◌∷◌, arith, if◌then◌else◌, refl,
  sym, subst, ap, ◌∙◌, Option-cases, Bool-cases, inl, inr, is_some, All,
}
use solutions_library.Prelude.Text.{Text}
use solutions_library.Prelude.Dict.{
  Dict, lookup, keep_if, HasUniqueKeys, lookup-select_values, select_values-HasUniqueKeys,
}
use solutions_library.Splunk.Dedup.{
  EventDeduplicator, Event, Runtime, is_live, cleanup_old_entries, generate_event_hash,
  is_duplicate, filter_loop, filter_duplicates,
}

-- After a clean-up a hash has the timestamp that it had, if that is still in the window.
pub lookup-cleanup_old_entries :
    (now : ℕ) (d : EventDeduplicator) (j : Text)
    → HasUniqueKeys d.seen_events
    → d.enabled ≡ true
    → lookup j (cleanup_old_entries now d).seen_events
      ≡ keep_if (is_live d.tracking_window_seconds now) (lookup j d.seen_events)
unfolding cleanup_old_entries
lookup-cleanup_old_entries now d j u e =
    rw e (lookup-select_values (is_live d.tracking_window_seconds now) j d.seen_events u)

pub cleanup_old_entries-HasUniqueKeys :
    (now : ℕ) (d : EventDeduplicator)
    → HasUniqueKeys d.seen_events
    → HasUniqueKeys (cleanup_old_entries now d).seen_events
unfolding cleanup_old_entries
cleanup_old_entries-HasUniqueKeys now d u =
    ground
      (arith, select_values-HasUniqueKeys (is_live d.tracking_window_seconds now) d.seen_events u)

pub fields-cleanup_old_entries :
    (now : ℕ) (d : EventDeduplicator)
    → ((cleanup_old_entries now d).enabled ≡ d.enabled)
      × ((cleanup_old_entries now d).tracking_window_seconds ≡ d.tracking_window_seconds)
unfolding cleanup_old_entries
fields-cleanup_old_entries now d = ground arith

module _ (rt : Runtime) where
  pub is_duplicate-eq :
      (now : ℕ) (e : Event) (d : EventDeduplicator)
      → HasUniqueKeys d.seen_events
      → d.enabled ≡ true
      → is_duplicate rt now e d ≡ (
        cleanup_old_entries now d,
        is_some (
            keep_if
              (is_live d.tracking_window_seconds now)
              (lookup (generate_event_hash rt e) d.seen_events)),
      )
  unfolding is_duplicate
  is_duplicate-eq now e d u en =
      ground (arith, lookup-cleanup_old_entries now d (generate_event_hash rt e) u)

  -- With no hash listed twice, the check says yes exactly when deduplication is on and the event's
  -- hash is recorded with a timestamp that is still in the window.
  pub is_duplicate_iff :
      (now : ℕ) (e : Event) (d : EventDeduplicator)
      → HasUniqueKeys d.seen_events
      → ((is_duplicate rt now e d).1 ≡ true) ↔ (
          (d.enabled ≡ true)
          × ((t : ℕ) × (lookup (generate_event_hash rt e) d.seen_events ≡ some t)
              × (now < t + d.tracking_window_seconds)))
  unfolding is_duplicate
  is_duplicate_iff now e d u =
      elim (Option-cases (lookup (generate_event_hash rt e) d.seen_events)) [
        | inl absent ↦ ground (arith, lookup-cleanup_old_entries now d (generate_event_hash rt e) u)
        | inr (t, found) ↦
            ground (arith, lookup-cleanup_old_entries now d (generate_event_hash rt e) u)
      ]

keep_if-keep_if :
    (window now later : ℕ) (o : Option ℕ)
    → now ≤ later
    → keep_if (is_live window later) (keep_if (is_live window now) o)
      ≡ keep_if (is_live window later) o
keep_if-keep_if window now later none h = refl
keep_if-keep_if window now later (some t) h = ground arith

-- What the filter should return: the events whose hash is not live in `seen`, where the event at
-- position i is judged at the reading `clock i`, and `seen` never changes.
pub unseen : Runtime → ℕ → (ℕ → ℕ) → Dict ℕ → ℕ → List Event → List Event
unseen rt window clock seen i [] = []
unseen rt window clock seen i (e ∷ events) =
    let rest = unseen rt window clock seen (i + 1) events in
    if is_some (keep_if (is_live window (clock i)) (lookup (generate_event_hash rt e) seen))
    then rest
    else e ∷ rest

-- From the reading `now` on, two dicts have the same live timestamps.
record SameLive (window now : ℕ) (seen seen' : Dict ℕ) : Type 0 where
  at :
      (j : Text) (later : ℕ)
      → now ≤ later
      → keep_if (is_live window later) (lookup j seen')
        ≡ keep_if (is_live window later) (lookup j seen)

-- With nothing recorded for its events, a list is unseen as a whole.
unseen_of_absent :
    (rt : Runtime) (window : ℕ) (clock : ℕ → ℕ) (seen : Dict ℕ) (i : ℕ) (events : List Event)
    → All (λ e. lookup (generate_event_hash rt e) seen ≡ none) events
    → unseen rt window clock seen i events ≡ events
unfolding unseen
unseen_of_absent rt window clock seen i [] h = refl
unseen_of_absent rt window clock seen i (e ∷ events) h =
    rw h.0 (ap (◌∷◌ e) (unseen_of_absent rt window clock seen (i + 1) events h.1))

module _ (rt : Runtime) (clock : ℕ → ℕ) (steady : (i : ℕ) → clock i ≤ clock (i + 1)) where
  SameLive-cleanup :
      (i : ℕ) (seen : Dict ℕ) (d : EventDeduplicator)
      → HasUniqueKeys d.seen_events
      → d.enabled ≡ true
      → SameLive d.tracking_window_seconds (clock i) seen d.seen_events
      → SameLive d.tracking_window_seconds
          (clock (i + 1))
          seen
          (cleanup_old_entries (clock i) d).seen_events
  SameLive-cleanup i seen d u en s = record {
    at = λ j later h. rw (lookup-cleanup_old_entries (clock i) d j u en) (
        keep_if-keep_if d.tracking_window_seconds (clock i) later (lookup j d.seen_events)
          (omega (arith, steady i))
        ∙ s.at j later (omega (arith, steady i)));
  }

  filter_loop-eq-unseen :
      (i : ℕ) (seen : Dict ℕ) (events : List Event) (d : EventDeduplicator)
      → HasUniqueKeys d.seen_events
      → d.enabled ≡ true
      → SameLive d.tracking_window_seconds (clock i) seen d.seen_events
      → (filter_loop rt clock i events d).1
        ≡ unseen rt d.tracking_window_seconds clock seen i events
  unfolding filter_loop unseen
  filter_loop-eq-unseen i seen [] d u en s = refl
  filter_loop-eq-unseen i seen (e ∷ events) d u en s =
      let d' = cleanup_old_entries (clock i) d in
      let (same_enabled, same_window) = fields-cleanup_old_entries (clock i) d in
      let later : SameLive d'.tracking_window_seconds (clock (i + 1)) seen d'.seen_events =
        subst (λ w. SameLive w (clock (i + 1)) seen d'.seen_events) (sym same_window)
          (SameLive-cleanup i seen d u en s) in
      let ih =
        filter_loop-eq-unseen (i + 1) seen events d'
          (cleanup_old_entries-HasUniqueKeys (clock i) d u) (same_enabled ∙ en) later in
      rw (is_duplicate-eq rt (clock i) e d u en)
        (rw (s.at (generate_event_hash rt e) (clock i) (omega arith)) (rw (ih, same_window)))

  -- With a clock that does not go back, no hash listed twice, and the deduplicator enabled, the
  -- filter returns exactly the events, in order and with their repeats, whose hash was not recorded
  -- or had left the window when the event's turn came; the clean-ups on the way do not change the
  -- answer.
  pub filter_duplicates-eq-unseen :
      (events : List Event) (d : EventDeduplicator)
      → HasUniqueKeys d.seen_events
      → d.enabled ≡ true
      → (filter_duplicates rt clock events d).1
        ≡ unseen rt d.tracking_window_seconds clock d.seen_events 0 events
  unfolding filter_duplicates
  filter_duplicates-eq-unseen events d u en = ground (
    arith,
    filter_loop-eq-unseen 0 d.seen_events events d u en (record { at = λ j later h. refl }),
  )

  -- With a clock that does not go back and no hash listed twice, events that were never recorded
  -- are all returned, whether the deduplicator is enabled or not, an event that stands twice in the
  -- list too: the filter does not compare the events of one list with each other.
  pub filter_duplicates_keeps_repeats :
      (events : List Event) (d : EventDeduplicator)
      → HasUniqueKeys d.seen_events
      → All (λ e. lookup (generate_event_hash rt e) d.seen_events ≡ none) events
      → (filter_duplicates rt clock events d).1 ≡ events
  filter_duplicates_keeps_repeats events d u fresh = elim (Bool-cases d.enabled) [
    | inl en ↦
        filter_duplicates-eq-unseen events d u en ∙ unseen_of_absent rt _ clock _ 0 events fresh
    | inr off ↦ unfold filter_duplicates in ground arith
  ]
