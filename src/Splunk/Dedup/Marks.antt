-- ===== src/Splunk/Dedup/Marks.antt =====
-- What the marks of deduplicator.py promise to a later check.
use solutions_library.Prelude.{
  ℕ, ◌+◌, ◌≡◌, Bool, true, false, Option, none, some, List, [], ◌∷◌, arith, ltb, if◌then◌else◌,
  ◌||◌, All, All-map,
}
use solutions_library.Prelude.Text.{Text, text_eq, text_eq_iff, text_eq_refl}
use solutions_library.Prelude.Dict.{
  Dict, lookup, contains, insert, HasUniqueKeys, lookup-insert, insert-HasUniqueKeys,
}
use solutions_library.Prelude.Json.{Json}
use solutions_library.Splunk.Dedup.{
  EventDeduplicator, Event, Runtime, generate_event_hash, is_duplicate, mark_loop,
  mark_events_as_sent,
}
use solutions_library.Splunk.Dedup.Window.{is_duplicate-eq}

-- The first of two optional times that is there.
abbrev pub or_else : Option ℕ → Option ℕ → Option ℕ
or_else (some t) o = some t
or_else none o = o

module _ (rt : Runtime) where
  -- Whether one of the events has the hash.
  abbrev pub has_hash : Text → List Event → Bool
  has_hash j [] = false
  has_hash j (e ∷ events) = text_eq (generate_event_hash rt e) j || has_hash j events

  pub All-has_hash :
      (events : List Event) → All (λ e. has_hash (generate_event_hash rt e) events ≡ true) events
  All-has_hash [] = tt
  All-has_hash (x ∷ events) =
      let h = generate_event_hash rt x in
      (
        rw (text_eq_refl h),
        All-map (λ e. has_hash (generate_event_hash rt e) events ≡ true)
            (λ e. has_hash (generate_event_hash rt e) (x ∷ events) ≡ true)
            (λ e listed. rw listed (ground arith)) events (All-has_hash events),
      )

  lookup-mark_loop :
      (now : ℕ) (events : List Event) (seen : Dict ℕ) (j : Text)
      → lookup j (mark_loop rt now events seen)
        ≡ or_else (lookup j seen) (if has_hash j events then some now else none)
  unfolding mark_loop
  lookup-mark_loop now [] seen j = ground arith
  lookup-mark_loop now (e ∷ events) seen j =
      let h = generate_event_hash rt e in
      ground (
        arith,
        text_eq_iff h j,
        lookup-insert h j now seen,
        lookup-mark_loop now events (if contains h seen then seen else insert h now seen) j,
      )

  mark_loop-HasUniqueKeys :
      (now : ℕ) (events : List Event) (seen : Dict ℕ)
      → HasUniqueKeys seen
      → HasUniqueKeys (mark_loop rt now events seen)
  unfolding mark_loop
  mark_loop-HasUniqueKeys now [] seen u = u
  mark_loop-HasUniqueKeys now (e ∷ events) seen u =
      let h = generate_event_hash rt e in
      mark_loop-HasUniqueKeys now events (if contains h seen then seen else insert h now seen)
        (ground (arith, insert-HasUniqueKeys h now seen u))

  module _ (now : ℕ) (last_updated : Json) (writable : Bool) (events : List Event)
      (d : EventDeduplicator) (disk : Option Text) where
    -- Marking records the time of the call for each new hash of the events; a hash that is
    -- recorded keeps its timestamp, and no other hash is added.
    pub lookup-mark_events_as_sent :
        (j : Text)
        → d.enabled ≡ true
        → lookup j (mark_events_as_sent rt now last_updated writable events d disk).0.seen_events
          ≡ or_else (lookup j d.seen_events) (if has_hash j events then some now else none)
    unfolding mark_events_as_sent
    lookup-mark_events_as_sent j en = marked events
      where
        marked :
            (es : List Event)
            → lookup j (mark_events_as_sent rt now last_updated writable es d disk).0.seen_events
              ≡ or_else (lookup j d.seen_events) (if has_hash j es then some now else none)
        marked [] = simp en (ground arith)
        marked (e ∷ es) = ground (arith, lookup-mark_loop now (e ∷ es) d.seen_events j)

    pub mark_events_as_sent-HasUniqueKeys :
        HasUniqueKeys d.seen_events
        → HasUniqueKeys
            (mark_events_as_sent rt now last_updated writable events d disk).0.seen_events
    unfolding mark_events_as_sent
    mark_events_as_sent-HasUniqueKeys u =
        ground (arith, mark_loop-HasUniqueKeys now events d.seen_events u)

    pub fields-mark_events_as_sent :
        let d' = (mark_events_as_sent rt now last_updated writable events d disk).0 in
        (d'.enabled ≡ d.enabled) × (d'.tracking_window_seconds ≡ d.tracking_window_seconds)
    unfolding mark_events_as_sent
    fields-mark_events_as_sent = ground arith

    -- A new event that was marked at `now` is a duplicate at a later reading exactly while that
    -- reading is less than a window after `now`.
    pub is_duplicate-mark_events_as_sent :
        (later : ℕ) (e : Event)
        → d.enabled ≡ true
        → HasUniqueKeys d.seen_events
        → has_hash (generate_event_hash rt e) events ≡ true
        → lookup (generate_event_hash rt e) d.seen_events ≡ none
        → (is_duplicate rt later e
            (mark_events_as_sent rt now last_updated writable events d disk).0).1
          ≡ ltb later (now + d.tracking_window_seconds)
    is_duplicate-mark_events_as_sent later e en u listed fresh =
        let d' = (mark_events_as_sent rt now last_updated writable events d disk).0 in
        ground (
          arith,
          is_duplicate-eq rt later e d' (mark_events_as_sent-HasUniqueKeys u),
          lookup-mark_events_as_sent (generate_event_hash rt e) en,
          fields-mark_events_as_sent,
        )
