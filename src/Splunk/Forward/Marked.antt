-- ===== src/Splunk/Forward/Marked.antt =====
-- What a call of `forward_logs` of main.py leaves in the deduplicator.
use solutions_library.Prelude.{
  ℕ, ◌+◌, ◌<◌, ◌≡◌, ap, ◌∙◌, sym, subst, true, false, Option, none, some, List, [], ◌∷◌, arith, ltb,
  All, All-map, All-both, eq-nil_of_is_nil,
}
use solutions_library.Prelude.Text.{Text}
use solutions_library.Prelude.Dict.{lookup, HasUniqueKeys}
use solutions_library.Splunk.Dedup
use solutions_library.Splunk.Dedup.{
  EventDeduplicator, Event, generate_event_hash, is_duplicate, filter_duplicates,
  mark_events_as_sent,
}
use solutions_library.Splunk.Dedup.Marks.{All-has_hash, is_duplicate-mark_events_as_sent}
use solutions_library.Splunk.Dedup.Filtered.{filter_duplicates-nil, filter_duplicates-absent}
use solutions_library.Splunk.Hec.{Collector, SplunkConfig, send_events_batch}
use solutions_library.Splunk.Hec.Batches.{send_events_batch-nil, All-send_events_batch}
use solutions_library.Splunk.Client.{done}
use solutions_library.Splunk.Forward.{
  LogForwarder, Surroundings, filter_logs, mark_sent, send_logs, forward_logs,
}

-- The deduplicator of a forwarder, or `d` if it has none.
abbrev pub after : EventDeduplicator → LogForwarder → EventDeduplicator
after d s = elim s.deduplicator [ none ↦ d | some d' ↦ d' ]

module _ (rt : Dedup.Runtime) (c : Collector) (config : SplunkConfig) (batch_size : ℕ)
    (env : Surroundings) (positive : 0 < batch_size) (d : EventDeduplicator) (disk : Option Text)
    (unique : HasUniqueKeys d.seen_events) (on : d.enabled ≡ true) where
  after-forward_logs :
      (start_time end_time : Option ℕ) (logs : List Event) (e : Event) (sent_events : List Event)
      (n : ℕ)
      → env.pages start_time end_time batch_size ≡ done logs
      → send_events_batch c config env.post_clock env.first_post
          (filter_duplicates rt env.filter_clock logs d).1
          batch_size
        ≡ some (n, e ∷ sent_events)
      → after d
          (forward_logs rt c config batch_size env start_time end_time false
            (record { deduplicator = some d; disk = disk })).0
        ≡ (mark_events_as_sent rt env.mark_time env.last_updated env.writable
            (e ∷ sent_events)
            (filter_duplicates rt env.filter_clock logs d).0
            disk).0
  unfolding forward_logs filter_logs send_logs mark_sent
  after-forward_logs start_time end_time logs e sent_events n fetched reported =
      let unique_logs = (filter_duplicates rt env.filter_clock logs d).1 in
      ground (
        arith,
        send_events_batch-nil c config env.post_clock env.first_post batch_size,
        eq-nil_of_is_nil unique_logs,
        eq-nil_of_is_nil logs,
        filter_duplicates-nil rt env.filter_clock d,
      )

  -- With an enabled deduplicator, each event that the call reports to the collector as sent is from
  -- then on a duplicate, exactly while the clock reads less than a window after the marking.
  pub forward_logs-marks :
      (start_time end_time : Option ℕ) (logs sent_events : List Event) (n later : ℕ)
      → env.pages start_time end_time batch_size ≡ done logs
      → send_events_batch c config env.post_clock env.first_post
          (filter_duplicates rt env.filter_clock logs d).1
          batch_size
        ≡ some (n, sent_events)
      → All
          (λ e.
            (is_duplicate rt later e (
              after d
                (forward_logs rt c config batch_size env start_time end_time false
                  (record { deduplicator = some d; disk = disk })).0)).1
            ≡ ltb later (env.mark_time + d.tracking_window_seconds))
          sent_events
  forward_logs-marks start_time end_time logs [] n later fetched reported = tt
  forward_logs-marks start_time end_time logs (e ∷ sent_events) n later fetched reported =
      let d' = (filter_duplicates rt env.filter_clock logs d).0 in
      let unique_logs = (filter_duplicates rt env.filter_clock logs d).1 in
      let (absent, unique', on', same_window) =
        filter_duplicates-absent rt env.filter_clock logs d unique on in
      let all_sent = e ∷ sent_events in
      let sent_absent =
        All-send_events_batch c config env.post_clock
          (λ f. lookup (generate_event_hash rt f) d'.seen_events ≡ none) env.first_post unique_logs
          batch_size n all_sent positive absent reported in
      subst
        (λ x.
          All
            (λ f.
              (is_duplicate rt later f x).1 ≡ ltb later (env.mark_time + d.tracking_window_seconds))
            all_sent)
        (sym (after-forward_logs start_time end_time logs e sent_events n fetched reported))
        (All-map _ _
          (λ f both.
            is_duplicate-mark_events_as_sent rt env.mark_time env.last_updated env.writable all_sent
              d' disk later f on' unique' both.0 both.1
            ∙ ap (λ w. ltb later (env.mark_time + w)) same_window)
          all_sent (All-both _ _ all_sent (All-has_hash rt all_sent) sent_absent))
