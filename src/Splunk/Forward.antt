-- ===== src/Splunk/Forward.antt =====
-- crusoe-splunk-hec/main.py, class `LogForwarder`: one pass from the API to the collector.
pub mod Marked
use solutions_library.Prelude.{
  ℕ, ◌-◌, ◌*◌, Bool, true, false, Option, none, some, List, [], ◌∷◌, leb, if◌then◌else◌, length,
  is_nil, is_some, ◌&&◌,
}
use solutions_library.Prelude.Text.{Text}
use solutions_library.Prelude.Json.{Json}
use solutions_library.Splunk.Dedup
use solutions_library.Splunk.Dedup.{
  EventDeduplicator, Event, filter_duplicates, mark_events_as_sent,
}
use solutions_library.Splunk.Hec
use solutions_library.Splunk.Hec.{Collector, SplunkConfig, send_events_batch}
use solutions_library.Splunk.Client
use solutions_library.Splunk.Client.{Paged, done, raised, no_fuel}

-- The forwarder's deduplicator, and the text of the state file.
pub record LogForwarder : Type 0 where
  pub deduplicator : Option EventDeduplicator
  pub disk : Option Text

-- What the forwarder meets from outside during one call: the pages that the client's paginated call
-- returns for a time range and a page size, the readings of the clock while it filters, sends and
-- marks, the number of its first request to the collector, and whether the state file can be
-- written.
pub record Surroundings : Type 0 where
  pub pages : Option ℕ → Option ℕ → ℕ → Paged
  pub filter_clock : ℕ → ℕ
  pub post_clock : ℕ → ℕ
  pub first_post : ℕ
  pub mark_time : ℕ
  pub last_updated : Json
  pub writable : Bool

-- How a call ends: it returns the number of logs, or raises. `out_of_fuel` is a bound of the model.
pub data Ended : Type 0 where
  forwarded : ℕ → Ended
  failed : Ended
  out_of_fuel : Ended

module _ (rt : Dedup.Runtime) (c : Collector) (config : SplunkConfig) (batch_size : ℕ)
    (env : Surroundings) where
  -- `if self.deduplicator: logs = self.deduplicator.filter_duplicates(logs)`
  unfoldable pub filter_logs :
      List Event → Option EventDeduplicator → Option EventDeduplicator × List Event
  filter_logs logs none = (none, logs)
  filter_logs logs (some d) =
      let (d', unique) = filter_duplicates rt env.filter_clock logs d in (some d', unique)

  -- `if self.deduplicator and successfully_sent_events: ... mark_events_as_sent(...)`
  unfoldable pub mark_sent : List Event → LogForwarder → LogForwarder
  mark_sent sent_events s = elim s.deduplicator [
    | none ↦ s
    | some d ↦
        if is_nil sent_events
        then s
        else (let (d', disk') =
              mark_events_as_sent rt env.mark_time env.last_updated env.writable sent_events d
                s.disk in
            record { deduplicator = some d'; disk = disk' })
  ]

  -- The part behind the filter.
  unfoldable pub send_logs : Bool → List Event → LogForwarder → LogForwarder × Ended
  send_logs dry_run logs s =
      if is_nil logs
      then (s, forwarded 0)
      else if dry_run
      then (s, forwarded (length logs))
      else (elim (send_events_batch c config env.post_clock env.first_post logs batch_size) [
        | none ↦ (s, failed)
        | some (sent_count, sent_events) ↦ (mark_sent sent_events s, forwarded sent_count)
      ])

  unfoldable pub forward_logs : Option ℕ → Option ℕ → Bool → LogForwarder → LogForwarder × Ended
  forward_logs start_time end_time dry_run s = elim (env.pages start_time end_time batch_size) [
    | raised ↦ (s, failed)
    | no_fuel ↦ (s, out_of_fuel)
    | done logs ↦
        if is_nil logs
        then (s, forwarded 0)
        else (let (d', unique) = filter_logs logs s.deduplicator in
            send_logs dry_run unique (record s { deduplicator = d' }))
  ]

  -- The range of the last `hours`, with `hour` ticks to the hour; `none` where the date would be
  -- too early, which raises.
  unfoldable pub forward_recent_logs : ℕ → ℕ → ℕ → Bool → LogForwarder → LogForwarder × Ended
  forward_recent_logs hour hours now dry_run s =
      if leb (hours * hour) now
      then forward_logs (some (now - hours * hour)) (some now) dry_run s
      else (s, failed)

-- `health_check` of the two services: the second is asked only if the first is healthy.
unfoldable pub health_check : Bool → Bool → Bool
health_check crusoe_healthy splunk_healthy = if crusoe_healthy then splunk_healthy else false
