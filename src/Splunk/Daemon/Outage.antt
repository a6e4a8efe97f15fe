-- ===== src/Splunk/Daemon/Outage.antt =====
-- What a cycle of the daemon of main.py does while the collector refuses everything, and while the
-- API fails.
use solutions_library.Prelude.{ℕ, ◌<◌, ◌≡◌, ◌≢◌, none, some, List, [], arith}
use solutions_library.Splunk.Dedup
use solutions_library.Splunk.Dedup.{Event}
use solutions_library.Splunk.Hec.{Collector, hec_error, send_events}
use solutions_library.Splunk.Hec.Batches.{send_events_batch_down}
use solutions_library.Splunk.Client.{raised, done}
use solutions_library.Splunk.Forward.{Surroundings, filter_logs, send_logs, mark_sent, forward_logs}
use solutions_library.Splunk.Daemon.{AppConfig, DaemonOptions, DaemonState, start_of, daemon_cycle}

module _ (rt : Dedup.Runtime) (c : Collector) (config : AppConfig) (o : DaemonOptions)
    (end_time : ℕ) (env : Surroundings) (s : DaemonState) (start_time : ℕ)
    (starts : start_of o s.last_run_time end_time ≡ some start_time) where
  -- While the API raises `CrusoeAPIError`, a cycle changes nothing: the next cycle fetches from the
  -- same time.
  pub daemon_cycle_api_down :
      env.pages (some start_time) (some end_time) config.batch_size ≡ raised
      → daemon_cycle rt c config o end_time env s ≡ (s, none)
  unfolding daemon_cycle forward_logs
  daemon_cycle_api_down down = ground arith

  -- While the collector refuses every batch with a `SplunkHECError`, a cycle that fetched logs
  -- still counts as complete: the time of the last run moves on, although nothing was sent and the
  -- state file is as it was.
  pub daemon_cycle_collector_down :
      (logs : List Event)
      → 0 < config.batch_size
      → env.pages (some start_time) (some end_time) config.batch_size ≡ done logs
      → ((j : ℕ) (batch : List Event)
          → batch ≢ []
          → send_events c config.splunk j (env.post_clock j) batch ≡ hec_error)
      → let (s', range) = daemon_cycle rt c config o end_time env s in
        (s'.last_run_time ≡ some end_time)
        × (range ≡ some (start_time, end_time))
        × (s'.forwarder.disk ≡ s.forwarder.disk)
  unfolding daemon_cycle forward_logs filter_logs send_logs mark_sent
  daemon_cycle_collector_down logs positive fetched down = ground (
    arith,
    send_events_batch_down c config.splunk env.post_clock env.first_post
        (filter_logs rt c config.splunk config.batch_size env logs s.forwarder.deduplicator).1
        config.batch_size positive down,
  )
