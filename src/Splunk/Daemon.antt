-- ===== src/Splunk/Daemon.antt =====
-- crusoe-splunk-hec/main.py, command `daemon`: the loop of forwarding cycles, and the class
-- `AppConfig` of config.py with its check. A cycle takes the reading of the clock at its start and
-- the surroundings of its call. `KeyboardInterrupt` is the end of the list of cycles.
pub mod Coverage
pub mod Outage
use solutions_library.Prelude.{
  ℕ, ◌+◌, ◌-◌, ◌*◌, Bool, true, false, Option, none, some, List, [], ◌∷◌, leb, if◌then◌else◌, not,
  ◌&&◌, is_nil,
}
use solutions_library.Prelude.Text.{Text}
use solutions_library.Splunk.Dedup
use solutions_library.Splunk.Dedup.{EventDeduplicator}
use solutions_library.Splunk.Hec.{Collector, SplunkConfig}
use solutions_library.Splunk.Client.{CrusoeConfig, is_set}
use solutions_library.Splunk.Forward.{
  LogForwarder, Surroundings, forwarded, failed, out_of_fuel, forward_logs,
}

pub record AppConfig : Type 0 where
  pub crusoe : CrusoeConfig
  pub splunk : SplunkConfig
  pub batch_size : ℕ
  pub timeout : ℕ
  pub max_retries : ℕ

-- The `ValueError`s of `validate_config`, by the setting that is missing.
pub data ConfigError : Type 0 where
  authentication organization_id hec_token hec_url : ConfigError

unfoldable pub validate_config : AppConfig → Option ConfigError
validate_config c =
    if not (is_set c.crusoe.api_token)
      && not (is_set c.crusoe.access_key_id && is_set c.crusoe.secret_access_key)
    then some authentication
    else if is_nil c.crusoe.organization_id
    then some organization_id
    else if is_nil c.splunk.hec_token
    then some hec_token
    else if is_nil c.splunk.hec_url
    then some hec_url
    else none

-- The options of the command, in seconds, and the number of ticks in a second.
pub record DaemonOptions : Type 0 where
  pub interval : ℕ
  pub lookback : ℕ
  pub enable_dedup : Bool
  pub dedup_buffer_seconds : ℕ
  pub second : ℕ

pub record DaemonState : Type 0 where
  pub forwarder : LogForwarder
  pub last_run_time : Option ℕ

-- The time from which a cycle fetches; `none` where the date would be too early, which raises.
unfoldable pub start_of : DaemonOptions → Option ℕ → ℕ → Option ℕ
start_of o none end_time =
    if leb (o.lookback * o.second) end_time then some (end_time - o.lookback * o.second) else none
start_of o (some last) end_time =
    if leb (30 * o.second) last then some (last - 30 * o.second) else none

abbrev pub add_range : Option (ℕ × ℕ) → List (ℕ × ℕ) → List (ℕ × ℕ)
add_range none ranges = ranges
add_range (some r) ranges = r ∷ ranges

module _ (rt : Dedup.Runtime) (c : Collector) (config : AppConfig) (o : DaemonOptions) where
  -- The deduplicator that the command makes, and the state before the first cycle.
  unfoldable pub start_daemon : ℕ → Option Text → DaemonState
  start_daemon now disk = record {
    forwarder = record {
      deduplicator =
          (if o.enable_dedup
            then some (
                Dedup.init rt ((o.interval + 30 + o.dedup_buffer_seconds) * o.second) true now disk)
            else none);
      disk = disk;
    };
    last_run_time = none;
  }

  -- One round of the loop. The second component is the range that was fetched, if the round ended
  -- without an exception.
  unfoldable pub daemon_cycle : ℕ → Surroundings → DaemonState → DaemonState × Option (ℕ × ℕ)
  daemon_cycle end_time env s = elim (start_of o s.last_run_time end_time) [
    | none ↦ (s, none)
    | some start_time ↦
        let (forwarder, ended) =
          forward_logs rt c config.splunk config.batch_size env (some start_time) (some end_time)
            false s.forwarder in
        elim ended [
          | forwarded n ↦ (
            record { forwarder = forwarder; last_run_time = some end_time },
            some (start_time, end_time),
          )
          | failed ↦ (record s { forwarder = forwarder }, none)
          | out_of_fuel ↦ (record s { forwarder = forwarder }, none)
        ]
  ]

  -- The loop over cycles, with the ranges of those that ended without an exception.
  unfoldable pub daemon : List (ℕ × Surroundings) → DaemonState → DaemonState × List (ℕ × ℕ)
  daemon [] s = (s, [])
  daemon ((end_time, env) ∷ cycles) s =
      let (s', range) = daemon_cycle end_time env s in
      let (s'', ranges) = daemon cycles s' in (s'', add_range range ranges)
