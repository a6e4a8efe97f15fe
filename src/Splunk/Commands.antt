-- ===== src/Splunk/Commands.antt =====
-- crusoe-splunk-hec/main.py: the commands of the program but `daemon`. What a command prints is a
-- value, and so is its exit code.
pub mod Kept
pub mod Checked
use solutions_library.Prelude.{
  ℕ, zero, suc, ◌*◌, Bool, true, false, Option, none, some, [], ◌∷◌, is_nil, if◌then◌else◌, not,
  ◌&&◌,
}
use solutions_library.Prelude.Text.{Text, codes}
use solutions_library.Prelude.Dict.{Dict}
use solutions_library.Splunk.Dedup
use solutions_library.Splunk.Dedup.{Stats, init, get_stats, clear_state}
use solutions_library.Splunk.Hec
use solutions_library.Splunk.Hec.{Collector, replace_z}
use solutions_library.Splunk.Client
use solutions_library.Splunk.Client.{Api, is_set}
use solutions_library.Splunk.Forward
use solutions_library.Splunk.Forward.{
  LogForwarder, Surroundings, Ended, forwarded, failed, forward_logs, forward_recent_logs,
}
use solutions_library.Splunk.Daemon.{AppConfig, validate_config}
use solutions_library.Splunk.Settings.{Parser, from_env}

-- The line of a command: all services are healthy or not, so many logs were found or sent, a time
-- that does not parse, or the text of an exception.
pub data Line : Type 0 where
  healthy : Line
  unhealthy : Line
  found : ℕ → Line
  sent : ℕ → Line
  invalid_start : Text → Line
  invalid_end : Text → Line
  error : Line

-- The exit code and the line. `out_of_fuel` is the bound of the model on the pages.
pub data Outcome : Type 0 where
  exits : ℕ → Line → Outcome
  out_of_fuel : Outcome

-- The settings with which the commands run; `none` is the exit with 1.
unfoldable pub cli : Parser → Dict Text → Option AppConfig
cli p env = elim (from_env p env) [
  | none ↦ none
  | some config ↦ elim (validate_config config) [ none ↦ some config | some problem ↦ none ]
]

-- The forwarder that the group makes: it has no deduplicator.
unfoldable pub make_forwarder : Option Text → LogForwarder
make_forwarder disk = record { deduplicator = none; disk = disk }

unfoldable pub health : Api → Collector → AppConfig → Text → ℕ → Text → Outcome
health api c config timestamp now now_text =
    if Forward.health_check (Client.health_check api config.crusoe 0 timestamp)
      (Hec.health_check c config.splunk 0 now now_text)
    then exits 0 healthy
    else exits 1 unhealthy

-- What both forwarding commands print.
unfoldable pub report : Bool → Ended → Outcome
report dry_run (forwarded n) = exits 0 (if dry_run then found n else sent n)
report dry_run failed = exits 1 error
report dry_run Forward.out_of_fuel = out_of_fuel

-- A time of the command line: `some none` where it is not given, `none` for the `ValueError`.
unfoldable pub parse_time : Collector → Option Text → Option (Option ℕ)
parse_time c none = some none
parse_time c (some []) = some none
parse_time c (some (x ∷ s)) = elim (c.fromisoformat (replace_z (x ∷ s))) [
  | none ↦ none
  | some t ↦ some (some t)
]

-- The text of an option that was given.
abbrev pub given : Option Text → Text
given none = []
given (some s) = s

module _ (rt : Dedup.Runtime) (c : Collector) (config : AppConfig) (env : Surroundings) where
  -- `hour` is the number of ticks in an hour.
  unfoldable pub forward_recent : ℕ → ℕ → ℕ → Bool → LogForwarder → LogForwarder × Outcome
  forward_recent hour hours now dry_run s =
      let (s', ended) =
        forward_recent_logs rt c config.splunk config.batch_size env hour hours now dry_run s in
      (s', report dry_run ended)

  unfoldable pub forward_range :
      Option Text → Option Text → Bool → LogForwarder → LogForwarder × Outcome
  forward_range start_time end_time dry_run s = elim (parse_time c start_time) [
    | none ↦ (s, exits 1 (invalid_start (given start_time)))
    | some start_dt ↦ elim (parse_time c end_time) [
      | none ↦ (s, exits 1 (invalid_end (given end_time)))
      | some end_dt ↦
          let (s', ended) =
            forward_logs rt c config.splunk config.batch_size env start_dt end_dt dry_run s in
          (s', report dry_run ended)
    ]
  ]

-- What `dedup_stats` prints: that the state was cleared, or the statistics.
pub data StatsLine : Type 0 where
  cleared : StatsLine
  statistics : Stats → StatsLine

-- `if stats[...]:` for the time of an event, which leaves out the time zero.
unfoldable pub shown : Option ℕ → Option ℕ
shown none = none
shown (some zero) = none
shown (some (suc t)) = some (suc t)

-- The state file after the command and what is printed; `second` is the number of ticks in a
-- second.
unfoldable pub dedup_stats :
    Dedup.Runtime → ℕ → Bool → Bool → ℕ → ℕ → Option Text → Option Text × StatsLine
dedup_stats rt second clear removable loaded read disk =
    let d = init rt (3600 * second) true loaded disk in
    if clear
    then ((clear_state removable d disk).1, cleared)
    else (let stats = (get_stats read d).1 in
        (
          disk,
          statistics (record stats {
            oldest_tracked_event = shown stats.oldest_tracked_event;
            newest_tracked_event = shown stats.newest_tracked_event;
          }),
        ))

-- The line on the authentication, with whether its first setting is shown as present.
pub data Auth : Type 0 where
  bearer_token : Bool → Auth
  access_key : Bool → Text → Auth
  no_authentication : Auth

pub record ConfigReport : Type 0 where
  pub base_url : Text
  pub organization_id : Text
  pub auth : Auth
  pub hec_url : Text
  pub hec_token : Bool
  pub index : Text
  pub sourcetype : Text
  pub batch_size : ℕ
  pub timeout : ℕ
  pub max_retries : ℕ

unfoldable pub config_check : AppConfig → ConfigReport
config_check config = record {
  base_url = config.crusoe.base_url;
  organization_id = config.crusoe.organization_id;
  auth =
      (if is_set config.crusoe.api_token
        then bearer_token (is_set config.crusoe.api_token)
        else if is_set config.crusoe.access_key_id && is_set config.crusoe.secret_access_key
        then access_key (is_set config.crusoe.access_key_id) config.crusoe.region
        else no_authentication);
  hec_url = config.splunk.hec_url;
  hec_token = not (is_nil config.splunk.hec_token);
  index = (if is_set config.splunk.index then given config.splunk.index else codes "Default");
  sourcetype = config.splunk.sourcetype;
  batch_size = config.batch_size;
  timeout = config.timeout;
  max_retries = config.max_retries;
}
