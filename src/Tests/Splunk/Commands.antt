-- ===== src/Tests/Splunk/Commands.antt =====
-- The theorems on the commands of main.py at concrete inputs.
use solutions_library.Prelude.{◌≡◌, refl, true, false, none, some, [], is_nil}
use solutions_library.Prelude.Text.{codes, text_eq}
use solutions_library.Prelude.Dict.{lookup}
use solutions_library.Prelude.Json.{Json, fields, entries}
use solutions_library.Splunk.Client
use solutions_library.Splunk.Hec.{
  send_events_batch, send_loop, batch_starts, batch_at, send_events, judge,
}
use solutions_library.Splunk.Forward.{Surroundings, forward_logs, filter_logs, send_logs}
use solutions_library.Splunk.Daemon.{validate_config}
use solutions_library.Splunk.Commands.{
  cli, config_check, make_forwarder, forward_range, parse_time, report, exits, sent,
}
use solutions_library.Splunk.Commands.Checked.{is_present, config_check-cli}
use solutions_library.Splunk.Commands.Kept.{forward_range-make_forwarder}
use solutions_library.Tests.Splunk.Data.{runtime, collector, held}
use solutions_library.Tests.Splunk.Settings.{parser, env, config, read_env}

accepted : cli parser env ≡ some config
unfolding cli validate_config
accepted = rw (read_env, cli) refl

config_check-cli_example :
    (is_present (config_check config).auth ≡ true)
    × ((config_check config).hec_token ≡ true)
    × (is_nil (config_check config).organization_id ≡ false)
    × (is_nil (config_check config).hec_url ≡ false)
config_check-cli_example = config_check-cli parser env config accepted

abbrev surroundings : Surroundings
surroundings = record {
  pages = λ start_time end_time page_size. Client.done held;
  filter_clock = λ i. i;
  post_clock = λ j. j;
  first_post = 0;
  mark_time = 9;
  last_updated = Json.null;
  writable = true;
}

-- All logs are sent.
three_sent :
    (forward_range runtime collector config surroundings none
      (some [])
      false
      (make_forwarder (some (codes "state")))).1
    ≡ exits 0 (sent 3)
unfolding forward_range parse_time report forward_logs send_logs filter_logs make_forwarder
    send_events_batch send_loop batch_starts send_events batch_at judge lookup entries fields
    text_eq
three_sent = refl

forward_range-make_forwarder_example :
    (forward_range runtime collector config surroundings none
      (some [])
      false
      (make_forwarder (some (codes "state")))).0
    ≡ make_forwarder (some (codes "state"))
forward_range-make_forwarder_example =
    forward_range-make_forwarder runtime collector config surroundings (some (codes "state")) false
      none (some [])
