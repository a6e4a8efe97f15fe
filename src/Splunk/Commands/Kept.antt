-- ===== src/Splunk/Commands/Kept.antt =====
-- What the commands of main.py do to the state of the deduplicator.
use solutions_library.Prelude.{ℕ, ◌≡◌, refl, Bool, true, false, Option, arith}
use solutions_library.Prelude.Text.{Text}
use solutions_library.Splunk.Dedup
use solutions_library.Splunk.Dedup.{
  Event, init, load_state, cleanup_old_entries, clear_state, is_duplicate,
}
use solutions_library.Prelude.Dict.{lookup, select_values}
use solutions_library.Splunk.Hec.{Collector}
use solutions_library.Splunk.Forward.{Surroundings, filter_logs, send_logs, mark_sent, forward_logs}
use solutions_library.Splunk.Daemon.{AppConfig}
use solutions_library.Splunk.Commands.{make_forwarder, forward_range, dedup_stats}

module _ (rt : Dedup.Runtime) (c : Collector) (config : AppConfig) (env : Surroundings)
    (disk : Option Text) (dry_run : Bool) where
  forward_logs-make_forwarder :
      (start_time end_time : Option ℕ)
      → (forward_logs rt c config.splunk config.batch_size env start_time end_time dry_run
          (make_forwarder disk)).0
        ≡ make_forwarder disk
  unfolding forward_logs filter_logs send_logs mark_sent make_forwarder
  forward_logs-make_forwarder start_time end_time = ground arith

  -- A command that forwards a range of time leaves the forwarder as it is made: without a
  -- deduplicator, and with the state file as it was, whatever it has sent.
  pub forward_range-make_forwarder :
      (start_time end_time : Option Text)
      → (forward_range rt c config env start_time end_time dry_run (make_forwarder disk)).0
        ≡ make_forwarder disk
  unfolding forward_range
  forward_range-make_forwarder start_time end_time = grind (arith, forward_logs-make_forwarder)

-- Where the state file can be deleted, no event is a duplicate for a process that starts after the
-- state was cleared, whatever its window and whether it is enabled.
pub is_duplicate-dedup_stats :
    (rt : Dedup.Runtime) (second loaded read : ℕ) (disk : Option Text) (window : ℕ) (enabled : Bool)
    (started now : ℕ) (e : Event)
    → (is_duplicate rt now e
        (init rt window enabled started (dedup_stats rt second true true loaded read disk).0)).1
      ≡ false
unfolding is_duplicate init load_state dedup_stats clear_state cleanup_old_entries lookup
    select_values
is_duplicate-dedup_stats rt second loaded read disk window true started now e = refl
is_duplicate-dedup_stats rt second loaded read disk window false started now e = refl
