-- ===== src/Tests/Splunk/Forward.antt =====
-- The theorems on splunk_hec.py, crusoe_client.py and main.py at concrete inputs.
use solutions_library.Prelude.{
  ℕ, zero, suc, ◌+◌, ◌*◌, ◌≤◌, ◌<◌, ◌≡◌, ◌≢◌, refl, true, false, none, some, List, [], ◌∷◌, arith,
  if◌then◌else◌, length, take, drop, flatten, All,
}
use solutions_library.Prelude.Text.{Text, text_eq}
use solutions_library.Prelude.Dict.{Dict, lookup}
use solutions_library.Prelude.Json.{Json, entries, fields}
use solutions_library.Tests.Splunk.Data.{
  runtime, login, logout, empty_dedup, splunk_config, collector, broken_collector, crusoe_config,
  api, held,
}
use solutions_library.Splunk.Dedup.{Event, filter_duplicates, is_duplicate}
use solutions_library.Splunk.Dedup.Window.{filter_duplicates_keeps_repeats}
use solutions_library.Splunk.Hec.{hec_error, sent, send_events, send_events_batch, judge}
use solutions_library.Splunk.Hec.Batches.{
  batches, accepted, fails, flatten-batches, send_events_batch-eq-accepted, send_events_batch_up,
}
use solutions_library.Splunk.Client
use solutions_library.Splunk.Client.{
  Result, ok, other_error, done, page_loop, Paged, raised, logs_url, query_params, count_param,
  time_param, starts_with, signature_payload, pad_base64, get_audit_logs_paginated,
}
use solutions_library.Splunk.Client.Paging.{page_loop_truncates, page_loop_capped}
use solutions_library.Splunk.Client.Signature.{get_audit_logs_paginated-all}
use solutions_library.Splunk.Forward.{LogForwarder, Surroundings, forward_logs}
use solutions_library.Splunk.Forward.Marked.{forward_logs-marks, after}
use solutions_library.Splunk.Daemon.{
  AppConfig, DaemonOptions, DaemonState, start_of, daemon_cycle, daemon,
}
use solutions_library.Splunk.Daemon.Coverage.{Covered, daemon_covers}
use solutions_library.Splunk.Daemon.Outage.{daemon_cycle_api_down, daemon_cycle_collector_down}

flatten-batches_example :
    (flatten (batches held 2) ≡ held)
    × All (λ batch. (batch ≢ []) × (length batch ≤ 2)) (batches held 2)
flatten-batches_example = flatten-batches held 2 (omega arith)

send_events_batch-eq-accepted_example :
    send_events_batch collector splunk_config (λ k. k) 0 held 2 ≡ (
      if fails collector splunk_config (λ k. k) 0 (batches held 2)
      then none
      else some (
        length (accepted collector splunk_config (λ k. k) 0 (batches held 2)),
        accepted collector splunk_config (λ k. k) 0 (batches held 2),
      ))
send_events_batch-eq-accepted_example =
    send_events_batch-eq-accepted collector splunk_config (λ k. k) 0 held 2 (omega arith)

-- One full page, then an exception.
abbrev failing_source : ℕ → ℕ → Result (List Event)
failing_source zero offset = ok (take 2 (drop offset held))
failing_source (suc k) offset = other_error

first_page : (j offset : ℕ) → j < 1 → failing_source (0 + j) offset ≡ ok (take 2 (drop offset held))
first_page zero offset h = refl
first_page (suc j) offset h = absurd (omega arith)

page_loop_truncates_example : page_loop failing_source 2 none 5 0 0 0 [] ≡ done (take (1 * 2) held)
page_loop_truncates_example =
    page_loop_truncates failing_source 2 (omega arith) held 1 5 0 (omega arith) first_page
      (λ o. refl) (omega arith)

page_loop_capped_example :
    page_loop (λ k offset. ok (take 2 (drop offset held))) 10 none 5 0 0 0 [] ≡ done (take 2 held)
page_loop_capped_example =
    page_loop_capped (λ k offset. ok (take 2 (drop offset held))) 10 (omega arith) held 2 5 0
      (omega arith) (omega arith) (λ k offset. refl)

serves_pages :
    (j offset : ℕ) (headers : Dict Text)
    → api.fetch j
        (logs_url api crusoe_config)
        (query_params api crusoe_config none none (some 2) (some offset))
        headers
      ≡ Client.page (take 2 (drop offset held))
unfolding query_params count_param time_param lookup text_eq
serves_pages j zero headers = refl
serves_pages j (suc offset) headers = refl

get_audit_logs_paginated-all_example :
    get_audit_logs_paginated api crusoe_config (λ k. []) 10 0 none none 2 none ≡ done held
get_audit_logs_paginated-all_example =
    get_audit_logs_paginated-all api crusoe_config (λ k. []) 10 0 none none 2 held refl
      (omega arith) (omega arith) serves_pages

-- The surroundings of a cycle whose fetch ends as given.
abbrev cycle : Paged → Surroundings
cycle pages = record {
  pages = λ start_time end_time page_size. pages;
  filter_clock = λ i. 1000 + i;
  post_clock = λ k. 1000;
  first_post = 0;
  mark_time = 1010;
  last_updated = Json.null;
  writable = true;
}

abbrev forwarder : LogForwarder
forwarder = record { deduplicator = some empty_dedup; disk = none }

accepts : (j : ℕ) (batch : List Event) → send_events collector splunk_config j 1000 batch ≡ sent
unfolding send_events judge lookup entries fields text_eq
accepts j [] = refl
accepts j (e ∷ batch) = refl

all_unseen :
    (filter_duplicates runtime (λ i. 1000 + i) (login ∷ logout ∷ []) empty_dedup).1
    ≡ login ∷ logout ∷ []
unfolding lookup
all_unseen =
    filter_duplicates_keeps_repeats runtime (λ i. 1000 + i) (λ i. omega arith) (login ∷ logout ∷ [])
      empty_dedup tt (refl, (refl, tt))

both_sent :
    send_events_batch collector splunk_config
      (λ k. 1000)
      0
      (filter_duplicates runtime (λ i. 1000 + i) (login ∷ logout ∷ []) empty_dedup).1
      2
    ≡ some (2, login ∷ logout ∷ [])
both_sent = rw all_unseen (
    send_events_batch_up collector splunk_config (λ k. 1000) 0 (login ∷ logout ∷ []) 2 (omega arith)
      accepts)

forward_logs-marks_example :
    All
      (λ e.
        (is_duplicate runtime 1109 e (
          after empty_dedup
            (forward_logs runtime collector splunk_config 2
              (cycle (done (login ∷ logout ∷ [])))
              none
              none
              false
              forwarder).0)).1
        ≡ true)
      (login ∷ logout ∷ [])
forward_logs-marks_example =
    forward_logs-marks runtime collector splunk_config 2 (cycle (done (login ∷ logout ∷ [])))
      (omega arith) empty_dedup none tt refl none none (login ∷ logout ∷ []) (login ∷ logout ∷ []) 2
      1109 refl both_sent

abbrev app : AppConfig
app = record {
  crusoe = crusoe_config;
  splunk = splunk_config;
  batch_size = 2;
  timeout = 30;
  max_retries = 3;
}

abbrev options : DaemonOptions
options = record {
  interval = 300;
  lookback = 600;
  enable_dedup = true;
  dedup_buffer_seconds = 60;
  second = 1;
}

-- The daemon after a cycle that ended at 1000.
abbrev state : DaemonState
state = record { forwarder = forwarder; last_run_time = some 1000 }

-- A cycle that fails, and one that finds nothing.
abbrev two_cycles : List (ℕ × Surroundings)
two_cycles = (1300, cycle raised) ∷ (1600, cycle (done [])) ∷ []

two_cycles_end : (daemon runtime collector app options two_cycles state).0.last_run_time ≡ some 1600
unfolding daemon daemon_cycle start_of forward_logs
two_cycles_end = refl

daemon_covers_example : Covered 1200 (daemon runtime collector app options two_cycles state).1
daemon_covers_example =
    daemon_covers runtime collector app options two_cycles state 1000 1600 1200 refl two_cycles_end
      (omega arith) (omega arith)

starts : start_of options (some 1000) 1300 ≡ some 970
unfolding start_of
starts = refl

daemon_cycle_api_down_example :
    daemon_cycle runtime collector app options 1300 (cycle raised) state ≡ (state, none)
daemon_cycle_api_down_example =
    daemon_cycle_api_down runtime collector app options 1300 (cycle raised) state 970 starts refl

refuses :
    (j : ℕ) (batch : List Event)
    → batch ≢ []
    → send_events broken_collector splunk_config j 1000 batch ≡ hec_error
unfolding send_events judge
refuses j [] full = absurd (full refl)
refuses j (e ∷ batch) full = refl

daemon_cycle_collector_down_example :
    let (s', range) =
      daemon_cycle runtime broken_collector app options 1300 (cycle (done held)) state in
    (s'.last_run_time ≡ some 1300) × (range ≡ some (970, 1300)) × (s'.forwarder.disk ≡ none)
daemon_cycle_collector_down_example =
    daemon_cycle_collector_down runtime broken_collector app options 1300 (cycle (done held)) state
      970 starts held (omega arith) refl refuses
