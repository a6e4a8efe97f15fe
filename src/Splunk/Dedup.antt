-- ===== src/Splunk/Dedup.antt =====
-- crusoe-splunk-hec/deduplicator.py, class `EventDeduplicator`.
-- Times are natural numbers of ticks. A reading of `time.time()` is an argument, and so are the
-- state file's text and whether it can be written. `timestamp > current_time - window` is written
-- `current_time < timestamp + window`, since subtraction on natural numbers stops at 0.
pub mod Window
pub mod Marks
pub mod Filtered
pub mod Restart
pub mod Keys
use solutions_library.Prelude.{
  ℕ, ◌+◌, Bool, true, false, Option, none, some, List, [], ◌∷◌, ltb, is_nil, is_some, if◌then◌else◌,
  not, ◌&&◌, map, min, max, length,
}
use solutions_library.Prelude.Text.{Text, codes, join}
use solutions_library.Prelude.Dict.{Dict, lookup, contains, insert, select_values}
use solutions_library.Prelude.Json.{Json, fields, entries}
use solutions_library.Prelude.Json

pub record EventDeduplicator : Type 0 where
  pub tracking_window_seconds : ℕ
  pub enabled : Bool
  pub seen_events : Dict ℕ

-- An audit log event: the object that the API returned.
abbrev pub Event : Type 0
Event = Dict Json

-- What the class takes from Python and its standard library: `str` and `float` of a JSON value,
-- the hexadecimal SHA-256 digest, and the JSON text of a value and its reader, which is `none`
-- where it raises.
pub record Runtime : Type 0 where
  pub py_str : Json → Text
  pub py_float : Json → Option ℕ
  pub sha256 : Text → Text
  pub json_dump : Json → Text
  pub json_load : Text → Option Json

-- `current_time - self.tracking_window_seconds < timestamp`
abbrev pub is_live : ℕ → ℕ → ℕ → Bool
is_live window now timestamp = ltb now (timestamp + window)

unfoldable pub cleanup_old_entries : ℕ → EventDeduplicator → EventDeduplicator
cleanup_old_entries now d =
    if d.enabled
    then record d {
      seen_events = select_values (is_live d.tracking_window_seconds now) d.seen_events;
    }
    else d

-- `data.get('seen_events', {})` and its `.items()`; `none` where one of them raises.
unfoldable pub seen_field : Json → Option (Dict Json)
seen_field (Json.obj fs) = elim (lookup (codes "seen_events") (entries fs)) [
  | none ↦ some []
  | some (Json.obj gs) ↦ some (entries gs)
  | some _ ↦ none
]
seen_field _ = none

-- The dict that is written, with the time of the last update.
unfoldable pub state_json : Json → EventDeduplicator → Json
state_json last_updated d = Json.obj (
    fields (
      (codes "seen_events", Json.obj (fields (map (λ e. (e.0, Json.num e.1)) d.seen_events)))
      ∷ (codes "last_updated", last_updated)
      ∷ (codes "tracking_window_seconds", Json.num d.tracking_window_seconds)
      ∷ []))

module _ (rt : Runtime) where
  -- `str(event.get(name, ''))`
  unfoldable pub field_text : Event → Text → Text
  field_text e name = elim (lookup name e) [ none ↦ [] | some v ↦ rt.py_str v ]

  unfoldable pub key_fields : Event → List Text
  key_fields e = map (field_text e) (
      codes "start_time"
      ∷ codes "actor_id"
      ∷ codes "action"
      ∷ codes "target_type"
      ∷ codes "target_id"
      ∷ codes "organization_id"
      ∷ [])

  unfoldable pub generate_event_hash : Event → Text
  generate_event_hash e = rt.sha256 (join (codes "|") (key_fields e))

  -- The numbers of `{event_hash: float(timestamp) for ...}`.
  unfoldable pub floats : Dict Json → Option (Dict ℕ)
  floats [] = some []
  floats ((h, v) ∷ m) = elim (rt.py_float v) [
    | none ↦ none
    | some t ↦ elim (floats m) [ none ↦ none | some r ↦ some ((h, t) ∷ r) ]
  ]

  unfoldable pub decode_state : Text → Option (Dict ℕ)
  decode_state text = elim (rt.json_load text) [
    | none ↦ none
    | some j ↦ elim (seen_field j) [ none ↦ none | some m ↦ floats m ]
  ]

  -- The argument `disk` is the text of the state file, if it exists.
  unfoldable pub load_state : ℕ → Option Text → EventDeduplicator → EventDeduplicator
  load_state now disk d =
      if d.enabled
      then (elim disk [
        | none ↦ d
        | some text ↦ elim (decode_state text) [
          | none ↦ record d { seen_events = [] }
          | some seen ↦ cleanup_old_entries now (record d { seen_events = seen })
        ]
      ])
      else d

  unfoldable pub init : ℕ → Bool → ℕ → Option Text → EventDeduplicator
  init window enabled now disk =
      load_state now disk
        (record { tracking_window_seconds = window; enabled = enabled; seen_events = [] })

  -- The text goes to a temporary file that replaces the old one, so a failed write leaves that.
  unfoldable pub save_state : Json → Bool → EventDeduplicator → Option Text → Option Text
  save_state last_updated writable d disk =
      if d.enabled && writable then some (rt.json_dump (state_json last_updated d)) else disk

  unfoldable pub is_duplicate : ℕ → Event → EventDeduplicator → EventDeduplicator × Bool
  is_duplicate now e d =
      if d.enabled
      then (let d' = cleanup_old_entries now d in
          (d', contains (generate_event_hash e) d'.seen_events))
      else (d, false)

  -- The loop of `filter_duplicates`; `clock` lists the readings of the clock to come, by number.
  unfoldable pub filter_loop :
      (ℕ → ℕ) → ℕ → List Event → EventDeduplicator → EventDeduplicator × List Event
  filter_loop clock i [] d = (d, [])
  filter_loop clock i (e ∷ events) d =
      let (d', duplicate) = is_duplicate (clock i) e d in
      let (d'', unique) = filter_loop clock (i + 1) events d' in
      (d'', (if duplicate then unique else e ∷ unique))

  unfoldable pub filter_duplicates :
      (ℕ → ℕ) → List Event → EventDeduplicator → EventDeduplicator × List Event
  filter_duplicates clock events d = if d.enabled then filter_loop clock 0 events d else (d, events)

  -- The loop of `mark_events_as_sent`.
  unfoldable pub mark_loop : ℕ → List Event → Dict ℕ → Dict ℕ
  mark_loop now [] seen = seen
  mark_loop now (e ∷ events) seen =
      let h = generate_event_hash e in
      mark_loop now events (if contains h seen then seen else insert h now seen)

  unfoldable pub mark_events_as_sent :
      ℕ
      → Json
      → Bool
      → List Event
      → EventDeduplicator
      → Option Text
      → EventDeduplicator × Option Text
  mark_events_as_sent now last_updated writable events d disk =
      if not d.enabled
      then (d, disk)
      else if is_nil events
      then (d, disk)
      else (let d' = record d { seen_events = mark_loop now events d.seen_events } in
          (d', save_state last_updated writable d' disk))

-- The numbers that `get_stats` reports, after its clean-up.
pub record Stats : Type 0 where
  pub enabled : Bool
  pub tracking_window_seconds : ℕ
  pub tracked_events_count : ℕ
  pub oldest_tracked_event : Option ℕ
  pub newest_tracked_event : Option ℕ

-- `min(...)` and `max(...)` of the values, `None` where there are none.
unfoldable pub fold_values : (ℕ → ℕ → ℕ) → Dict ℕ → Option ℕ
fold_values f [] = none
fold_values f ((h, t) ∷ m) = elim (fold_values f m) [ none ↦ some t | some r ↦ some (f t r) ]

unfoldable pub get_stats : ℕ → EventDeduplicator → EventDeduplicator × Stats
get_stats now d =
    let d' = cleanup_old_entries now d in
    (
      d',
      record {
        enabled = d'.enabled;
        tracking_window_seconds = d'.tracking_window_seconds;
        tracked_events_count = length d'.seen_events;
        oldest_tracked_event = fold_values min d'.seen_events;
        newest_tracked_event = fold_values max d'.seen_events;
      },
    )

-- `removable` says whether the state file can be deleted; a failure is only logged.
unfoldable pub clear_state :
    Bool → EventDeduplicator → Option Text → EventDeduplicator × Option Text
clear_state removable d disk = (record d { seen_events = [] }, (if removable then none else disk))
