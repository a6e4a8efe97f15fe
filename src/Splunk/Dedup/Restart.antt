-- ===== src/Splunk/Dedup/Restart.antt =====
-- Persistence, for deduplicator.py: what a new process finds in the state file.
use solutions_library.Prelude.{ℕ, ◌≡◌, ◌≢◌, true, Option, some, List, [], ◌∷◌, map, arith, refl}
use solutions_library.Prelude.Text.{Text, text_eq}
use solutions_library.Prelude.Dict.{Dict, lookup}
use solutions_library.Prelude.Json.{Json, fields, entries, entries-fields}
use solutions_library.Splunk.Dedup.{
  EventDeduplicator, Event, Runtime, cleanup_old_entries, floats, seen_field, decode_state,
  load_state, init, state_json, save_state, mark_loop, mark_events_as_sent,
}

-- What the class relies on: the reader of JSON returns the value whose text was written, and
-- `float` of a number is that number.
pub record IsFaithful (rt : Runtime) : Type 0 where
  pub load_dump : (j : Json) → rt.json_load (rt.json_dump j) ≡ some j
  pub float_num : (n : ℕ) → rt.py_float (Json.num n) ≡ some n

abbrev pub as_json : Dict ℕ → Dict Json
as_json = map (λ e. (e.0, Json.num e.1))

seen_field-state_json :
    (updated : Json) (d : EventDeduplicator)
    → seen_field (state_json updated d) ≡ some (as_json d.seen_events)
unfolding seen_field state_json lookup text_eq fields entries
seen_field-state_json updated d = rw (entries-fields (as_json d.seen_events))

module _ (rt : Runtime) (law : IsFaithful rt) where
  floats-as_json : (seen : Dict ℕ) → floats rt (as_json seen) ≡ some seen
  unfolding floats
  floats-as_json [] = refl
  floats-as_json ((h, t) ∷ seen) = rw (law.float_num t) (rw (floats-as_json seen))

  decode_state-state_json :
      (updated : Json) (d : EventDeduplicator)
      → decode_state rt (rt.json_dump (state_json updated d)) ≡ some d.seen_events
  unfolding decode_state
  decode_state-state_json updated d = ground (
    arith,
    law.load_dump (state_json updated d),
    seen_field-state_json updated d,
    floats-as_json d.seen_events,
  )

  -- Where the reader of JSON returns the value whose text was written, and `float` of a number is
  -- that number: when an enabled deduplicator has marked a list of at least one event, and the
  -- state file could be written, a process that starts later with the same settings, enabled too,
  -- has the hashes that were recorded then, less those that have left its window.
  pub init-mark_events_as_sent :
      (now later : ℕ) (updated : Json) (events : List Event) (d : EventDeduplicator)
      (disk : Option Text)
      → d.enabled ≡ true
      → events ≢ []
      → let (d', disk') = mark_events_as_sent rt now updated true events d disk in
        init rt d.tracking_window_seconds true later disk' ≡ cleanup_old_entries later d'
  unfolding mark_events_as_sent init load_state save_state
  init-mark_events_as_sent now later updated [] d disk en some_event = absurd (some_event refl)
  init-mark_events_as_sent now later updated (e ∷ events) d disk en some_event =
      let d' = record d { seen_events = mark_loop rt now (e ∷ events) d.seen_events } in
      ground (arith, decode_state-state_json updated d')
