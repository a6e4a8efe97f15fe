-- ===== src/Splunk/Hec.antt =====
-- crusoe-splunk-hec/splunk_hec.py, class `SplunkHECClient`, and config.py, class `SplunkConfig`.
-- A request is numbered, and the function `post` says how the collector, behind the session's
-- retries, answers each request: `post k payload` for the k-th. Logging and the pauses between
-- batches are left out, as is the `Session` object: its settings only reach the library's retries.
pub mod Batches
use solutions_library.Prelude.{
  ℕ, zero, suc, ◌+◌, ◌-◌, ◌/◌, Bool, true, false, Option, none, some, List, [], ◌∷◌, ◌++◌, map, ltb,
  ◌==◌, ◌||◌, if◌then◌else◌, length, take, drop, is_nil,
}
use solutions_library.Prelude.Text.{Text, codes, text_eq, join}
use solutions_library.Prelude.Dict.{Dict, lookup, insert}
use solutions_library.Prelude.Json.{Json, entries, fields}
use solutions_library.Splunk.Dedup.{Event}

pub record SplunkConfig : Type 0 where
  pub hec_token : Text
  pub hec_url : Text
  pub index : Option Text
  pub sourcetype : Text
  pub source : Text
  pub verify_ssl : Bool

-- How a request ends: in a `RequestException`, or in a response of status below 400 whose body is
-- the JSON value.
pub data Reply : Type 0 where
  request_exception : Reply
  body : Json → Reply

-- The standard library's date parser, JSON writer, and the collector. A time is a number of ticks.
pub record Collector : Type 0 where
  pub fromisoformat : Text → Option ℕ
  pub json_dump : Json → Text
  pub post : ℕ → Text → Reply

-- `s.replace('Z', '+00:00')`
unfoldable pub replace_z : Text → Text
replace_z [] = []
replace_z (c ∷ s) = (if c == b'Z' then codes "+00:00" else c ∷ []) ++ replace_z s

-- What a call of `send_events` does: it returns `True`, raises `SplunkHECError`, or lets another
-- exception through.
pub data Outcome : Type 0 where
  sent hec_error other_error : Outcome

-- `data.get("text") == "Success"` of a response's body; a body that is no object has no `get`.
unfoldable pub judge : Reply → Outcome
judge request_exception = hec_error
judge (body (Json.obj fs)) = elim (lookup (codes "text") (entries fs)) [
  | some (Json.str t) ↦ if text_eq t (codes "Success") then sent else hec_error
  | _ ↦ hec_error
]
judge (body _) = other_error

-- `if self.config.index: event["index"] = self.config.index`
unfoldable pub index_field : Option Text → Dict Json
index_field none = []
index_field (some []) = []
index_field (some (x ∷ s)) = (codes "index", Json.str (x ∷ s)) ∷ []

-- `range(i, n, batch_size)`, with the length of the list for fuel.
unfoldable pub batch_starts : ℕ → ℕ → ℕ → ℕ → List ℕ
batch_starts zero i n batch_size = []
batch_starts (suc f) i n batch_size =
    let rest = batch_starts f (i + batch_size) n batch_size in if ltb i n then i ∷ rest else []

-- `log_entries[i:i + batch_size]`
unfoldable pub batch_at : List Event → ℕ → ℕ → List Event
batch_at log_entries batch_size i = take batch_size (drop i log_entries)

module _ (c : Collector) (config : SplunkConfig) where
  -- The time of an entry, or the reading `now` of the clock where it has none that parses.
  unfoldable pub timestamp_of : ℕ → Event → ℕ
  timestamp_of now e = elim (lookup (codes "timestamp") e) [
    | some (Json.str s) ↦ elim (c.fromisoformat (replace_z s)) [ some t ↦ t | none ↦ now ]
    | _ ↦ now
  ]

  unfoldable pub format_event : ℕ → Event → Json
  format_event now e = Json.obj (
      fields (
        (codes "time", Json.num (timestamp_of now e))
        ∷ (codes "event", Json.obj (fields e))
        ∷ (codes "sourcetype", Json.str config.sourcetype)
        ∷ (codes "source", Json.str config.source)
        ∷ index_field config.index))

  -- The newline-delimited JSON of the entries.
  unfoldable pub payload_of : ℕ → List Event → Text
  payload_of now log_entries =
      join (codes "\n") (map (λ e. c.json_dump (format_event now e)) log_entries)

  unfoldable pub send_events : ℕ → ℕ → List Event → Outcome
  send_events k now log_entries =
      if is_nil log_entries then sent else judge (c.post k (payload_of now log_entries))

  -- The loop over the starts: `total_sent` and `successfully_sent_events` so far; `none` where an
  -- exception leaves the loop. `k` numbers the requests, and `clock` gives the time of each.
  unfoldable pub send_loop :
      (ℕ → ℕ) → List Event → ℕ → ℕ → List ℕ → ℕ × List Event → Option (ℕ × List Event)
  send_loop clock log_entries batch_size k [] (total, sent_events) = some (total, sent_events)
  send_loop clock log_entries batch_size k (i ∷ starts) (total, sent_events) =
      let batch = batch_at log_entries batch_size i in
      elim (send_events k (clock k) batch) [
        | sent ↦
            send_loop clock log_entries batch_size (k + 1) starts
              (total + length batch, sent_events ++ batch)
        | hec_error ↦ send_loop clock log_entries batch_size (k + 1) starts (total, sent_events)
        | other_error ↦ none
      ]

  -- `none` is an exception other than `SplunkHECError`: the count of batches divides by
  -- `batch_size`, and a response may have a body that is no object.
  unfoldable pub send_events_batch : (ℕ → ℕ) → ℕ → List Event → ℕ → Option (ℕ × List Event)
  send_events_batch clock k log_entries batch_size =
      if is_nil log_entries
      then some (0, [])
      else if batch_size == 0
      then none
      else send_loop clock log_entries batch_size k
          (batch_starts (length log_entries) 0 (length log_entries) batch_size) (0, [])

  -- One test event; `now_text` is the time of the check in ISO format.
  unfoldable pub health_check : ℕ → ℕ → Text → Bool
  health_check k now now_text =
      let test_event =
        (codes "timestamp", Json.str now_text)
        ∷ (codes "message", Json.str (codes "Health check from crusoe-splunk-hec"))
        ∷ (codes "event_type", Json.str (codes "health_check"))
        ∷ [] in
      elim (send_events k now (test_event ∷ [])) [ sent ↦ true | _ ↦ false ]

-- The status of the health endpoint, or `none` where the request raised.
unfoldable pub validate_config : Option ℕ → Bool
validate_config none = false
validate_config (some status) = (status == 200) || (status == 404)
