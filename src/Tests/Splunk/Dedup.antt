-- ===== src/Tests/Splunk/Dedup.antt =====
-- The theorems on deduplicator.py at concrete inputs.
use solutions_library.Prelude.{
  ℕ, ◌+◌, ◌≤◌, ◌<◌, ◌≡◌, ◌≢◌, ◌↔◌, refl, true, false, none, some, [], ◌∷◌, arith, if◌then◌else◌,
}
use solutions_library.Prelude.Text.{codes, text_eq, join}
use solutions_library.Prelude.Dict.{lookup, select_values}
use solutions_library.Prelude.Json.{Json}
use solutions_library.Tests.Codec.{json_load-json_dump}
use solutions_library.Tests.Splunk.Data.{runtime, login, logout, dedup, empty_dedup, login_hash}
use solutions_library.Splunk.Dedup.{
  generate_event_hash, key_fields, field_text, is_duplicate, filter_duplicates, mark_events_as_sent,
  cleanup_old_entries, init,
}
use solutions_library.Splunk.Dedup.Window.{
  unseen, is_duplicate_iff, filter_duplicates-eq-unseen, filter_duplicates_keeps_repeats,
}
use solutions_library.Splunk.Dedup.Marks.{
  has_hash, or_else, lookup-mark_events_as_sent, is_duplicate-mark_events_as_sent,
}
use solutions_library.Splunk.Dedup.Restart.{init-mark_events_as_sent}
use solutions_library.Splunk.Dedup.Keys.{
  actor_action, generate_event_hash-eq_iff, generate_event_hash_collides,
}

login-hash : generate_event_hash runtime login ≡ login_hash
unfolding generate_event_hash key_fields field_text lookup text_eq join
login-hash = refl

-- `login` was recorded at 50, and the window is 100.
still_seen : (is_duplicate runtime 149 login dedup).1 ≡ true
unfolding is_duplicate cleanup_old_entries select_values generate_event_hash key_fields field_text
    lookup text_eq join
still_seen = refl

forgotten : (is_duplicate runtime 150 login dedup).1 ≡ false
unfolding is_duplicate cleanup_old_entries select_values generate_event_hash key_fields field_text
    lookup text_eq join
forgotten = refl

dedup-HasUniqueKeys : (lookup {V = ℕ} login_hash [] ≡ none) × Unit {0}
unfolding lookup
dedup-HasUniqueKeys = (refl, tt)

is_duplicate_iff_example : ((is_duplicate runtime 149 login dedup).1 ≡ true) ↔ (
    (dedup.enabled ≡ true)
    × ((t : ℕ) × (lookup (generate_event_hash runtime login) dedup.seen_events ≡ some t)
        × (149 < t + 100)))
is_duplicate_iff_example = is_duplicate_iff runtime 149 login dedup dedup-HasUniqueKeys

clock_steady : (i : ℕ) → 120 + i ≤ 120 + (i + 1)
clock_steady i = omega arith

filter_duplicates-eq-unseen_example :
    (filter_duplicates runtime (λ i. 120 + i) (login ∷ logout ∷ []) dedup).1
    ≡ unseen runtime 100 (λ i. 120 + i) dedup.seen_events 0 (login ∷ logout ∷ [])
filter_duplicates-eq-unseen_example =
    filter_duplicates-eq-unseen runtime (λ i. 120 + i) clock_steady (login ∷ logout ∷ []) dedup
      dedup-HasUniqueKeys refl

nothing_seen : lookup (generate_event_hash runtime login) empty_dedup.seen_events ≡ none
unfolding lookup
nothing_seen = refl

filter_duplicates_keeps_repeats_example :
    (filter_duplicates runtime (λ i. 120 + i) (login ∷ login ∷ []) empty_dedup).1
    ≡ login ∷ login ∷ []
filter_duplicates_keeps_repeats_example =
    filter_duplicates_keeps_repeats runtime (λ i. 120 + i) clock_steady (login ∷ login ∷ [])
      empty_dedup tt (nothing_seen, (nothing_seen, tt))

lookup-mark_events_as_sent_example :
    lookup login_hash
      (mark_events_as_sent runtime 300 Json.null true (login ∷ []) dedup none).0.seen_events
    ≡ or_else
        (lookup login_hash dedup.seen_events)
        (if has_hash runtime login_hash (login ∷ []) then some 300 else none)
lookup-mark_events_as_sent_example =
    lookup-mark_events_as_sent runtime 300 Json.null true (login ∷ []) dedup none login_hash refl

logged : has_hash runtime (generate_event_hash runtime login) (login ∷ []) ≡ true
unfolding generate_event_hash key_fields field_text lookup text_eq join
logged = refl

is_duplicate-mark_events_as_sent_example :
    (is_duplicate runtime 399 login
      (mark_events_as_sent runtime 300 Json.null true (login ∷ []) empty_dedup none).0).1
    ≡ true
is_duplicate-mark_events_as_sent_example =
    is_duplicate-mark_events_as_sent runtime 300 Json.null true (login ∷ []) empty_dedup none 399
      login refl tt logged nothing_seen

some_event : login ∷ [] ≢ []
some_event e = cc

init-mark_events_as_sent_example :
    init runtime 100 true 350
      (mark_events_as_sent runtime 300 Json.null true (login ∷ []) empty_dedup none).1
    ≡ cleanup_old_entries 350
        (mark_events_as_sent runtime 300 Json.null true (login ∷ []) empty_dedup none).0
init-mark_events_as_sent_example =
    init-mark_events_as_sent runtime
      (record { load_dump = json_load-json_dump; float_num = λ n. refl }) 300 350 Json.null
      (login ∷ []) empty_dedup none refl some_event

login-fields : key_fields runtime login ≡ [] ∷ codes "u1" ∷ codes "login" ∷ [] ∷ [] ∷ [] ∷ []
unfolding key_fields field_text lookup text_eq
login-fields = refl

logout-fields : key_fields runtime logout ≡ [] ∷ codes "u1" ∷ codes "logout" ∷ [] ∷ [] ∷ [] ∷ []
unfolding key_fields field_text lookup text_eq
logout-fields = refl

generate_event_hash-eq_iff_example :
    (generate_event_hash runtime login ≡ generate_event_hash runtime logout)
    ↔ (key_fields runtime login ≡ key_fields runtime logout)
generate_event_hash-eq_iff_example =
    generate_event_hash-eq_iff runtime login logout (rw login-fields (ground arith))
      (rw logout-fields (ground arith)) (λ e. e)

generate_event_hash_collides_example :
    generate_event_hash runtime (actor_action (codes "a|b") (codes "c"))
    ≡ generate_event_hash runtime (actor_action (codes "a") (codes "b|c"))
generate_event_hash_collides_example =
    generate_event_hash_collides runtime (codes "a") (codes "b") (codes "c") (λ s. refl)
