-- ===== src/Splunk/Dedup/Keys.antt =====
-- What the hash of deduplicator.py tells apart.
use mathlib.Core.Path.{ap₂}
use mathlib.Core.List.{append_assoc}
use solutions_library.Prelude.{◌≡◌, ◌↔◌, List, [], ◌∷◌, ◌++◌, ap, sym, ◌∙◌, All}
use solutions_library.Prelude.Text.{Text, codes, join, IsFreeOf, text_eq, join-injective}
use solutions_library.Prelude.Dict.{lookup}
use solutions_library.Prelude.Json
use solutions_library.Splunk.Dedup.{Event, Runtime, field_text, key_fields, generate_event_hash}

-- An event by the texts of its actor and its action.
abbrev pub actor_action : Text → Text → Event
actor_action actor action =
    (codes "actor_id", Json.str actor) ∷ (codes "action", Json.str action) ∷ []

join_regroup :
    (a b c : Text)
    → join (codes "|") ([] ∷ (a ++ (b'|' ∷ b)) ∷ c ∷ [] ∷ [] ∷ [] ∷ [])
      ≡ join (codes "|") ([] ∷ a ∷ (b ++ (b'|' ∷ c)) ∷ [] ∷ [] ∷ [] ∷ [])
unfolding join
join_regroup a b c = simp append_assoc

module _ (rt : Runtime) where
  -- Two events whose six key fields have no vertical bar, and whose joined fields SHA-256 tells
  -- apart if they differ, have one hash exactly when their key fields agree.
  pub generate_event_hash-eq_iff :
      (e f : Event)
      → All (IsFreeOf b'|') (key_fields rt e)
      → All (IsFreeOf b'|') (key_fields rt f)
      → (rt.sha256 (join (codes "|") (key_fields rt e))
            ≡ rt.sha256 (join (codes "|") (key_fields rt f))
          → join (codes "|") (key_fields rt e) ≡ join (codes "|") (key_fields rt f))
      → (generate_event_hash rt e ≡ generate_event_hash rt f) ↔ (key_fields rt e ≡ key_fields rt f)
  unfolding generate_event_hash
  generate_event_hash-eq_iff e f he hf apart = (
    λ same. unfold key_fields in join-injective b'|' _ _ _ _ he hf (apart same),
    λ same. ap (λ k. rt.sha256 (join (codes "|") k)) same,
  )

  key_fields-actor_action :
      ((s : Text) → rt.py_str (Json.str s) ≡ s)
      → (x y : Text) → key_fields rt (actor_action x y) ≡ [] ∷ x ∷ y ∷ [] ∷ [] ∷ [] ∷ []
  unfolding key_fields field_text lookup text_eq
  key_fields-actor_action textual x y =
      ap₂ {C = List Text} (λ s t. [] ∷ s ∷ t ∷ [] ∷ [] ∷ [] ∷ []) (textual x) (textual y)

  -- A bar inside a field is not told from the bars between fields: when `str` of a text is that
  -- text, the event with actor `a|b` and action `c` and the event with actor `a` and action `b`,
  -- then a bar, `c`, have one hash.
  pub generate_event_hash_collides :
      (a b c : Text)
      → ((s : Text) → rt.py_str (Json.str s) ≡ s)
      → generate_event_hash rt (actor_action (a ++ (b'|' ∷ b)) c)
        ≡ generate_event_hash rt (actor_action a (b ++ (b'|' ∷ c)))
  unfolding generate_event_hash
  generate_event_hash_collides a b c textual = ap rt.sha256 (
      ap (join (codes "|")) (key_fields-actor_action textual (a ++ (b'|' ∷ b)) c)
      ∙ join_regroup a b c
      ∙ sym (ap (join (codes "|")) (key_fields-actor_action textual a (b ++ (b'|' ∷ c)))))
