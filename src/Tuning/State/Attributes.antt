-- ===== src/Tuning/State/Attributes.antt =====
-- config.py: the attributes of a `Config`, behind the loop over a saved state.
use solutions_library.Prelude.{
  ◌≡◌, refl, inl, inr, true, none, [], ◌∷◌, if◌then◌else◌, not, ◌&&◌, Bool-cases, arith,
}
use solutions_library.Prelude.Text.{Text, text_eq, text_eq_iff}
use solutions_library.Prelude.Dict.{Dict, lookup, contains, insert, lookup-insert, HasUniqueKeys}
use solutions_library.Prelude.Json.{Json, null}
use solutions_library.Tuning.Swagger.{is_none, get}
use solutions_library.Tuning.State.{Config, set_all}

-- A saved value, where there is one, and the default elsewhere.
abbrev pub or_default : Json → Json → Json
or_default v d = if is_none v then d else v

pub contains-insert :
    (k j : Text) (v : Json) (c : Config) → contains j c ≡ true → contains j (insert k v c) ≡ true
contains-insert k j v c h = ground (arith, lookup-insert k j v c)

pub get-insert :
    (k j : Text) (v : Json) (c : Config)
    → get j (insert k v c) ≡ (if text_eq k j then v else get j c)
unfolding get
get-insert k j v c = ground (arith, lookup-insert k j v c)

get-nil : (j : Text) → get j [] ≡ null
unfolding get lookup
get-nil j = refl

pub get-cons :
    (k j : Text) (v : Json) (d : Dict Json)
    → get j ((k, v) ∷ d) ≡ (if text_eq k j then v else get j d)
unfolding get lookup
get-cons k j v d = ground arith

get_missing : (k j : Text) (d : Dict Json) → lookup k d ≡ none → text_eq k j ≡ true → get j d ≡ null
unfolding get
get_missing k j d h e = ground (arith, text_eq_iff k j)

same_key :
    (k j : Text) (c : Config) → contains j c ≡ true → text_eq k j ≡ true → contains k c ≡ true
same_key k j c h e = ground (arith, text_eq_iff k j)

-- The attributes behind the loop over a saved state.
pub get-set_all :
    (state c : Dict Json) (j : Text)
    → HasUniqueKeys state
    → contains j c ≡ true
    → get j (set_all state c) ≡ or_default (get j state) (get j c)
unfolding set_all
get-set_all [] c j unique has = ground (arith, get-nil j)
get-set_all ((k, v) ∷ state) c j unique has = elim (Bool-cases (contains k c && not (is_none v))) [
  | inl e ↦
      let rest = get-set_all state (insert k v c) j unique.1 (contains-insert k j v c has) in
      rw e (
        ground
          (arith, rest, get-insert k j v c, get-cons k j v state, get_missing k j state unique.0))
  | inr e ↦
      let rest = get-set_all state c j unique.1 has in
      rw e (
        ground
          (arith, rest, get-cons k j v state, get_missing k j state unique.0, same_key k j c has))
]
