-- ===== src/Tuning/Swagger.antt =====
-- schema.py: Python's values as it reads them from the description of the service, and the
-- references in it. `none` stands for an exception of Python, where the description has not the
-- form of such a document.
use solutions_library.Prelude.{
  Bool, true, false, Option, none, some, List, [], ◌∷◌, ◌==◌, if◌then◌else◌, not, ◌||◌, is_nil,
}
use solutions_library.Prelude.Text.{Text, codes, text_eq, split_first}
use solutions_library.Prelude.Dict.{Dict, lookup}
use solutions_library.Prelude.Json.{Json, null, entries, elements}
use solutions_library.Prelude.Options.{◌>>=◌}
use solutions_library.Transfer.Shard.{lstrip}

-- `bool(v)`
unfoldable pub is_truthy : Json → Bool
is_truthy null = false
is_truthy (Json.bool b) = b
is_truthy (Json.num n) = not (n == 0)
is_truthy (Json.str s) = not (is_nil s)
is_truthy (Json.arr xs) = not (is_nil (elements xs))
is_truthy (Json.obj fs) = not (is_nil (entries fs))

abbrev pub as_dict : Json → Option (Dict Json)
as_dict (Json.obj fs) = some (entries fs)
as_dict _ = none

abbrev pub as_list : Json → Option (List Json)
as_list (Json.arr xs) = some (elements xs)
as_list _ = none

abbrev pub as_text : Json → Option Text
as_text (Json.str s) = some s
as_text _ = none

-- `v == s` for a text
abbrev pub is_str : Text → Json → Bool
is_str s (Json.str t) = text_eq t s
is_str s _ = false

-- `v is None`
abbrev pub is_none : Json → Bool
is_none null = true
is_none _ = false

-- `s in xs`
unfoldable pub has_str : Text → List Json → Bool
has_str s [] = false
has_str s (v ∷ vs) = let rest = has_str s vs in is_str s v || rest

-- `d.get(k)`, where a missing value and `None` are one.
unfoldable pub get : Text → Dict Json → Json
get k d = elim (lookup k d) [ none ↦ null | some v ↦ v ]

-- `d.get(k, [])` and `d.get(k, {})`
unfoldable pub get_list : Text → Dict Json → Option (List Json)
get_list k d = elim (lookup k d) [ none ↦ some [] | some v ↦ as_list v ]

unfoldable pub get_dict : Text → Dict Json → Option (Dict Json)
get_dict k d = elim (lookup k d) [ none ↦ some [] | some v ↦ as_dict v ]

-- `a or b`
unfoldable pub or_json : Json → Json → Json
or_json a b = if is_truthy a then a else b

unfoldable pub get_schemas : Dict Json → Option (Dict Json)
get_schemas swagger = do
  components ← get_dict (codes "components") swagger
  let schemas = or_json (get (codes "schemas") components) (get (codes "definitions") swagger)
  if is_truthy schemas then as_dict schemas else some []

-- The walk along the parts of a reference.
unfoldable pub walk : Json → List Text → Option Json
walk node [] = some node
walk node (part ∷ parts) = do d ← as_dict node; next ← lookup part d; walk next parts

unfoldable pub resolve_ref : Json → Text → Option (Dict Json)
resolve_ref swagger ref = do
  let (part, parts) = split_first b'/' (lstrip (λ c. (c == b'#') || (c == b'/')) ref)
  node ← walk swagger (part ∷ parts)
  as_dict node

-- A property or a branch of it, with a reference resolved.
unfoldable pub resolved : Json → Dict Json → Option (Dict Json)
resolved swagger d = elim (lookup (codes "$ref") d) [
  | none ↦ some d
  | some v ↦ (do ref ← as_text v; resolve_ref swagger ref)
]
