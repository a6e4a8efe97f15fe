-- ===== src/Tuning/Schema/Choices.antt =====
-- schema.py: which settings come with a choice of values.
use solutions_library.Prelude.{
  ℕ, ◌≡◌, refl, subst, Bool, Option, none, some, List, [], ◌∷◌, All, arith,
}
use mathlib.Core.Option.{some-injective}
use solutions_library.Prelude.Text.{Text, codes}
use solutions_library.Prelude.Dict.{Dict}
use solutions_library.Prelude.Json.{Json}
use solutions_library.Prelude.Options.{>>=-eq-some}
use solutions_library.Tuning.Swagger.{as_dict, get, get_dict, get_schemas, resolved}
use solutions_library.Tuning.Schema.{
  Gathered, Kind, kind_for, has_choices, keeps_choices, Spec, help_of, spec_of, spec_for, gather,
  property_to_spec, add_spec, specs_of, parsed, params_of, parse_params,
}

-- A setting has values to choose from exactly where its kind asks for them.
abbrev pub IsPromptable : Spec → Type 0
IsPromptable s = keeps_choices s.kind ≡ has_choices s.choices

-- The choices are those of an enumeration that is not empty.
kind_for-keeps_choices :
    (types : List Json) (choices : Option (List Json)) (has_auto nullable : Bool) (kind : Kind)
    → kind_for types choices has_auto nullable ≡ some kind
    → keeps_choices kind ≡ has_choices choices
unfolding kind_for
kind_for-keeps_choices types choices has_auto nullable kind h = ground arith

spec_of-IsPromptable :
    (is_space : ℕ → Bool) (name : Text) (prop : Dict Json) (g : Gathered) (kind : Kind) (s : Spec)
    → keeps_choices kind ≡ has_choices g.enum
    → spec_of is_space name prop g kind ≡ some s
    → IsPromptable s
unfolding spec_of
spec_of-IsPromptable is_space name prop g kind s e h =
    let (help, given, built) =
      >>=-eq-some (help_of is_space name (get (codes "description") prop)) _ h in
    ground arith

spec_for-IsPromptable :
    (is_space : ℕ → Bool) (name : Text) (prop : Dict Json) (g : Gathered) (k : Option Kind)
    (o : Option Spec) (specs : List Spec)
    → kind_for g.types g.enum g.has_auto g.nullable ≡ k
    → spec_for is_space name prop g k ≡ some o
    → All IsPromptable specs
    → All IsPromptable (add_spec o specs)
unfolding spec_for add_spec
spec_for-IsPromptable is_space name prop g none o specs e h rest = ground arith
spec_for-IsPromptable is_space name prop g (some kind) o specs e h rest =
    let (s, made, kept) = >>=-eq-some (spec_of is_space name prop g kind) _ h in
    let good =
      spec_of-IsPromptable is_space name prop g kind s
        (kind_for-keeps_choices g.types g.enum g.has_auto g.nullable kind e) made in
    ground arith

property_to_spec-IsPromptable :
    (is_space : ℕ → Bool) (name : Text) (v swagger : Json) (o : Option Spec) (specs : List Spec)
    → property_to_spec is_space name v swagger ≡ some o
    → All IsPromptable specs
    → All IsPromptable (add_spec o specs)
unfolding property_to_spec
property_to_spec-IsPromptable is_space name v swagger o specs h rest =
    let (d, as_d, h₁) = >>=-eq-some (as_dict v) _ h in
    let (prop, as_prop, h₂) = >>=-eq-some (resolved swagger d) _ h₁ in
    let (g, as_g, h₃) = >>=-eq-some (gather swagger prop) _ h₂ in
    spec_for-IsPromptable is_space name prop g _ o specs refl h₃ rest

specs_of-IsPromptable :
    (is_space : ℕ → Bool) (swagger : Json) (properties : Dict Json) (specs : List Spec)
    → specs_of is_space swagger properties ≡ some specs
    → All IsPromptable specs
unfolding specs_of
specs_of-IsPromptable is_space swagger [] specs h = ground arith
specs_of-IsPromptable is_space swagger ((name, v) ∷ properties) specs h =
    let (o, made, h₁) = >>=-eq-some (property_to_spec is_space name v swagger) _ h in
    let (others, listed, h₂) = >>=-eq-some (specs_of is_space swagger properties) _ h₁ in
    let rest = specs_of-IsPromptable is_space swagger properties others listed in
    let good = property_to_spec-IsPromptable is_space name v swagger o others made rest in
    subst (All IsPromptable) (some-injective _ _ h₂) good

params_of-IsPromptable :
    (is_space : ℕ → Bool) (swagger : Json) (o : Option Json) (specs : List Spec)
    → params_of is_space swagger o ≡ some (parsed specs)
    → All IsPromptable specs
unfolding params_of
params_of-IsPromptable is_space swagger none specs h = absurd (ground arith)
params_of-IsPromptable is_space swagger (some v) specs h =
    let (schema, as_schema, h₁) = >>=-eq-some (as_dict v) _ h in
    let (properties, as_properties, h₂) = >>=-eq-some (get_dict (codes "properties") schema) _ h₁ in
    let (found, listed, h₃) = >>=-eq-some (specs_of is_space swagger properties) _ h₂ in
    let same : found ≡ specs = ground arith in
    subst (All IsPromptable) same (specs_of-IsPromptable is_space swagger properties found listed)

-- Where the parser gives settings, each of them has values to choose from exactly where its kind is
-- a choice: the menu of a choice is never empty, and no other kind carries values.
pub parse_params-IsPromptable :
    (is_space : ℕ → Bool) (swagger : Json) (schema_name : Text) (specs : List Spec)
    → parse_params is_space swagger schema_name ≡ some (parsed specs)
    → All IsPromptable specs
unfolding parse_params
parse_params-IsPromptable is_space swagger schema_name specs h =
    let (d, as_d, h₁) = >>=-eq-some (as_dict swagger) _ h in
    let (schemas, as_schemas, h₂) = >>=-eq-some (get_schemas d) _ h₁ in
    params_of-IsPromptable is_space swagger _ specs h₂
