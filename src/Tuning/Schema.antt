-- ===== src/Tuning/Schema.antt =====
-- crusoe-managed-finetuning-example/src/schema.py: the settings of a fine-tuning job, from the
-- description of the service in OpenAPI. `none` stands for an exception of Python, where the
-- description has not the form of such a document.
pub mod Choices
use solutions_library.Prelude.{
  ℕ, Bool, true, false, Option, none, some, List, [], ◌∷◌, ◌++◌, if◌then◌else◌, not, ◌&&◌, ◌||◌,
  is_nil,
}
use solutions_library.Prelude.Text.{Text, codes}
use solutions_library.Prelude.Lines.{rstrip}
use solutions_library.Prelude.Dict.{Dict, lookup}
use solutions_library.Prelude.Json.{Json, null, elements, fields}
use solutions_library.Prelude.Options.{◌>>=◌}
use solutions_library.Transfer.Shard.{lstrip}
use solutions_library.Tuning.Swagger.{
  is_truthy, as_dict, as_list, as_text, is_str, is_none, has_str, get, get_list, get_dict,
  get_schemas, resolved,
}

-- What the loop over the branches gathers; `null` is `None`.
pub record Gathered : Type 0 where
  pub types : List Json
  pub enum : Option (List Json)
  pub minimum : Json
  pub maximum : Json
  pub has_auto : Bool
  pub nullable : Bool

-- The loop over the types of a branch; the set of types is a list.
unfoldable pub add_types : List Json → Gathered → Gathered
add_types [] g = g
add_types (t ∷ ts) g = add_types ts (
    if is_str (codes "null") t
    then record g { nullable = true }
    else if is_none t
    then g
    else record g { types = t ∷ g.types })

abbrev pub types_of : Json → List Json
types_of (Json.arr ts) = elements ts
types_of t = t ∷ []

unfoldable pub or_none : Json → Json → Json
or_none null b = b
or_none a b = a

-- `enum` of a branch, where it has one.
unfoldable pub add_enum : Option Json → Gathered → Option Gathered
add_enum none g = some g
add_enum (some v) g = do
  enum ← as_list v
  some (record g { enum = some enum; has_auto = has_str (codes "auto") enum || g.has_auto })

-- One round of the loop over the branches.
unfoldable pub add_branch : Json → Json → Gathered → Option Gathered
add_branch swagger v g = do
  d ← as_dict v
  branch ← resolved swagger d
  g' ← add_enum (lookup (codes "enum") branch) (add_types (types_of (get (codes "type") branch)) g)
  some (record g' {
    has_auto = is_str (codes "auto") (get (codes "const") branch) || g'.has_auto;
    minimum = or_none g'.minimum (get (codes "minimum") branch);
    maximum = or_none g'.maximum (get (codes "maximum") branch);
  })

unfoldable pub add_branches : Json → List Json → Gathered → Option Gathered
add_branches swagger [] g = some g
add_branches swagger (v ∷ vs) g = do g' ← add_branch swagger v g; add_branches swagger vs g'

pub data Kind : Type 0 where
  one_of one_of_or_null int_or_auto float_or_auto int_or_null float_or_null : Kind

abbrev pub has_choices : Option (List Json) → Bool
has_choices none = false
has_choices (some cs) = not (is_nil cs)

unfoldable pub kind_for : List Json → Option (List Json) → Bool → Bool → Option Kind
kind_for types choices has_auto nullable =
    let is_int = has_str (codes "integer") types in
    let is_num = is_int || has_str (codes "number") types in
    if has_choices choices
    then some (if nullable then one_of_or_null else one_of)
    else if is_int && has_auto
    then some int_or_auto
    else if is_num && has_auto
    then some float_or_auto
    else if is_int && nullable
    then some int_or_null
    else if is_num && nullable
    then some float_or_null
    else none

pub record Spec : Type 0 where
  pub name : Text
  pub default : Json
  pub kind : Kind
  pub help : Text
  pub choices : Option (List Json)
  pub min : Json
  pub max : Json

abbrev pub keeps_choices : Kind → Bool
keeps_choices one_of = true
keeps_choices one_of_or_null = true
keeps_choices _ = false

-- `(description or "").strip() or name`
unfoldable pub help_of : (ℕ → Bool) → Text → Json → Option Text
help_of is_space name description = do
  given ← (if is_truthy description then as_text description else some [])
  let text = rstrip is_space (lstrip is_space given)
  some (if is_nil text then name else text)

unfoldable pub spec_of : (ℕ → Bool) → Text → Dict Json → Gathered → Kind → Option Spec
spec_of is_space name prop g kind = do
  help ← help_of is_space name (get (codes "description") prop)
  some (record {
    name = name;
    default = get (codes "default") prop;
    kind = kind;
    help = help;
    choices = if keeps_choices kind then g.enum else none;
    min = g.minimum;
    max = g.maximum;
  })

unfoldable pub gather : Json → Dict Json → Option Gathered
gather swagger prop = do
  any_of ← get_list (codes "anyOf") prop
  either ← get_list (codes "oneOf") prop
  add_branches swagger (Json.obj (fields prop) ∷ (any_of ++ either)) (record {
    types = [];
    enum = none;
    minimum = get (codes "minimum") prop;
    maximum = get (codes "maximum") prop;
    has_auto = false;
    nullable = is_truthy (get (codes "nullable") prop);
  })

-- The inner `none` is a property that is skipped.
unfoldable pub spec_for :
    (ℕ → Bool) → Text → Dict Json → Gathered → Option Kind → Option (Option Spec)
spec_for is_space name prop g none = some none
spec_for is_space name prop g (some kind) = do
  spec ← spec_of is_space name prop g kind
  some (some spec)

unfoldable pub property_to_spec : (ℕ → Bool) → Text → Json → Json → Option (Option Spec)
property_to_spec is_space name v swagger = do
  d ← as_dict v
  prop ← resolved swagger d
  g ← gather swagger prop
  spec_for is_space name prop g (kind_for g.types g.enum g.has_auto g.nullable)

unfoldable pub add_spec : Option Spec → List Spec → List Spec
add_spec none specs = specs
add_spec (some spec) specs = spec ∷ specs

unfoldable pub specs_of : (ℕ → Bool) → Json → Dict Json → Option (List Spec)
specs_of is_space swagger [] = some []
specs_of is_space swagger ((name, v) ∷ properties) = do
  spec ← property_to_spec is_space name v swagger
  specs ← specs_of is_space swagger properties
  some (add_spec spec specs)

-- The end of the parser: the call of `abort`, or the settings.
pub data Parsed : Type 0 where
  aborted : Parsed
  parsed : List Spec → Parsed

-- The settings of the schema that was looked up.
unfoldable pub params_of : (ℕ → Bool) → Json → Option Json → Option Parsed
params_of is_space swagger none = some aborted
params_of is_space swagger (some v) = do
  schema ← as_dict v
  properties ← get_dict (codes "properties") schema
  specs ← specs_of is_space swagger properties
  some (parsed specs)

unfoldable pub parse_params : (ℕ → Bool) → Json → Text → Option Parsed
parse_params is_space swagger schema_name = do
  d ← as_dict swagger
  schemas ← get_schemas d
  params_of is_space swagger (lookup schema_name schemas)
