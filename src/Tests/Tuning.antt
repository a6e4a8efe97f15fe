-- ===== src/Tests/Tuning.antt =====
-- The theorems on crusoe-managed-finetuning-example at concrete inputs.
mod Run
use solutions_library.Prelude.{
  ℕ, ◌≡◌, refl, Bool, true, false, Option, none, some, List, [], ◌∷◌, All, arith, ◌==◌,
  if◌then◌else◌,
}
use solutions_library.Prelude.Text.{codes, text_eq}
use solutions_library.Prelude.Lines.{rstrip}
use solutions_library.Prelude.Dict.{lookup, contains}
use solutions_library.Prelude.Json.{Json, null, object, array, entries, elements, fields, items}
use solutions_library.Transfer.Shard.{lstrip}
use solutions_library.Tuning.Cache.{
  Codec, File, load, read_any, read_fresh, load-load, load_unfetched,
}
use solutions_library.Tuning.Swagger.{
  is_truthy, has_str, get, get_list, get_dict, or_json, get_schemas, resolved,
}
use solutions_library.Tuning.Schema
use solutions_library.Tuning.Schema.{Spec, Kind, parsed, parse_params}
use solutions_library.Tuning.Schema.Choices.{IsPromptable, parse_params-IsPromptable}
use solutions_library.Tuning.State.{Config, defaults, save, prompt_resume}
use solutions_library.Tuning.State.Attributes.{or_default}
use solutions_library.Tuning.State.Saved.{is_field}
use solutions_library.Tuning.State.Resumed.{carried_fields, prompt_resume-save}
use solutions_library.Tuning.Polls.{poll_until_value}
use solutions_library.Tuning.Polls.Outcome.{IsOutcome, poll_until_value-IsOutcome}
use solutions_library.Tests.Codec.{json_dump, json_load, json_load-json_dump}

abbrev pub codec : Codec
codec = record { loads = json_load; dumps = json_dump }

abbrev old : Option File
old = some (record { read_text = some (json_dump (Json.num 1)); st_mtime = 100 })

not_fresh : read_fresh codec 10 200 old ≡ none
unfolding read_fresh
not_fresh = refl

load-load_example :
    load codec 10 205 (load codec 10 200 old (some (Json.num 2))).file none ≡ record {
      file = (load codec 10 200 old (some (Json.num 2))).file;
      result = some (Json.num 2);
      fetched = false;
    }
load-load_example =
    load-load codec 10 200 205 old (Json.num 2) none json_load-json_dump (λ e. cc e) not_fresh
      (omega arith)

load_unfetched_example :
    ((load codec 10 200 old none).file ≡ old)
    × ((load codec 10 200 old none).result ≡ read_any codec old)
load_unfetched_example = load_unfetched codec 10 200 old

-- A description with one setting, a number of epochs from 1 to 50 or "auto", and one of two names.
abbrev swagger : Json
swagger = object (
    (
      codes "definitions",
      object (
          (
            codes "Tuning",
            object (
                (
                  codes "properties",
                  object (
                      (
                        codes "n_epochs",
                        object (
                            (
                              codes "anyOf",
                              array (
                                  object (
                                    (codes "type", Json.str (codes "integer"))
                                    ∷ (codes "minimum", Json.num 1)
                                    ∷ (codes "maximum", Json.num 50)
                                    ∷ [])
                                  ∷ object ((codes "const", Json.str (codes "auto")) ∷ [])
                                  ∷ []),
                            )
                            ∷ []),
                      )
                      ∷ (
                        codes "scheduler",
                        object (
                            (
                              codes "enum",
                              array (Json.str (codes "linear") ∷ Json.str (codes "cosine") ∷ []),
                            )
                            ∷ []),
                      )
                      ∷ []),
                )
                ∷ []),
          )
          ∷ []),
    )
    ∷ [])

abbrev is_space : ℕ → Bool
is_space c = c == b' '

abbrev pub specs : List Spec
specs =
    record {
      name = codes "n_epochs";
      default = null;
      kind = Kind.int_or_auto;
      help = codes "n_epochs";
      choices = none;
      min = Json.num 1;
      max = Json.num 50;
    }
    ∷ record {
      name = codes "scheduler";
      default = null;
      kind = Kind.one_of;
      help = codes "scheduler";
      choices = some (Json.str (codes "linear") ∷ Json.str (codes "cosine") ∷ []);
      min = null;
      max = null;
    }
    ∷ []

parsed_swagger : parse_params is_space swagger (codes "Tuning") ≡ some (parsed specs)
unfolding parse_params Schema.params_of Schema.specs_of Schema.property_to_spec Schema.spec_for
    Schema.add_spec Schema.spec_of Schema.help_of Schema.gather Schema.add_branches
    Schema.add_branch Schema.add_enum Schema.or_none Schema.add_types Schema.kind_for get_schemas
    get get_list get_dict or_json is_truthy has_str resolved lookup text_eq entries fields elements
    items rstrip lstrip
parsed_swagger = refl

parse_params-IsPromptable_example : All IsPromptable specs
parse_params-IsPromptable_example =
    parse_params-IsPromptable is_space swagger (codes "Tuning") specs parsed_swagger

abbrev run : Config
run = (codes "model_id", Json.str (codes "llama")) ∷ (codes "job_id", Json.str (codes "job")) ∷ []

has_model : is_field (codes "model_id") carried_fields ≡ true
unfolding text_eq
has_model = refl

new_has_model : contains (codes "model_id") (defaults (codes "key")) ≡ true
unfolding lookup text_eq
new_has_model = refl

prompt_resume-save_example :
    (r : Config) × (prompt_resume codec none true
        (codes "t1")
        (defaults (codes "key"))
        (some (save codec (codes "t0") run))
      ≡ some (r, some (save codec (codes "t0") run)))
    × (get (codes "resuming") r ≡ Json.bool true)
    × (get (codes "model_id") r
        ≡ or_default (get (codes "model_id") run) (get (codes "model_id") (defaults (codes "key"))))
prompt_resume-save_example =
    prompt_resume-save codec run (defaults (codes "key")) none (codes "t0") (codes "t1")
      (codes "model_id") json_load-json_dump has_model new_has_model

abbrev third : ℕ → Json
third k = if k == 2 then Json.str (codes "adapter") else null

poll_until_value-IsOutcome_example : IsOutcome third 120 5 (poll_until_value third 120 5 120)
poll_until_value-IsOutcome_example = poll_until_value-IsOutcome third 120 4
