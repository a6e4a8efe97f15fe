-- ===== src/Tuning/Catalog.antt =====
-- schema.py: the settings by way of the memo and of the cache on disk.
use solutions_library.Prelude.{ℕ, ◌*◌, Bool, Option, none, some, List}
use solutions_library.Prelude.Text.{Text, codes}
use solutions_library.Prelude.Dict.{Dict, lookup, insert}
use solutions_library.Prelude.Json.{Json}
use solutions_library.Tuning.Cache.{Codec, File, Loaded, load}
use solutions_library.Tuning.Schema.{Spec, Parsed, aborted, parsed, parse_params}

-- The memo and the file behind a call, and what it gives; `none` is an exception or the call of
-- `abort`.
pub record Catalog : Type 0 where
  pub memo : Dict (List Spec)
  pub file : Option File
  pub specs : Option (List Spec)

abbrev pub swagger_cache_ttl_seconds : ℕ
swagger_cache_ttl_seconds = 24 * 60 * 60

module _ (is_space : ℕ → Bool) (path : Text) (memo : Dict (List Spec)) where
  unfoldable pub memoized : Option File → Option Parsed → Catalog
  memoized file none = record { memo = memo; file = file; specs = none }
  memoized file (some aborted) = record { memo = memo; file = file; specs = none }
  memoized file (some (parsed specs)) = record {
    memo = insert path specs memo;
    file = file;
    specs = some specs;
  }

  -- The settings in the description that the cache gave.
  unfoldable pub catalog_of : Option File → Option Json → Catalog
  catalog_of file none = record { memo = memo; file = file; specs = none }
  catalog_of file (some swagger) =
      memoized file (parse_params is_space swagger (codes "FineTuneSupervisedHyperparameters"))

  unfoldable pub catalog_from : Option (List Spec) → Loaded → Option File → Catalog
  catalog_from (some specs) loaded file = record { memo = memo; file = file; specs = some specs }
  catalog_from none loaded file = catalog_of loaded.file loaded.result

  unfoldable pub load_supervised_hyperparams : Codec → ℕ → Option File → Option Json → Catalog
  load_supervised_hyperparams codec now file fetch =
      catalog_from (lookup path memo) (load codec swagger_cache_ttl_seconds now file fetch) file
