-- ===== src/Tests/Transfer/Load.antt =====
-- The theorem on `load_config` at a concrete input, with numbers in unary.
use solutions_library.Prelude.{ℕ, ◌≡◌, refl, Option, none, some, List, [], ◌∷◌, ◌==◌, length}
use solutions_library.Prelude.Int.{pos}
use solutions_library.Prelude.Text.{Text, codes, text_eq}
use solutions_library.Prelude.Lines.{rstrip}
use solutions_library.Prelude.Dict.{Dict, lookup, insert}
use solutions_library.Transfer.Shard.{lstrip, partition}
use solutions_library.Transfer.Config.Sources.{
  Value, text, int, Reader, strip, before_comment, uncommented, starts_comment, add_line,
  load_dotenv, is_listed, env_map,
}
use solutions_library.Transfer.Config.Load.{
  as_int, as_float, coerce, set_given, set_raw, set_env, set_cli, override, merge, Flags, cli_map,
  load_config,
}
use solutions_library.Transfer.Config.Load.Precedence.{
  first_of, given, env_value, lookup-load_config,
}

abbrev reader : Reader ℕ
reader = record {
  int_of = λ t. some (pos (length t));
  float_of = λ t. some (length t);
  is_space = λ c. c == b' ';
}

abbrev lines : List Text
lines = codes "# settings" ∷ codes "NUM_NODES = 11" ∷ codes "OCI_REGION=us-x-1 # here" ∷ []

abbrev env : Dict Text
env = (codes "NUM_NODES", codes "111") ∷ (codes "HOME", codes "/root") ∷ []

abbrev flags : Flags ℕ
flags = record {
  target_gbps = none;
  num_nodes = none;
  pods_per_node = none;
  num_pods = none;
  bucket = some (text (codes "data"));
  prefix = none;
  namespace = none;
  region = none;
  rtt_ms = none;
  per_stream_mbps = none;
  transfers = none;
  multi_thread_streams = none;
  checkers = none;
  pvc_name = none;
  storage_class = none;
  import_disk_id = none;
  import_disk_name = none;
  import_disk_serial = none;
  dest_mode = none;
  nfs_server = none;
}

abbrev new : Dict (Value ℕ)
new = (codes "num_nodes", int (pos 1)) ∷ []

abbrev result : Dict (Value ℕ)
result =
    (codes "num_nodes", int (pos 3))
    ∷ (codes "region", text (codes "us-x-1"))
    ∷ (codes "bucket", text (codes "data"))
    ∷ []

loaded : load_config reader lines env flags new ≡ some result
unfolding load_config set_env set_raw coerce as_int as_float set_given set_cli override merge
    load_dotenv add_line strip before_comment uncommented starts_comment is_listed rstrip lstrip
    partition lookup insert text_eq
loaded = refl

known : lookup (codes "NUM_NODES") env_map ≡ some (codes "num_nodes")
unfolding lookup text_eq
known = refl

lookup-load_config_example :
    (v : Option (Value ℕ)) × (env_value reader
        (codes "num_nodes")
        (first_of
          (lookup (codes "NUM_NODES") env)
          (lookup (codes "NUM_NODES") (load_dotenv reader.is_space lines [])))
        (lookup (codes "num_nodes") new)
      ≡ some v)
    × (lookup (codes "num_nodes") result
        ≡ first_of (given (lookup (codes "num_nodes") (cli_map flags))) v)
lookup-load_config_example =
    lookup-load_config reader lines env flags new result (codes "NUM_NODES") (codes "num_nodes")
      known loaded
