-- ===== src/Tests/Splunk/Settings.antt =====
-- The theorem on config.py at a concrete environment, with numbers written in unary.
use solutions_library.Prelude.{◌≡◌, ◌↔◌, refl, true, false, none, some, [], ◌∷◌, length}
use solutions_library.Prelude.Text.{Text, codes, text_eq}
use solutions_library.Prelude.Dict.{Dict, lookup}
use solutions_library.Splunk.Daemon.{AppConfig, validate_config}
use solutions_library.Splunk.Settings.{
  Parser, from_env, crusoe_from_env, splunk_from_env, count_from_env, getenv, is_complete_env,
  validate_config-from_env,
}

abbrev pub parser : Parser
parser = record { int_of = λ s. some (length s); lower = λ s. s }

abbrev pub env : Dict Text
env =
    (codes "CRUSOE_API_TOKEN", codes "t")
    ∷ (codes "CRUSOE_ORG_ID", codes "o")
    ∷ (codes "SPLUNK_HEC_TOKEN", codes "h")
    ∷ (codes "SPLUNK_HEC_URL", codes "u")
    ∷ (codes "SPLUNK_VERIFY_SSL", codes "no")
    ∷ []

abbrev pub config : AppConfig
config = record {
  crusoe = record {
    api_token = some (codes "t");
    access_key_id = none;
    secret_access_key = none;
    base_url = codes "https://api.crusoecloud.com/v1alpha5";
    organization_id = codes "o";
    region = codes "us-east-1";
  };
  splunk = record {
    hec_token = codes "h";
    hec_url = codes "u";
    index = none;
    sourcetype = codes "crusoe:audit";
    source = codes "crusoe_api";
    verify_ssl = false;
  };
  batch_size = 3;
  timeout = 2;
  max_retries = 1;
}

pub read_env : from_env parser env ≡ some config
unfolding from_env crusoe_from_env splunk_from_env count_from_env getenv lookup text_eq
read_env = refl

validate_config-from_env_example : (validate_config config ≡ none) ↔ (is_complete_env env ≡ true)
validate_config-from_env_example = validate_config-from_env parser env config read_env
