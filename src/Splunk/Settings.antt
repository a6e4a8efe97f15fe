-- ===== src/Splunk/Settings.antt =====
-- crusoe-splunk-hec/config.py: the settings from the environment, and when they are accepted. The
-- environment is what `os.environ` holds behind `load_dotenv`. A count below zero is not modelled.
use solutions_library.Prelude.{
  ℕ, ◌≡◌, ◌↔◌, refl, sym, ap, subst, ◌∙◌, Bool, true, Option, none, some, [], ◌∷◌, is_nil, not,
  ◌&&◌, ◌||◌, arith,
}
use solutions_library.Prelude.Text.{Text, codes, text_eq}
use solutions_library.Prelude.Dict.{Dict, lookup}
use solutions_library.Splunk.Client.{CrusoeConfig, is_set}
use solutions_library.Splunk.Hec.{SplunkConfig}
use solutions_library.Splunk.Daemon.{AppConfig, validate_config}

-- `int` of a text, where `none` is the `ValueError`, and `str.lower`.
pub record Parser : Type 0 where
  pub int_of : Text → Option ℕ
  pub lower : Text → Text

-- `os.getenv(name, default)`
unfoldable pub getenv : Dict Text → Text → Text → Text
getenv env name default = elim (lookup name env) [ none ↦ default | some v ↦ v ]

unfoldable pub crusoe_from_env : Dict Text → CrusoeConfig
crusoe_from_env env = record {
  api_token = lookup (codes "CRUSOE_API_TOKEN") env;
  access_key_id = lookup (codes "CRUSOE_ACCESS_KEY_ID") env;
  secret_access_key = lookup (codes "CRUSOE_SECRET_ACCESS_KEY") env;
  base_url = getenv env (codes "CRUSOE_BASE_URL") (codes "https://api.crusoecloud.com/v1alpha5");
  organization_id = getenv env (codes "CRUSOE_ORG_ID") [];
  region = getenv env (codes "CRUSOE_REGION") (codes "us-east-1");
}

unfoldable pub splunk_from_env : Parser → Dict Text → SplunkConfig
splunk_from_env p env = record {
  hec_token = getenv env (codes "SPLUNK_HEC_TOKEN") [];
  hec_url = getenv env (codes "SPLUNK_HEC_URL") [];
  index = lookup (codes "SPLUNK_INDEX") env;
  sourcetype = getenv env (codes "SPLUNK_SOURCETYPE") (codes "crusoe:audit");
  source = getenv env (codes "SPLUNK_SOURCE") (codes "crusoe_api");
  verify_ssl =
      text_eq (p.lower (getenv env (codes "SPLUNK_VERIFY_SSL") (codes "true"))) (codes "true");
}

unfoldable pub count_from_env : Parser → Dict Text → Text → Text → Option ℕ
count_from_env p env name default = p.int_of (getenv env name default)

-- `AppConfig.from_env`; `none` is the `ValueError` of a count.
unfoldable pub from_env : Parser → Dict Text → Option AppConfig
from_env p env = elim (count_from_env p env (codes "BATCH_SIZE") (codes "100")) [
  | none ↦ none
  | some b ↦ elim (count_from_env p env (codes "REQUEST_TIMEOUT") (codes "30")) [
    | none ↦ none
    | some t ↦ elim (count_from_env p env (codes "MAX_RETRIES") (codes "3")) [
      | none ↦ none
      | some r ↦ some (record {
        crusoe = crusoe_from_env env;
        splunk = splunk_from_env p env;
        batch_size = b;
        timeout = t;
        max_retries = r;
      })
    ]
  ]
]

-- The variable stands in the environment with a text that is not empty.
abbrev pub has_value : Dict Text → Text → Bool
has_value env name = is_set (lookup name env)

not-is_nil-default :
    (v : Option Text) → not (is_nil (elim v as (λ o. Text) [ none ↦ [] | some t ↦ t ])) ≡ is_set v
not-is_nil-default none = refl
not-is_nil-default (some []) = refl
not-is_nil-default (some (x ∷ s)) = refl

not-is_nil-getenv :
    (env : Dict Text) (name : Text) → not (is_nil (getenv env name [])) ≡ has_value env name
unfolding getenv
not-is_nil-getenv env name = not-is_nil-default (lookup name env)

-- What has to be present, as a test on the settings.
abbrev is_complete : CrusoeConfig → SplunkConfig → Bool
is_complete c s =
    (is_set c.api_token || (is_set c.access_key_id && is_set c.secret_access_key))
    && (not (is_nil c.organization_id) && (not (is_nil s.hec_token) && not (is_nil s.hec_url)))

validate_config_iff :
    (c : AppConfig) → (validate_config c ≡ none) ↔ (is_complete c.crusoe c.splunk ≡ true)
unfolding validate_config
validate_config_iff c = ground arith

from_env-parts :
    (p : Parser) (env : Dict Text) (c : AppConfig)
    → from_env p env ≡ some c
    → (crusoe_from_env env ≡ c.crusoe) × (splunk_from_env p env ≡ c.splunk)
unfolding from_env
from_env-parts p env c e = ground arith

-- A token or both keys of the API, the organization, and the collector's token and address.
abbrev pub is_complete_env : Dict Text → Bool
is_complete_env env =
    (has_value env (codes "CRUSOE_API_TOKEN")
      || (has_value env (codes "CRUSOE_ACCESS_KEY_ID")
          && has_value env (codes "CRUSOE_SECRET_ACCESS_KEY")))
    && (has_value env (codes "CRUSOE_ORG_ID")
        && (has_value env (codes "SPLUNK_HEC_TOKEN") && has_value env (codes "SPLUNK_HEC_URL")))

is_complete-from_env :
    (p : Parser) (env : Dict Text)
    → is_complete (crusoe_from_env env) (splunk_from_env p env) ≡ is_complete_env env
unfolding crusoe_from_env splunk_from_env
is_complete-from_env p env = rw (not-is_nil-getenv env (codes "CRUSOE_ORG_ID")) (
    rw (not-is_nil-getenv env (codes "SPLUNK_HEC_TOKEN"))
      (rw (not-is_nil-getenv env (codes "SPLUNK_HEC_URL")) refl))

-- The settings that were read from the environment are accepted exactly when it has a value that is
-- not empty for the token or both keys of the API, for the organization, and for the collector's
-- token and its address.
pub validate_config-from_env :
    (p : Parser) (env : Dict Text) (c : AppConfig)
    → from_env p env ≡ some c
    → (validate_config c ≡ none) ↔ (is_complete_env env ≡ true)
validate_config-from_env p env c e =
    let (crusoe, splunk) = from_env-parts p env c e in
    let complete : is_complete c.crusoe c.splunk ≡ is_complete_env env =
      ap (λ k. is_complete k c.splunk) (sym crusoe)
      ∙ (ap (λ k. is_complete (crusoe_from_env env) k) (sym splunk) ∙ is_complete-from_env p env) in
    subst (λ b. (validate_config c ≡ none) ↔ (b ≡ true)) complete (validate_config_iff c)
