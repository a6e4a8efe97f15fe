-- ===== src/Tests/Splunk/Data.antt =====
-- Concrete events, services and settings for crusoe-splunk-hec.
use solutions_library.Prelude.{ℕ, true, Option, none, some, List, [], ◌∷◌, take, drop}
use solutions_library.Prelude.Text.{Text, codes}
use solutions_library.Prelude.Dict.{lookup}
use solutions_library.Prelude.Json.{Json, fields}
use solutions_library.Tests.Codec.{json_dump, json_load}
use solutions_library.Splunk.Dedup.{Event, EventDeduplicator, Runtime}
use solutions_library.Splunk.Dedup.Keys.{actor_action}
use solutions_library.Splunk.Hec
use solutions_library.Splunk.Hec.{Collector, SplunkConfig}
use solutions_library.Splunk.Client
use solutions_library.Splunk.Client.{Api, CrusoeConfig}

abbrev pub py_str : Json → Text
py_str (Json.str s) = s
py_str _ = []

abbrev pub py_float : Json → Option ℕ
py_float (Json.num n) = some n
py_float _ = none

-- The identity stands for a hash without collisions.
abbrev pub runtime : Runtime
runtime = record {
  py_str = py_str;
  py_float = py_float;
  sha256 = λ s. s;
  json_dump = json_dump;
  json_load = json_load;
}

abbrev pub login : Event
login = actor_action (codes "u1") (codes "login")

abbrev pub logout : Event
logout = actor_action (codes "u1") (codes "logout")

abbrev pub empty_dedup : EventDeduplicator
empty_dedup = record { tracking_window_seconds = 100; enabled = true; seen_events = [] }

-- The hash of `login`.
abbrev pub login_hash : Text
login_hash = codes "|u1|login|||"

abbrev pub dedup : EventDeduplicator
dedup = record empty_dedup { seen_events = (login_hash, 50) ∷ [] }

abbrev pub splunk_config : SplunkConfig
splunk_config = record {
  hec_token = codes "t";
  hec_url = codes "u";
  index = none;
  sourcetype = codes "crusoe:audit";
  source = codes "crusoe_api";
  verify_ssl = true;
}

-- The body of a success, and a collector that accepts every request and one that refuses them.
abbrev pub success : Json
success = Json.obj (fields ((codes "text", Json.str (codes "Success")) ∷ []))

abbrev pub collector : Collector
collector = record {
  fromisoformat = λ s. none;
  json_dump = json_dump;
  post = λ k payload. Hec.body success;
}

abbrev pub broken_collector : Collector
broken_collector = record collector { post = λ k payload. Hec.request_exception }

abbrev pub crusoe_config : CrusoeConfig
crusoe_config = record {
  api_token = some (codes "token");
  access_key_id = none;
  secret_access_key = none;
  base_url = codes "https://api.crusoecloud.com/v1alpha5";
  organization_id = codes "org";
  region = codes "us-east-1";
}

abbrev pub number_of : Option Json → ℕ
number_of (some (Json.num n)) = n
number_of _ = 0

-- An API that holds three logs.
abbrev pub held : List Event
held = login ∷ logout ∷ login ∷ []

abbrev pub api : Api
api = record {
  path_of = λ url. codes "/v1alpha5/organizations/org/audit-logs";
  urlencode = λ params. [];
  b64decode = λ s. some s;
  b64encode = λ s. s;
  hmac_sha256 = λ key text. text;
  isoformat = λ t. [];
  fetch = λ k url params headers. Client.page (
      take (number_of (lookup (codes "limit") params))
        (drop (number_of (lookup (codes "offset") params)) held));
}
