-- ===== src/Splunk/Client.antt =====
-- crusoe-splunk-hec/crusoe_client.py, class `CrusoeClient`, and config.py, class `CrusoeConfig`.
-- A request is numbered, and the function `fetch` says how the API, behind the session's retries,
-- answers each. Logging and the pause between pages are left out.
pub mod Paging
pub mod Signature
use solutions_library.Prelude.{
  ℕ, zero, suc, ◌+◌, ◌-◌, ◌%◌, Bool, true, false, Option, none, some, List, [], ◌∷◌, ◌++◌, ltb, leb,
  ◌==◌, ◌&&◌, ◌||◌, if◌then◌else◌, length, drop, is_nil, replicate, String,
}
use solutions_library.Prelude.Text.{Text, codes, text_eq, join}
use solutions_library.Prelude.Dict.{Dict}
use solutions_library.Prelude.Json.{Json}
use solutions_library.Prelude.Sort.{sorted}
use solutions_library.Splunk.Dedup.{Event}

pub record CrusoeConfig : Type 0 where
  pub api_token : Option Text
  pub access_key_id : Option Text
  pub secret_access_key : Option Text
  pub base_url : Text
  pub organization_id : Text
  pub region : Text

-- A request that raised `RequestException`; a body that is no object, so that `data.get` raises;
-- or the list under `items`, empty where the key is missing.
pub data Reply : Type 0 where
  request_exception : Reply
  not_an_object : Reply
  page : List Event → Reply

-- The API and the standard library: the path of a URL, the query string of a list of parameters,
-- base64 (`none` where decoding raises) and HMAC-SHA-256 over bytes, and the ISO text of a time.
pub record Api : Type 0 where
  pub path_of : Text → Text
  pub urlencode : Dict Json → Text
  pub b64decode : Text → Option Text
  pub b64encode : Text → Text
  pub hmac_sha256 : Text → Text → Text
  pub isoformat : ℕ → Text
  pub fetch : ℕ → Text → Dict Json → Dict Text → Reply

-- What a method does that may raise: `api_error` is `CrusoeAPIError`.
pub data Result {ℓ} (A : Type ℓ) : Type ℓ where
  ok : A → Result A
  api_error : Result A
  other_error : Result A

infixl 5 ◌>>=◌
abbrev pub ◌>>=◌ {ℓ κ} : {A : Type ℓ} {B : Type κ} → Result A → (A → Result B) → Result B
ok a >>= f = f a
api_error >>= f = api_error
other_error >>= f = other_error

-- `if s:` for an optional text.
abbrev pub is_set : Option Text → Bool
is_set none = false
is_set (some []) = false
is_set (some (x ∷ s)) = true

abbrev pub text_or_empty : Option Text → Text
text_or_empty none = []
text_or_empty (some s) = s

unfoldable pub starts_with : Text → Text → Bool
starts_with [] s = true
starts_with (c ∷ p) [] = false
starts_with (c ∷ p) (x ∷ s) = (c == x) && starts_with p s

-- The order of texts by code points.
unfoldable pub text_le : Text → Text → Bool
text_le [] t = true
text_le (a ∷ s) [] = false
text_le (a ∷ s) (b ∷ t) = ltb a b || ((a == b) && text_le s t)

-- `sorted(params.items())`: the keys of a dict are distinct, so values are never compared.
unfoldable pub sorted_params : Dict Json → Dict Json
sorted_params = sorted (λ p q. text_le p.0 q.0)

-- `full_path[10:]` behind the version prefix, which has ten characters.
unfoldable pub http_path_of : Text → Text
http_path_of full_path =
    if starts_with (codes "/v1alpha5/") full_path then drop 10 full_path else full_path

-- `payload.encode('ascii')` does not raise.
unfoldable pub is_ascii : Text → Bool
is_ascii [] = true
is_ascii (c ∷ s) = ltb c 128 && is_ascii s

-- `s.rstrip("=")`
unfoldable pub rstrip_eq : Text → Text
rstrip_eq [] = []
rstrip_eq (c ∷ s) = let rest = rstrip_eq s in if (c == b'=') && is_nil rest then [] else c ∷ rest

-- `s + '=' * (-len(s) % 4)`
unfoldable pub pad_base64 : Text → Text
pad_base64 s = s ++ replicate ((4 - length s % 4) % 4) b'='

module _ (api : Api) (config : CrusoeConfig) where
  unfoldable pub signature_payload : Text → Text → Dict Json → Text → Text
  signature_payload method url params timestamp =
      codes "/v1alpha5/"
      ++ (http_path_of (api.path_of url)
          ++ (b'\n'
              ∷ ((if is_nil params then [] else api.urlencode (sorted_params params))
                  ++ (b'\n' ∷ (method ++ (b'\n' ∷ (timestamp ++ (b'\n' ∷ []))))))))

  unfoldable pub create_crusoe_signature : Text → Text → Dict Json → Text → Result (Dict Text)
  create_crusoe_signature method url params timestamp =
      elim (api.b64decode (pad_base64 (text_or_empty config.secret_access_key))) [
        | none ↦ api_error
        | some secret ↦
            let payload = signature_payload method url params timestamp in
            if is_ascii payload
            then (let signature = rstrip_eq (api.b64encode (api.hmac_sha256 secret payload)) in
                ok (
                  (codes "X-Crusoe-Timestamp", timestamp)
                  ∷ (
                    codes "Authorization",
                    codes "Bearer 1.0:"
                        ++ (text_or_empty config.access_key_id ++ (b':' ∷ signature)),
                  )
                  ∷ []))
            else other_error
      ]

  unfoldable pub sign_request : Text → Text → Dict Json → Text → Result (Dict Text)
  sign_request method url params timestamp =
      if is_set config.api_token
      then ok ((codes "Authorization", codes "Bearer " ++ text_or_empty config.api_token) ∷ [])
      else if is_set config.access_key_id && is_set config.secret_access_key
      then create_crusoe_signature method url params timestamp
      else ok []

  -- `if start_time: params["start_time"] = start_time.isoformat()`; a time is always true.
  unfoldable pub time_param : Text → Option ℕ → Dict Json
  time_param name none = []
  time_param name (some t) = (name, Json.str (api.isoformat t)) ∷ []

  -- `if limit: params["limit"] = limit`; zero is not sent.
  unfoldable pub count_param : Text → Option ℕ → Dict Json
  count_param name none = []
  count_param name (some zero) = []
  count_param name (some (suc n)) = (name, Json.num (suc n)) ∷ []

  unfoldable pub query_params : Option ℕ → Option ℕ → Option ℕ → Option ℕ → Dict Json
  query_params start_time end_time limit offset =
      time_param (codes "start_time") start_time
      ++ (time_param (codes "end_time") end_time
          ++ (count_param (codes "limit") limit ++ count_param (codes "offset") offset))

  unfoldable pub logs_url : Text
  logs_url =
      config.base_url
      ++ (codes "/organizations/" ++ (config.organization_id ++ codes "/audit-logs"))

  unfoldable pub items_of : Reply → Result (List Event)
  items_of request_exception = api_error
  items_of not_an_object = other_error
  items_of (page logs) = ok logs

  -- The k-th request; `timestamp` is the time of the call, as the signature has it.
  unfoldable pub get_audit_logs :
      ℕ → Text → Option ℕ → Option ℕ → Option ℕ → Option ℕ → Result (List Event)
  get_audit_logs k timestamp start_time end_time limit offset =
      let params = query_params start_time end_time limit offset in
      sign_request (codes "GET") logs_url params timestamp >>= λ auth_headers.
      items_of (api.fetch k logs_url params auth_headers)

  unfoldable pub health_check : ℕ → Text → Bool
  health_check k timestamp = elim (get_audit_logs k timestamp none none (some 1) none) [
    | ok logs ↦ true
    | _ ↦ false
  ]

-- How the loop over the pages ends. `no_fuel` is a bound of the model, not an end of the code.
pub data Paged : Type 0 where
  done : List Event → Paged
  raised : Paged
  no_fuel : Paged

-- `max_pages and page_count >= max_pages`
unfoldable pub limit_reached : Option ℕ → ℕ → Bool
limit_reached none page_count = false
limit_reached (some zero) page_count = false
limit_reached (some (suc m)) page_count = leb (suc m) page_count

-- The `while True` loop over a source of pages: `next k offset` is the call of `get_audit_logs`
-- that makes the k-th request. An exception other than `CrusoeAPIError` ends the loop like a last
-- page.
unfoldable pub page_loop :
    (ℕ → ℕ → Result (List Event)) → ℕ → Option ℕ → ℕ → ℕ → ℕ → ℕ → List Event → Paged
page_loop next page_size max_pages zero k offset page_count all_logs = no_fuel
page_loop next page_size max_pages (suc f) k offset page_count all_logs =
    elim (limit_reached max_pages page_count) [
      | true ↦ done all_logs
      | false ↦ elim (next k offset) [
        | api_error ↦ raised
        | other_error ↦ done all_logs
        | ok logs ↦ elim (is_nil logs) [
          | true ↦ done all_logs
          | false ↦ elim (ltb (length logs) page_size) [
            | true ↦ done (all_logs ++ logs)
            | false ↦
                page_loop next page_size max_pages f (k + 1) (offset + length logs) (page_count + 1)
                  (all_logs ++ logs)
          ]
        ]
      ]
    ]

module _ (api : Api) (config : CrusoeConfig) where
  -- `clock k` is the time of the k-th request, as text.
  unfoldable pub get_audit_logs_paginated :
      (ℕ → Text) → ℕ → ℕ → Option ℕ → Option ℕ → ℕ → Option ℕ → Paged
  get_audit_logs_paginated clock fuel k start_time end_time page_size max_pages =
      page_loop
        (λ j offset.
          get_audit_logs api config j (clock j) start_time end_time (some page_size) (some offset))
        page_size max_pages fuel k 0 0 []
