-- ===== src/Splunk/Client/Signature.antt =====
-- The requests of crusoe_client.py: the key's padding, the path that is signed, and the pages that
-- a client with a token gets.
use solutions_library.Prelude.{
  ℕ, ◌+◌, ◌-◌, ◌%◌, ◌≤◌, ◌<◌, ◌≡◌, refl, ap, sym, ◌∙◌, true, Option, none, some, List, [], ◌∷◌,
  ◌++◌, if◌then◌else◌, is_nil, length, take, drop, replicate, arith, length-append,
  length-replicate, ==_iff,
}
use mathlib.Core.List.{append_assoc}
use solutions_library.Prelude.Text.{Text, codes}
use solutions_library.Prelude.Dict.{Dict}
use solutions_library.Prelude.Json.{Json}
use solutions_library.Splunk.Dedup.{Event}
use solutions_library.Splunk.Client.{
  CrusoeConfig, Api, page, done, is_set, starts_with, http_path_of, pad_base64, sorted_params,
  signature_payload, sign_request, query_params, logs_url, get_audit_logs, items_of,
  get_audit_logs_paginated,
}
use solutions_library.Splunk.Client.Paging.{page_loop-all}

-- The padded key has a length that base64 can decode, and at most three characters were added.
length-pad_base64 :
    (s : Text)
    → (length (pad_base64 s) % 4 ≡ 0)
      × (length s ≤ length (pad_base64 s))
      × (length (pad_base64 s) ≤ length s + 3)
unfolding pad_base64
length-pad_base64 s =
    let n = (4 - length s % 4) % 4 in
    let e : length (pad_base64 s) ≡ length s + n =
      length-append s (replicate n b'=') ∙ ap (λ k. length s + k) (length-replicate n b'=') in
    (omega (arith, e), omega (arith, e), omega (arith, e))

starts_with-append-drop : (p s : Text) → starts_with p s ≡ true → p ++ drop (length p) s ≡ s
unfolding starts_with
starts_with-append-drop [] s h = refl
starts_with-append-drop (c ∷ p) [] h = cc
starts_with-append-drop (c ∷ p) (x ∷ s) h = ground (arith, ==_iff c x, starts_with-append-drop p s)

module _ (api : Api) (config : CrusoeConfig) where
  -- For a URL below the API's version the signed text begins with the whole path of the URL, and a
  -- line break.
  signature_payload-path :
      (method url : Text) (params : Dict Json) (timestamp : Text)
      → starts_with (codes "/v1alpha5/") (api.path_of url) ≡ true
      → (rest : Text) × (signature_payload api config method url params timestamp
          ≡ api.path_of url ++ (b'\n' ∷ rest))
  unfolding signature_payload http_path_of
  signature_payload-path method url params timestamp below =
      let p = api.path_of url in
      let rest =
        (if is_nil params then [] else api.urlencode (sorted_params params))
        ++ (b'\n' ∷ (method ++ (b'\n' ∷ (timestamp ++ (b'\n' ∷ []))))) in
      (
        rest,
        rw below (
            sym (append_assoc (codes "/v1alpha5/") (drop 10 p) (b'\n' ∷ rest))
            ∙ ap (λ q. q ++ (b'\n' ∷ rest)) (starts_with-append-drop (codes "/v1alpha5/") p below)),
      )

  -- With a token, and an API that answers each request for a page, whatever its number and headers,
  -- with that page of the logs it holds, the paginated call returns all of them, in order.
  pub get_audit_logs_paginated-all :
      (clock : ℕ → Text) (fuel k : ℕ) (start_time end_time : Option ℕ) (page_size : ℕ)
      (held : List Event)
      → is_set config.api_token ≡ true
      → 0 < page_size
      → length held < fuel
      → ((j offset : ℕ) (headers : Dict Text)
          → api.fetch j
              (logs_url api config)
              (query_params api config start_time end_time (some page_size) (some offset))
              headers
            ≡ page (take page_size (drop offset held)))
      → get_audit_logs_paginated api config clock fuel k start_time end_time page_size none
        ≡ done held
  unfolding get_audit_logs_paginated get_audit_logs sign_request items_of
  get_audit_logs_paginated-all clock fuel k start_time end_time page_size held token positive enough
        answers =
      page_loop-all _ page_size positive held (λ j offset. rw token (rw (answers j offset _))) fuel
        k enough
