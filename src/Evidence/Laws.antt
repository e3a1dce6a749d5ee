-- ===== src/Evidence/Laws.antt =====
-- What the evidence hides, and what is appended to its file.
use nighwatch.Common.{
  ℕ, String, true, Option, none, some, List, contains, ◌≡◌, ◌⊎◌, inl, inr, Result-cases, refl,
  arith, ap,
}
use nighwatch.Python.Json.{Json, arr, obj, Items, nil, item, Fields, end, field}
use nighwatch.Python.Runtime.{Runtime}
use nighwatch.Security.Redact.{sensitive_headers, redact_url}
use nighwatch.Security.Redact.Laws.{SamePublic, redact_headers_hides}
use nighwatch.Evidence.{
  sensitive_body_keys, redact_json, redact_items, redact_fields, RecordedResponse, HttpExchange,
  Stamp, canonical_text, record_line, signed_record, http_payload, request_dict, response_dict,
  body_fields, record_http,
}

module _ (R : Runtime) where
  -- Values that differ only in what stands under sensitive names, at any depth.
  mutual
    pub data SameShown : Json R.Float → Json R.Float → Type 0 where
      same : (v : Json R.Float) → SameShown v v
      same_arr : {vs ws : Items R.Float} → SameItems vs ws → SameShown (arr vs) (arr ws)
      same_obj : {fs gs : Fields R.Float} → SameFields fs gs → SameShown (obj fs) (obj gs)

    pub data SameItems : Items R.Float → Items R.Float → Type 0 where
      same_nil : SameItems nil nil
      same_item :
          {v w : Json R.Float} {vs ws : Items R.Float}
          → SameShown v w
          → SameItems vs ws
          → SameItems (item v vs) (item w ws)

    pub data SameFields : Fields R.Float → Fields R.Float → Type 0 where
      same_end : SameFields end end
      shown :
          {k : String} {v w : Json R.Float} {fs gs : Fields R.Float}
          → SameShown v w
          → SameFields fs gs
          → SameFields (field k v fs) (field k w gs)
      hidden :
          {k : String} {v w : Json R.Float} {fs gs : Fields R.Float}
          → contains sensitive_body_keys (R.lower k) ≡ true
          → SameFields fs gs
          → SameFields (field k v fs) (field k w gs)

  mutual
    unfolding redact_json redact_items redact_fields

    json_hides : {v w : Json R.Float} → SameShown v w → redact_json R v ≡ redact_json R w
    json_hides (same v) = refl
    json_hides (same_arr s) = ap arr (items_hide s)
    json_hides (same_obj s) = ap obj (fields_hide s)

    items_hide : {vs ws : Items R.Float} → SameItems vs ws → redact_items R vs ≡ redact_items R ws
    items_hide same_nil = refl
    items_hide (same_item s ss) = cc (json_hides s, items_hide ss)

    fields_hide :
        {fs gs : Fields R.Float} → SameFields fs gs → redact_fields R fs ≡ redact_fields R gs
    fields_hide same_end = refl
    fields_hide (shown s ss) = cc (json_hides s, fields_hide ss)
    fields_hide (hidden h ss) = rw h (cc (fields_hide ss))

  -- JSON values that differ only in what stands under sensitive names, at any depth, are redacted
  -- alike.
  pub redact_json_hides : {v w : Json R.Float} → SameShown v w → redact_json R v ≡ redact_json R w
  redact_json_hides s = json_hides s

  -- Two responses, if any, that agree but for the values of sensitive headers.
  abbrev pub SameResponse : Option RecordedResponse → Option RecordedResponse → Type 0
  SameResponse none none = Unit
  SameResponse none (some s) = ⊥
  SameResponse (some r) none = ⊥
  SameResponse (some r) (some s) =
      (s ≡ record r { headers = s.headers }) × SamePublic R sensitive_headers r.headers s.headers

  -- `x` with another URL, other request headers and another response.
  abbrev pub retold :
      HttpExchange R → String → List (String × String) → Option RecordedResponse → HttpExchange R
  retold x url headers response = record x {
    url = url;
    request_headers = headers;
    response = response;
  }

  request_dict_hides :
      (n : ℕ) (x : HttpExchange R) (url safe : String) (headers : List (String × String))
      (response : Option RecordedResponse)
      → SamePublic R sensitive_headers x.request_headers headers
      → request_dict R n x safe ≡ request_dict R n (retold x url headers response) safe
  unfolding request_dict body_fields
  request_dict_hides n x url safe headers response s =
      cc ((redact_headers_hides R x.request_headers headers s).0)

  response_dict_hides :
      (n : ℕ) (x : HttpExchange R) (url : String) (headers : List (String × String))
      (r s : Option RecordedResponse)
      → SameResponse r s
      → response_dict R n x r ≡ response_dict R n (retold x url headers s) s
  unfolding response_dict
  response_dict_hides n x url headers none none h = refl
  response_dict_hides n x url headers none (some s) h = elim h [ ]
  response_dict_hides n x url headers (some r) none h = elim h [ ]
  response_dict_hides n x url headers (some r) (some s) (others, h) =
      rw others (cc ((redact_headers_hides R r.headers s.headers h).0))

  http_payload_hides :
      (n : ℕ) (x : HttpExchange R) (url : String) (headers : List (String × String))
      (response : Option RecordedResponse)
      → redact_url R x.url ≡ redact_url R url
      → SamePublic R sensitive_headers x.request_headers headers
      → SameResponse x.response response
      → http_payload R n x ≡ http_payload R n (retold x url headers response)
  unfolding http_payload
  http_payload_hides n x url headers response urls hs rs =
      let q = response_dict_hides n x url headers x.response response rs in
      elim (Result-cases (redact_url R x.url)) [
        | inl (safe, e) ↦
            let p = request_dict_hides n x url safe headers response hs in
            ground (arith, urls, e, p, q)
        | inr (message, e) ↦ ground (arith, urls, e)
      ]

  -- What `record_http` returns and writes does not depend on the values of sensitive request and
  -- response headers, nor on what the redaction of the URL drops.
  pub record_http_hides :
      (n : ℕ) (file : List (Json R.Float)) (stamp : Stamp R) (x : HttpExchange R) (url : String)
      (headers : List (String × String)) (response : Option RecordedResponse)
      → redact_url R x.url ≡ redact_url R url
      → SamePublic R sensitive_headers x.request_headers headers
      → SameResponse x.response response
      → record_http R n file stamp x ≡ record_http R n file stamp (retold x url headers response)
  unfolding record_http
  record_http_hides n file stamp x url headers response urls hs rs =
      ground (arith, http_payload_hides n x url headers response urls hs rs)

  -- Whether `append` can encode what it hashes and the line that it writes.
  abbrev pub IsEncodable : Stamp R → Json R.Float → Type 0
  IsEncodable stamp payload =
      (R.utf8_error (canonical_text R stamp "http_exchange" payload) ≡ none)
      × (R.utf8_error (record_line R (signed_record R stamp "http_exchange" payload)) ≡ none)

  -- The error of the one or of the other.
  abbrev pub IsUnencodable : Stamp R → Json R.Float → String → Type 0
  IsUnencodable stamp payload message =
      (R.utf8_error (canonical_text R stamp "http_exchange" payload) ≡ some message)
      ⊎ (R.utf8_error (record_line R (signed_record R stamp "http_exchange" payload))
          ≡ some message)
