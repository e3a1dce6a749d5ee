-- ===== src/Evidence.antt =====
-- evidence.py: the redacted previews and the records of the evidence file. A record is the JSON value
-- that is written as one line; the file is the list of its records.
pub mod Laws
use nighwatch.Common.{
  ℕ, zero, suc, String, ◌<>◌, Bool, true, false, ◌&&◌, not, Option, none, some, List, [], ◌∷◌, ◌++◌,
  map, Result, ok, err, ◌>>=◌, ◌>>◌, raise_if, ◌==◌, contains, length, ltb, take, if◌then◌else◌,
}
use nighwatch.Python.Int.{pos}
use nighwatch.Python.Json.{
  Json, null, bool, int, float, str, arr, tup, obj, Items, nil, item, Fields, end, field, fields,
}
use nighwatch.Python.Bytes.{Bytes, encode, is_empty}
use nighwatch.Python.Encode.{encodable}
use nighwatch.Python.Runtime.{Dumps, Runtime}
use nighwatch.Python.Str.{strip, take_chars}
use nighwatch.Security.Redact.{redacted, redact_headers, redact_url}

abbrev pub sensitive_body_keys : List String
sensitive_body_keys =
    "access_token" ∷ "api_key" ∷ "apikey" ∷ "authorization" ∷ "cookie" ∷ "csrf" ∷ "password"
    ∷ "secret" ∷ "session" ∷ "signature" ∷ "token" ∷ []

abbrev token_pattern : String
token_pattern = "(?i)\\b(?:bearer|basic)\\s+[A-Za-z0-9._~+/=-]+"

abbrev secret_assignment_pattern : String
secret_assignment_pattern =
    "(?i)\\b(?:authorization|cookie|set-cookie|x-api-key|x-auth-token|token|secret|password)\\s*[:=]\\s*[^\\s,;]+"

module _ (R : Runtime) where
  -- `_redact_json(value)`; a field's value is replaced under a sensitive name.
  unfoldable mutual
    pub redact_json : Json R.Float → Json R.Float
    redact_json (arr vs) = arr (redact_items vs)
    redact_json (obj fs) = obj (redact_fields fs)
    redact_json (tup vs) = tup vs
    redact_json null = null
    redact_json (bool b) = bool b
    redact_json (int n) = int n
    redact_json (float x) = float x
    redact_json (str s) = str s

    pub redact_items : Items R.Float → Items R.Float
    redact_items nil = nil
    redact_items (item v vs) = item (redact_json v) (redact_items vs)

    pub redact_fields : Fields R.Float → Fields R.Float
    redact_fields end = end
    redact_fields (field key v fs) =
        let inner = redact_json v in
        field key (if contains sensitive_body_keys (R.lower key) then str redacted else inner)
          (redact_fields fs)

  -- The decoded prefix, with its JSON redacted if it was not cut and parses.
  preview_text : Bool → String → String
  unfolding redact_json
  preview_text true text = text
  preview_text false text = elim (R.json_loads text) [
    | none ↦ text
    | some value ↦
        R.json_dumps (record { compact = false; sort_keys = true; ensure_ascii = false })
          (redact_json value)
  ]

  -- `redact_body_preview`: the text, and whether the body was cut.
  unfoldable pub redact_body_preview : Bytes → ℕ → String × Bool
  unfolding preview_text
  redact_body_preview body max_bytes =
      let truncated = ltb max_bytes (length body) in
      let text = preview_text truncated (R.decode_utf8 (take max_bytes body)) in
      (
        R.re_sub secret_assignment_pattern redacted (R.re_sub token_pattern redacted text),
        truncated,
      )

-- The response that `record_http` is told of; without one, an exchange that failed.
pub record RecordedResponse : Type 0 where
  pub status : ℕ
  pub reason : String
  pub headers : List (String × String)

-- The arguments of `record_http`.
pub record HttpExchange (R : Runtime) : Type 0 where
  pub engagement_id : String
  pub policy_hash : String
  pub action_id : String
  pub auth_profile : Option String
  pub method : String
  pub url : String
  pub request_headers : List (String × String)
  pub response : Option RecordedResponse
  pub response_body : Bytes
  pub response_truncated : Bool
  pub request_body : Bytes
  pub payload_label : Option String
  pub elapsed_ms : R.Float
  pub error : Option String
  pub capture_body : Bool

-- What the clock and `uuid4` give to one record.
pub record Stamp (R : Runtime) : Type 0 where
  pub evidence_id : String
  pub created_at : R.Float

module _ (R : Runtime) where
  abbrev pub optional : Option String → Json R.Float
  optional none = null
  optional (some s) = str s

  abbrev pub header_dict : List (String × String) → Json R.Float
  header_dict headers = obj (fields (map (λ h. (h.0, str h.1)) headers))

  -- The two preview entries, where a preview is taken.
  preview_fields : Bool → Bytes → ℕ → List (String × Json R.Float)
  preview_fields capture body preview_bytes =
      let (text, truncated) = redact_body_preview R body preview_bytes in
      if capture && not (is_empty body)
      then ("body_preview", str text) ∷ ("body_preview_truncated", bool truncated) ∷ []
      else []

  response_dict : ℕ → HttpExchange R → Option RecordedResponse → Json R.Float
  unfolding preview_fields fields
  response_dict preview_bytes x none = null
  response_dict preview_bytes x (some r) = obj (
      fields (
        (("status", int (pos r.status))
          ∷ ("reason", str r.reason)
          ∷ ("headers", header_dict (redact_headers R r.headers))
          ∷ ("body_sha256", str (R.sha256 x.response_body))
          ∷ ("body_length", int (pos (length x.response_body)))
          ∷ ("body_truncated", bool x.response_truncated)
          ∷ (
            "body_hash_scope",
            str (if x.response_truncated then "captured_prefix" else "full_response"),
          )
          ∷ ("elapsed_ms", float x.elapsed_ms)
          ∷ [])
        ++ preview_fields x.capture_body x.response_body preview_bytes))

  body_fields : ℕ → HttpExchange R → List (String × Json R.Float)
  unfolding preview_fields
  body_fields preview_bytes x =
      if is_empty x.request_body
      then []
      else ("body_sha256", str (R.sha256 x.request_body))
        ∷ ("body_length", int (pos (length x.request_body)))
        ∷ preview_fields x.capture_body x.request_body preview_bytes

  label_fields : Option String → List (String × Json R.Float)
  label_fields none = []
  label_fields (some label) =
      if label == "" then [] else ("payload_label", str (take_chars 160 label)) ∷ []

  request_dict : ℕ → HttpExchange R → String → Json R.Float
  unfolding body_fields label_fields fields
  request_dict preview_bytes x safe_url = obj (
      fields (
        (("method", str (R.upper x.method))
          ∷ ("url", str safe_url)
          ∷ ("headers", header_dict (redact_headers R x.request_headers))
          ∷ [])
        ++ (body_fields preview_bytes x ++ label_fields x.payload_label)))

  -- The payload of `record_http`; `err` is a `ValueError` of `redact_url`.
  unfoldable pub http_payload : ℕ → HttpExchange R → Result String (Json R.Float)
  unfolding request_dict response_dict fields
  http_payload preview_bytes x = elim (redact_url R x.url) [
    | err message ↦ err message
    | ok safe_url ↦ ok (
        obj (
          fields (
            ("engagement_id", str x.engagement_id)
            ∷ ("policy_hash", str x.policy_hash)
            ∷ ("action_id", str x.action_id)
            ∷ ("auth_profile", optional x.auth_profile)
            ∷ ("request", request_dict preview_bytes x safe_url)
            ∷ ("response", response_dict preview_bytes x x.response)
            ∷ ("error", optional x.error)
            ∷ [])))
  ]

  base_fields : Stamp R → String → Json R.Float → List (String × Json R.Float)
  base_fields stamp kind payload =
      ("evidence_id", str stamp.evidence_id)
      ∷ ("kind", str kind)
      ∷ ("created_at", float stamp.created_at)
      ∷ ("payload", payload)
      ∷ []

  -- What the hash of a record is taken of.
  unfoldable pub canonical_text : Stamp R → String → Json R.Float → String
  unfolding base_fields fields
  canonical_text stamp kind payload =
      R.json_dumps (record { compact = true; sort_keys = true; ensure_ascii = false })
        (obj (fields (base_fields stamp kind payload)))

  -- The record that `append` writes, with the hash of what it holds.
  unfoldable pub signed_record : Stamp R → String → Json R.Float → Json R.Float
  unfolding canonical_text
  signed_record stamp kind payload =
      let hash = R.sha256 (encode (canonical_text stamp kind payload)) in
      obj (fields (base_fields stamp kind payload ++ ("record_sha256", str hash) ∷ []))

  -- The line of a record.
  unfoldable pub record_line : Json R.Float → String
  record_line written =
      R.json_dumps (record { compact = false; sort_keys = true; ensure_ascii = false }) written
      <> "\n"

  -- `EvidenceStore.append`: the record, and the file with it; `err` is a `ValueError`, by which
  -- an encoding too is refused.
  unfoldable pub append :
      List (Json R.Float)
      → Stamp R
      → String
      → Json R.Float
      → Result String (Json R.Float × List (Json R.Float))
  unfolding strip record_line
  append file stamp kind payload = do
    raise_if (strip kind == "") "evidence kind cannot be empty"
    encodable R (canonical_text stamp kind payload)
    let written = signed_record stamp kind payload
    encodable R (record_line written)
    ok (written, file ++ written ∷ [])

  -- `EvidenceStore.record_http`
  unfoldable pub record_http :
      ℕ
      → List (Json R.Float)
      → Stamp R
      → HttpExchange R
      → Result String (Json R.Float × List (Json R.Float))
  unfolding append http_payload
  record_http preview_bytes file stamp x = elim (http_payload preview_bytes x) [
    | err message ↦ err message
    | ok payload ↦ append file stamp "http_exchange" payload
  ]
