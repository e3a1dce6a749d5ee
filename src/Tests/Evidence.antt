-- ===== src/Tests/Evidence.antt =====
-- The evidence and the application map at concrete inputs.
use nighwatch.Common.{String, false, none, some, List, [], ◌∷◌, ◌≡◌, refl, ok, err}
use nighwatch.Python.Ascii.{ascii}
use nighwatch.Python.Runtime.{Runtime}
use nighwatch.Python.Json.{Json, null, str, obj, end, field}
use nighwatch.Evidence.{HttpExchange, redact_json, signed_record, append, record_http}
use nighwatch.Evidence.Laws.{
  same, same_obj, shown, hidden, same_end, retold, redact_json_hides, record_http_hides,
}
use nighwatch.Mapping.{
  Endpoint, Endpoints, Observed, Identified, get_endpoint, endpoint_or, identify, observe,
}
use nighwatch.Mapping.Laws.{Grows, Shows, observe_merges, observe_others}
use nighwatch.Tests.HttpFixtures.{http_runs, stamp}

abbrev login : Json ascii.Float → Json ascii.Float
login secret = obj (field "user" (str "ann") (field "Password" secret end))

redact_json_hides_example :
    redact_json ascii (login (str "hunter2")) ≡ redact_json ascii (login null)
unfolding http_runs
redact_json_hides_example =
    redact_json_hides ascii {v = login (str "hunter2")} {w = login null}
      (same_obj (shown (same (str "ann")) (hidden refl same_end)))

abbrev exchange : String → HttpExchange ascii
exchange token = record {
  engagement_id = "eng_1";
  policy_hash = "hash";
  action_id = "act_1";
  auth_profile = none;
  method = "GET";
  url = "https://app.example.com/api/orders/17?page=2";
  request_headers = ("Authorization", token) ∷ ("Accept", "*/*") ∷ [];
  response = none;
  response_body = [];
  response_truncated = false;
  request_body = [];
  payload_label = none;
  elapsed_ms = 3;
  error = some "OSError: refused";
  capture_body = false;
}

record_http_hides_example :
    record_http ascii 8192 [] stamp (exchange "Bearer a")
    ≡ record_http ascii 8192 [] stamp (
        retold ascii
          (exchange "Bearer a")
          (exchange "x").url
          (("Authorization", "Bearer b") ∷ ("Accept", "*/*") ∷ [])
          none)
unfolding http_runs
record_http_hides_example =
    record_http_hides ascii 8192 [] stamp (exchange "Bearer a") (exchange "x").url
      (("Authorization", "Bearer b") ∷ ("Accept", "*/*") ∷ []) none refl
      (refl, λ h. cc h, (refl, λ h. refl, tt)) tt

abbrev written : Json ascii.Float → Json ascii.Float
written payload = signed_record ascii stamp "http_exchange" payload

-- A runtime on which no text can be encoded.
abbrev surrogates : Runtime
surrogates = record ascii { utf8_error = λ s. some "surrogates not allowed" }

unencodable_test :
    append surrogates [] (record { evidence_id = "ev_1"; created_at = 5000 }) "note" null
    ≡ err "surrogates not allowed"
unfolding http_runs
unencodable_test = refl

abbrev order : String → Observed
order id = record {
  method = "GET";
  url = "https://app.example.com/api/orders/17?page=2";
  auth_profile = some "owner_user";
  status = 200;
  response_body = [];
  evidence_id = id;
}

abbrev order_entry : List String → Endpoint
order_entry evidence = record {
  endpoint_id = "ep_GET|https://app.";
  method = "GET";
  origin = "https://app.example.com:443";
  path_template = "/api/orders/{id}";
  query_params = "page" ∷ [];
  object_refs = "17" ∷ [];
  observed_auth_profiles = "owner_user" ∷ [];
  status_codes = 200 ∷ [];
  response_fields = [];
  evidence_ids = evidence;
  last_observed_url = some "https://app.example.com/api/orders/17?page=2";
}

abbrev order_map : List String → Endpoints
order_map evidence = ("ep_GET|https://app.", order_entry evidence) ∷ []

first_test : observe ascii [] (order "ev_2") ≡ ok ("ep_GET|https://app.", order_map ("ev_2" ∷ []))
unfolding http_runs
first_test = refl

second_observe :
    observe ascii (order_map ("ev_2" ∷ [])) (order "ev_1")
    ≡ ok ("ep_GET|https://app.", order_map ("ev_1" ∷ "ev_2" ∷ []))
unfolding http_runs
second_observe = refl

observe_merges_example :
    (found : Identified) × (e : Endpoint) × (identify ascii (order "ev_1") ≡ ok found)
    × ("ep_GET|https://app." ≡ found.fresh.endpoint_id)
    × (get_endpoint (order_map ("ev_1" ∷ "ev_2" ∷ [])) "ep_GET|https://app." ≡ some e)
    × Grows
        (endpoint_or (get_endpoint (order_map ("ev_2" ∷ [])) "ep_GET|https://app.") found.fresh)
        e
    × Shows ascii (order "ev_1") found e
observe_merges_example =
    observe_merges ascii (order_map ("ev_2" ∷ [])) (order_map ("ev_1" ∷ "ev_2" ∷ [])) (order "ev_1")
      "ep_GET|https://app." second_observe

observe_others_test :
    get_endpoint (order_map ("ev_1" ∷ "ev_2" ∷ [])) "ep_other"
    ≡ get_endpoint (order_map ("ev_2" ∷ [])) "ep_other"
observe_others_test =
    observe_others ascii (order_map ("ev_2" ∷ [])) (order_map ("ev_1" ∷ "ev_2" ∷ [])) (order "ev_1")
      "ep_GET|https://app." second_observe "ep_other" refl
