-- ===== src/Tests/HttpFixtures.antt =====
-- An executor, a network and requests that the tests of the HTTP executor share.
use nighwatch.Common.{String, true, false, Option, none, some, [], ◌∷◌, ◌==◌, ok}
use nighwatch.Python.Ascii.{ascii}
use nighwatch.Python.Bytes.{encode}
use nighwatch.Python.Dicts.{lookup, set_key, update}
use nighwatch.Python.Json.{items, fields}
use nighwatch.Python.Sets.{insert, sort_strings, add_to_set, update_set, join}
use nighwatch.Python.Str.{split, take_chars, replace_char, str_int, has_char, all_chars}
use nighwatch.Evidence.{
  Stamp, redact_body_preview, http_payload, canonical_text, record_line, signed_record, append,
  record_http,
}
use nighwatch.Mapping.{
  get_endpoint, set_endpoint, render_segments, path_template, public_keys, json_field_names,
  identify, observe,
}
use nighwatch.Models.Config.{to_dict}
use nighwatch.Http.Address.{Candidate, IpAddress, first_admitted, resolve_allowed_address}
use nighwatch.Http.Headers.{
  risk_for_method, validate_into, validate_forward_headers, has_auth_header, has_lowered,
}
use nighwatch.Http.Credentials.{
  replace_runs, is_token, headers_from_environment, safe_profile_suffix, check_auth_headers,
  resolve_auth_headers, profile_fingerprint,
}
use nighwatch.Http.Request.{Sent, Answer, Network, bounded_response, address_request, send_request}
use nighwatch.Http.Execute.{
  HttpExecutor, HttpRequest, World, RequestBody, check_request, authorize_loop, outgoing_headers,
  failure_exchange, response_exchange, note_failure, note_response, perform, proceed, execute,
  error_text,
}
use nighwatch.Tests.Fixtures.{gateway_runs, config, gateway, calm}

-- Whoever unfolds this unfolds all that `execute` calls.
unfoldable pub http_runs : Unit {0}
unfolding gateway_runs encode lookup set_key update items fields insert sort_strings add_to_set
    update_set join split take_chars replace_char str_int has_char all_chars redact_body_preview
    http_payload canonical_text record_line signed_record append record_http get_endpoint
    set_endpoint render_segments path_template public_keys json_field_names identify observe to_dict
    first_admitted resolve_allowed_address risk_for_method validate_into validate_forward_headers
    has_auth_header has_lowered replace_runs is_token headers_from_environment safe_profile_suffix
    check_auth_headers resolve_auth_headers profile_fingerprint bounded_response address_request
    send_request check_request authorize_loop outgoing_headers failure_exchange response_exchange
    note_failure note_response perform proceed execute error_text
http_runs = tt

abbrev pub intranet : Candidate
intranet = record {
  family = 2;
  is_stream = true;
  sockaddr = record { address = "10.0.0.7"; rest = 443 ∷ [] };
}

abbrev pub internet : Candidate
internet = record {
  family = 2;
  is_stream = true;
  sockaddr = record { address = "203.0.114.9"; rest = 443 ∷ [] };
}

abbrev ip_of : String → Option IpAddress
ip_of address = some (record {
  is_private = address == "10.0.0.7";
  is_loopback = false;
  is_link_local = false;
  is_multicast = false;
  is_reserved = false;
  is_unspecified = false;
})

abbrev pub answer : Answer
answer = record {
  status = 200;
  reason = some "OK";
  headers = ("Set-Cookie", "sid=1") ∷ ("Server", "lab") ∷ [];
  body = encode "hello";
}

abbrev pub network : Network
network = record {
  getaddrinfo = λ host port. some (intranet ∷ internet ∷ []);
  ip_address = ip_of;
  exchange = λ sent. ok answer;
}

abbrev pub executor : HttpExecutor ascii
executor = record {
  config = config;
  gateway = gateway;
  evidence = [];
  preview_bytes = 8192;
  endpoints = some [];
  explicit_profiles = ("owner_user", ("Authorization", "Bearer abc") ∷ []) ∷ [];
  max_body_bytes = 4;
  capture_body = false;
}

abbrev pub stamp : Stamp ascii
stamp = record { evidence_id = "ev_1"; created_at = 5000 }

abbrev pub world : World ascii
world = record {
  action_id = "act_9";
  readings = (calm, 1000) ∷ [];
  receipt_stamp = 1001;
  environment = calm;
  live = calm;
  network = network;
  elapsed_ms = 12;
  evidence_stamp = stamp;
}

abbrev pub read_health : HttpRequest
read_health = record {
  url = "https://app.example.com/api/health?page=2";
  method = "get";
  auth_profile = some "owner_user";
  purpose = "observation";
  body = RequestBody.no_body;
  request_headers = ("Accept", "text/plain") ∷ [];
  approval_id = none;
  payload_label = none;
}

abbrev pub health_sent : Sent
health_sent = record {
  secure = true;
  host = "app.example.com";
  port = 443;
  family = 2;
  sockaddr = internet.sockaddr;
  method = "GET";
  path = "/api/health?page=2";
  headers =
      ("Accept", "text/plain")
      ∷ ("Accept-Encoding", "identity")
      ∷ ("Connection", "close")
      ∷ ("User-Agent", "Nighwatch/0.2 controlled-active")
      ∷ ("Authorization", "Bearer abc")
      ∷ [];
  body = [];
}
