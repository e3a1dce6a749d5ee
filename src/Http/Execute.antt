-- ===== src/Http/Execute.antt =====
-- `HttpExecutor.execute`. The executor's state is its gateway, the evidence file and the application
-- map; what it sends is listed beside its result.
pub mod Laws
pub mod Checks
pub mod Loop
pub mod Gate
pub mod Record
pub mod Logs
pub mod Target
use nighwatch.Common.{
  ℕ, String, ◌<>◌, Bool, true, false, ◌||◌, ◌&&◌, not, Option, none, some, List, [], ◌∷◌, Result,
  ok, err, ◌>>=◌, ◌>>◌, raise_if, contains, length, ltb, ◌==◌, is_some, if◌then◌else◌,
}
use nighwatch.Python.Bytes.{Bytes, encode, is_empty}
use nighwatch.Python.Dicts.{set_key, update}
use nighwatch.Python.Json.{Json}
use nighwatch.Python.Runtime.{Runtime}
use nighwatch.Python.Str.{take_chars, replace_char, str_int}
use nighwatch.Models.Config.{EngagementConfig, policy_hash}
use nighwatch.Security.Approval.{ActionRequest}
use nighwatch.Security.Kill.{Surroundings}
use nighwatch.Gateway.{GatewayDecision, ToolGateway, switch_tripped, authorize, record_decision}
use nighwatch.Evidence.{RecordedResponse, HttpExchange, Stamp, record_http}
use nighwatch.Mapping.{Endpoints, Observed, observe}
use nighwatch.Http.Failure.{HttpFailure, config_error, executor_error, blocked, uncaught}
use nighwatch.Http.Headers.{
  Headers, supported_methods, bodyless_methods, risk_for_method, validate_forward_headers,
  has_auth_header, has_lowered,
}
use nighwatch.Http.Credentials.{resolve_auth_headers}
use nighwatch.Http.Request.{
  Sent, Network, HttpResponse, RequestFailure, caught, escaped, send_request,
}

pub record HttpExecutor (R : Runtime) : Type 0 where
  pub config : EngagementConfig R
  pub gateway : ToolGateway R
  pub evidence : List (Json R.Float)
  pub preview_bytes : ℕ
  -- the map, or `none` without a map store
  pub endpoints : Option Endpoints
  pub explicit_profiles : List (String × Headers)
  pub max_body_bytes : ℕ
  pub capture_body : Bool

-- `body: bytes | str | None`
pub data RequestBody : Type 0 where
  no_body : RequestBody
  text : String → RequestBody
  raw : Bytes → RequestBody

abbrev pub body_bytes : RequestBody → Bytes
body_bytes no_body = []
body_bytes (text s) = encode s
body_bytes (raw bs) = bs

-- `bool(body)`
abbrev pub has_body : RequestBody → Bool
has_body no_body = false
has_body (text s) = not (s == "")
has_body (raw bs) = not (is_empty bs)

pub record HttpRequest : Type 0 where
  pub url : String
  pub method : String
  pub auth_profile : Option String
  pub purpose : String
  pub body : RequestBody
  pub request_headers : Headers
  pub approval_id : Option String
  pub payload_label : Option String

pub record HttpObservation (R : Runtime) : Type 0 where
  pub action_id : String
  pub evidence_id : String
  pub endpoint_id : Option String
  pub auth_profile : Option String
  pub response : HttpResponse R

-- What the clock, `uuid4`, the environment and the network answer during one `execute`: the
-- surroundings and the clock at each call of `authorize`, at the receipt, at `resolve_auth_headers`,
-- at `assert_live`, and the times measured.
pub record World (R : Runtime) : Type 0 where
  pub action_id : String
  pub readings : List (Surroundings × R.Float)
  pub receipt_stamp : R.Float
  pub environment : Surroundings
  pub live : Surroundings
  pub network : Network
  pub elapsed_ms : R.Float
  pub evidence_stamp : Stamp R

-- How the loop around `authorize` ends; `waiting` when the readings end before it does.
pub data LoopEnd (R : Runtime) : Type 0 where
  cleared : GatewayDecision R → LoopEnd R
  refused : GatewayDecision R → LoopEnd R
  unsafe_wait : LoopEnd R
  waiting : LoopEnd R

-- The result, or `none` while it waits; the executor after it, and what was sent.
pub record Run (R : Runtime) : Type 0 where
  pub outcome : Option (Result (HttpFailure R) (HttpObservation R))
  pub after : HttpExecutor R
  pub sent : List Sent

-- A request that has passed the checks before the gateway.
pub record Checked : Type 0 where
  pub method : String
  pub body : Bytes
  pub headers : Headers

module _ (R : Runtime) where
  -- From the top of `execute` to `safe_request_headers`, and the test after it.
  unfoldable pub check_request : HttpExecutor R → HttpRequest → Result (HttpFailure R) Checked
  check_request x r =
      let method = R.upper r.method in
      let body = body_bytes r.body in
      do
        raise_if (not (contains supported_methods method))
            (executor_error ("unsupported HTTP method: " <> method))
        raise_if (method == "HEAD" && has_body r.body)
            (executor_error "HEAD requests cannot carry a request body")
        raise_if (ltb x.config.active_testing.max_payload_bytes (length body)) (
            executor_error (
              "request body exceeds active_testing.max_payload_bytes ("
              <> str_int x.config.active_testing.max_payload_bytes
              <> ")"))
        raise_if (contains bodyless_methods method && not (is_empty body))
            (executor_error (method <> " requests cannot carry an active request body"))
        headers ← validate_forward_headers R r.request_headers
        raise_if (is_some r.auth_profile && has_auth_header R headers)
            (config_error "request_headers cannot contain auth headers when --profile is used")
        ok (record { method = method; body = body; headers = headers })

  abbrev pub action_of : World R → HttpRequest → Checked → ActionRequest
  action_of w r c = record {
    action_id = w.action_id;
    tool = "nighwatch.http";
    target = r.url;
    method = c.method;
    risk = risk_for_method c.method;
    purpose = r.purpose;
    approval_id = r.approval_id;
  }

  -- The decision leaves the loop: it is ready, or it is no wait.
  unfoldable pub authorize_loop :
      ToolGateway R → ActionRequest → List (Surroundings × R.Float) → LoopEnd R × ToolGateway R
  authorize_loop g request [] = (waiting, g)
  authorize_loop g request ((w, now) ∷ readings) =
      let (decision, g') = authorize R g w now request in
      let again = authorize_loop g' request readings in
      if decision.ready
      then (cleared decision, g')
      else if decision.rate.allowed && R.float_lt (R.float 0) decision.rate.wait_seconds
      then (if R.float_lt (R.float 60) decision.rate.wait_seconds then (unsafe_wait, g') else again)
      else (refused decision, g')

  abbrev pub default_headers : Headers
  default_headers =
      ("Accept", "*/*")
      ∷ ("Accept-Encoding", "identity")
      ∷ ("Connection", "close")
      ∷ ("User-Agent", "Nighwatch/0.2 controlled-active")
      ∷ []

  -- The headers that are sent.
  unfoldable pub outgoing_headers : Headers → Headers → Bytes → Headers
  outgoing_headers forwarded credentials body =
      let headers = update (update default_headers forwarded) credentials in
      if not (is_empty body) && not (has_lowered R "content-type" headers)
      then set_key headers "Content-Type" "application/octet-stream"
      else headers

  -- The evidence of a request that failed, and of one that was answered.
  unfoldable pub failure_exchange :
      HttpExecutor R → World R → HttpRequest → Checked → Headers → String → HttpExchange R
  failure_exchange x w r c headers error = record {
    engagement_id = x.config.engagement_id;
    policy_hash = policy_hash R x.config;
    action_id = w.action_id;
    auth_profile = r.auth_profile;
    method = c.method;
    url = r.url;
    request_headers = headers;
    response = none;
    response_body = [];
    response_truncated = false;
    request_body = c.body;
    payload_label = r.payload_label;
    elapsed_ms = w.elapsed_ms;
    error = some error;
    capture_body = false;
  }

  unfoldable pub response_exchange :
      HttpExecutor R → World R → HttpRequest → Checked → Headers → HttpResponse R → HttpExchange R
  response_exchange x w r c headers response = record {
    engagement_id = x.config.engagement_id;
    policy_hash = policy_hash R x.config;
    action_id = w.action_id;
    auth_profile = r.auth_profile;
    method = c.method;
    url = r.url;
    request_headers = headers;
    response =
        some (record {
          status = response.status;
          reason = response.reason;
          headers = response.headers;
        });
    response_body = response.body;
    response_truncated = response.body_truncated;
    request_body = c.body;
    payload_label = r.payload_label;
    elapsed_ms = response.elapsed_ms;
    error = none;
    capture_body = x.capture_body;
  }

  abbrev fails : HttpExecutor R → HttpFailure R → List Sent → Run R
  fails x e sent = record { outcome = some (err e); after = x; sent = sent }

  -- The `except` branch: evidence of the failure, and its text raised.
  unfoldable pub note_failure :
      HttpExecutor R → World R → HttpRequest → Checked → Headers → String → List Sent → Run R
  note_failure x w r c headers error sent =
      let exchange = failure_exchange x w r c headers error in
      elim (record_http R x.preview_bytes x.evidence w.evidence_stamp exchange) [
        | err message ↦ fails x (uncaught message) sent
        | ok written ↦ fails (record x { evidence = written.1 }) (executor_error error) sent
      ]

  -- `f"{type(exc).__name__}: {str(exc).replace(chr(10), ' ')[:300]}"`
  unfoldable pub error_text : String → String → String
  error_text name message = name <> ": " <> take_chars 300 (replace_char b'\n' " " message)

  observation : World R → HttpRequest → HttpResponse R → Option String → HttpObservation R
  observation w r response endpoint = record {
    action_id = w.action_id;
    evidence_id = w.evidence_stamp.evidence_id;
    endpoint_id = endpoint;
    auth_profile = r.auth_profile;
    response = response;
  }

  abbrev observed : World R → HttpRequest → Checked → HttpResponse R → Observed
  observed w r c response = record {
    method = c.method;
    url = r.url;
    auth_profile = r.auth_profile;
    status = response.status;
    response_body = response.body;
    evidence_id = w.evidence_stamp.evidence_id;
  }

  -- `map_store.observe` where there is one.
  note_endpoint :
      HttpExecutor R → World R → HttpRequest → Checked → HttpResponse R → List Sent → Run R
  unfolding observation
  note_endpoint x w r c response sent = elim x.endpoints [
    | none ↦ record { outcome = some (ok (observation w r response none)); after = x; sent = sent }
    | some endpoints ↦ elim (observe R endpoints (observed w r c response)) [
      | err message ↦ fails x (uncaught message) sent
      | ok found ↦ record {
        outcome = some (ok (observation w r response (some found.0)));
        after = record x { endpoints = some found.1 };
        sent = sent;
      }
    ]
  ]

  -- After the `try` block: evidence of the response, and the map.
  unfoldable pub note_response :
      HttpExecutor R
      → World R
      → HttpRequest
      → Checked
      → Headers
      → HttpResponse R
      → List Sent
      → Run R
  unfolding note_endpoint
  note_response x w r c headers response sent =
      let exchange = response_exchange x w r c headers response in
      elim (record_http R x.preview_bytes x.evidence w.evidence_stamp exchange) [
        | err message ↦ fails x (uncaught message) sent
        | ok written ↦ note_endpoint (record x { evidence = written.1 }) w r c response sent
      ]

  -- The `try` block, in its concurrency slot.
  unfoldable pub perform : HttpExecutor R → World R → HttpRequest → Checked → Headers → Run R
  perform x w r c headers =
      let (result, sent) =
        send_request R x.config x.max_body_bytes w.network w.elapsed_ms r.url c.method headers
          c.body in
      if switch_tripped R x.gateway w.live
      then note_failure x w r c headers (error_text "KillSwitchTripped" "kill switch is active") []
      else elim result [
        | err (caught name message) ↦ note_failure x w r c headers (error_text name message) sent
        | err (escaped message) ↦ fails x (uncaught message) sent
        | ok response ↦ note_response x w r c headers response sent
      ]

  abbrev recorded :
      HttpExecutor R → ToolGateway R → World R → ActionRequest → GatewayDecision R → HttpExecutor R
  recorded x g w request decision = record x {
    gateway = (record_decision R g w.receipt_stamp request decision).1;
  }

  -- From the end of the loop.
  unfoldable pub proceed :
      HttpExecutor R → World R → HttpRequest → Checked → LoopEnd R × ToolGateway R → Run R
  proceed x w r c (waiting, g) = record {
    outcome = none;
    after = record x { gateway = g };
    sent = [];
  }
  proceed x w r c (unsafe_wait, g) =
      fails (record x { gateway = g })
        (executor_error "rate limiter requires an unsafe wait interval") []
  proceed x w r c (refused decision, g) =
      fails (recorded x g w (action_of w r c) decision) (blocked decision) []
  proceed x w r c (cleared decision, g) =
      let x' = recorded x g w (action_of w r c) decision in
      elim (resolve_auth_headers R x.config r.auth_profile x.explicit_profiles w.environment) [
        | err e ↦ fails x' e []
        | ok credentials ↦ perform x' w r c (outgoing_headers c.headers credentials c.body)
      ]

  -- `HttpExecutor.execute`
  unfoldable pub execute : HttpExecutor R → World R → HttpRequest → Run R
  execute x w r = elim (check_request x r) [
    | err e ↦ fails x e []
    | ok c ↦ proceed x w r c (authorize_loop x.gateway (action_of w r c) w.readings)
  ]
