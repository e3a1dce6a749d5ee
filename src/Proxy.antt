-- ===== src/Proxy.antt =====
-- agentsec/proxy.py: what the handler of the local egress proxy answers, and what it has the executor send.
pub mod Laws
use nighwatch.Common.{
  ℕ, zero, suc, String, ◌<>◌, Bool, true, false, ◌||◌, ◌&&◌, not, Option, none, some, List, [], ◌∷◌,
  ◌++◌, take, length, Result, ok, err, ◌>>=◌, ◌>>◌, raise_if, contains, is_some, ltb, ◌==◌,
  if◌then◌else◌,
}
use nighwatch.Python.Bytes.{Bytes}
use nighwatch.Python.Dicts.{lookup, set_key}
use nighwatch.Python.Int.{ℤ, pos, negsuc}
use nighwatch.Python.Runtime.{Runtime}
use nighwatch.Python.Str.{strip, has_char, replace_char, take_chars, str_int}
use nighwatch.Python.Url.{SplitResult, urlsplit}
use nighwatch.Models.Config.{EngagementConfig}
use nighwatch.Models.Scope.{or_empty}
use nighwatch.Http.Execute.{
  HttpExecutor, HttpObservation, HttpRequest, RequestBody, World, Run, execute,
}
use nighwatch.Http.Failure.{HttpFailure, config_error, executor_error, blocked, uncaught}
use nighwatch.Http.Headers.{Headers, supported_methods}
use nighwatch.Http.Request.{Sent, HttpResponse}

pub record ProxyServer (R : Runtime) : Type 0 where
  pub config : EngagementConfig R
  pub executor : HttpExecutor R
  pub default_auth_profile : Option String
  pub default_approval_id : Option String

-- A request as the handler has parsed it, with what can be read after it.
pub record ProxyRequest : Type 0 where
  pub command : String
  pub path : String
  pub headers : Headers
  pub rfile : Bytes

-- `send_error`, a response, an exception that the handler does not catch, or no answer yet.
pub data Answered : Type 0 where
  error_page : ℕ → String → Answered
  response_page : ℕ → String → Headers → Bytes → Answered
  crashed : String → Answered
  pending : Answered

-- The answer, the server's executor after it, and what was sent.
pub record Handled (R : Runtime) : Type 0 where
  pub answer : Answered
  pub after : HttpExecutor R
  pub sent : List Sent

abbrev pub forwarded_names : List String
forwarded_names =
    "accept" ∷ "authorization" ∷ "content-type" ∷ "cookie" ∷ "user-agent" ∷ "x-api-key"
    ∷ "x-auth-token" ∷ []

abbrev pub credential_names : List String
credential_names = "authorization" ∷ "cookie" ∷ "x-api-key" ∷ "x-auth-token" ∷ []

abbrev pub control_names : List String
control_names =
    "x-nighwatch-approval-id" ∷ "x-nighwatch-auth-profile" ∷ "x-nighwatch-payload-label" ∷ "host"
    ∷ "connection" ∷ "content-length" ∷ "proxy-connection" ∷ []

abbrev hop_by_hop : List String
hop_by_hop =
    "connection" ∷ "keep-alive" ∷ "proxy-authenticate" ∷ "proxy-authorization" ∷ "te" ∷ "trailer"
    ∷ "transfer-encoding" ∷ "upgrade" ∷ "content-length" ∷ []

-- `a or b or None`
unfoldable pub first_of : Option String → Option String → Option String
first_of a b =
    if or_empty a == ""
    then (if or_empty b == "" then none else some (or_empty b))
    else some (or_empty a)

abbrev pub is_dropped : Bool → String → Bool
is_dropped has_profile name =
    contains control_names name
    || (not (contains forwarded_names name) || (has_profile && contains credential_names name))

module _ (R : Runtime) where
  -- `self.headers.get(name)`, whatever the case of the name
  unfoldable pub header_of : Headers → String → Option String
  header_of [] name = none
  header_of ((k, v) ∷ kvs) name = if R.lower k == R.lower name then some v else header_of kvs name

  -- `{name.lower(): value for name, value in headers}`
  unfoldable pub lowered : Headers → Headers → Headers
  unfolding set_key
  lowered found [] = found
  lowered found ((k, v) ∷ kvs) = lowered (set_key found (R.lower k) v) kvs

  abbrev body_within : ℕ → Bytes → ℤ → Result String Bytes
  body_within bound rfile (negsuc n) = err "proxy request body exceeds the active payload limit"
  body_within bound rfile (pos n) =
      if ltb bound n
      then err "proxy request body exceeds the active payload limit"
      else ok (take n rfile)

  abbrev sized_body : ℕ → Bytes → Option ℤ → Result String Bytes
  sized_body bound rfile none = err "invalid Content-Length"
  sized_body bound rfile (some n) = body_within bound rfile n

  -- The number of a header, `0` where there is none.
  unfoldable pub length_of : Option String → Option ℤ
  length_of none = some (pos 0)
  length_of (some text) = R.text_int text

  -- `_read_body`; `err` is an `EgressProxyError`.
  unfoldable pub read_body : ℕ → ProxyRequest → Result String Bytes
  unfolding header_of length_of
  read_body bound q = do
    let encoding = R.lower (or_empty (header_of q.headers "Transfer-Encoding"))
    raise_if (not (encoding == "") && not (encoding == "identity"))
        "chunked proxy request bodies are not supported"
    sized_body bound q.rfile (length_of (header_of q.headers "Content-Length"))

  -- `_forward_headers`, onto the headers that were taken; `err` is an `EgressProxyError`.
  unfoldable pub forward_headers : Bool → Headers → Headers → Result String Headers
  unfolding has_char set_key
  forward_headers has_profile taken [] = ok taken
  forward_headers has_profile taken ((k, v) ∷ kvs) =
      let skipped = forward_headers has_profile taken kvs in
      let kept = forward_headers has_profile (set_key taken k v) kvs in
      if is_dropped has_profile (R.lower k)
      then skipped
      else if has_char 13 v || has_char 10 v
      then err "request header contains a line break"
      else kept

  -- The headers of the response that are passed on, where `send_header` takes them.
  unfoldable pub response_headers : (String → String → Bool) → Headers → Headers
  response_headers sendable [] = []
  response_headers sendable ((k, v) ∷ kvs) =
      let rest = response_headers sendable kvs in
      if contains hop_by_hop (R.lower k) || not (sendable k v) then rest else (k, v) ∷ rest

  abbrev bad_gateway : String → Answered
  bad_gateway message =
      error_page 502 (take_chars 300 (replace_char b'\n' " " (replace_char b'\r' " " message)))

  unfoldable pub answer_failure : HttpFailure R → Answered
  unfolding take_chars replace_char
  answer_failure (config_error message) = bad_gateway message
  answer_failure (executor_error message) = bad_gateway message
  answer_failure (blocked decision) = bad_gateway decision.reason
  answer_failure (uncaught message) = crashed message

  unfoldable pub answer_response : (String → String → Bool) → String → HttpResponse R → Answered
  unfolding response_headers
  answer_response sendable command response =
      let empty = command == "HEAD" in
      response_page response.status response.reason
        (response_headers sendable response.headers
          ++ ("Content-Length", str_int (if empty then 0 else length response.body))
            ∷ ("Connection", "close")
            ∷ [])
        (if empty then [] else response.body)

  -- The answer to the outcome of an execution.
  unfoldable pub answer_outcome :
      (String → String → Bool)
      → String
      → Option (Result (HttpFailure R) (HttpObservation R))
      → Answered
  unfolding answer_failure answer_response
  answer_outcome sendable command none = pending
  answer_outcome sendable command (some (err e)) = answer_failure e
  answer_outcome sendable command (some (ok o)) = answer_response sendable command o.response

  -- The request that the executor is asked for.
  unfoldable pub proxy_call : ProxyServer R → ProxyRequest → String → Result String HttpRequest
  unfolding lowered lookup first_of read_body
  proxy_call p q target = do
    body ← read_body p.config.active_testing.max_payload_bytes q
    let control = lowered [] q.headers
    let profile = first_of (lookup control "x-nighwatch-auth-profile") p.default_auth_profile
    headers ← forward_headers (is_some profile) [] q.headers
    ok (record {
      url = target;
      method = q.command;
      auth_profile = profile;
      purpose = "controlled tool request through local egress proxy";
      body = RequestBody.raw body;
      request_headers = headers;
      approval_id = first_of (lookup control "x-nighwatch-approval-id") p.default_approval_id;
      payload_label = first_of (lookup control "x-nighwatch-payload-label") none;
    })

  abbrev pub unsent : ProxyServer R → Answered → Handled R
  unsent p answer = record { answer = answer; after = p.executor; sent = [] }

  -- The execution, and its answer.
  unfoldable pub run_call :
      ProxyServer R → World R → (String → String → Bool) → ProxyRequest → HttpRequest → Handled R
  unfolding answer_outcome
  run_call p w sendable q r =
      let run = execute R p.executor w r in
      record {
        answer = answer_outcome sendable q.command run.outcome;
        after = run.after;
        sent = run.sent;
      }

  -- `_forward`
  unfoldable pub forward :
      ProxyServer R → World R → (String → String → Bool) → ProxyRequest → Handled R
  forward p w sendable q =
      let target = strip q.path in
      elim (urlsplit R target) [
        | err message ↦ unsent p (crashed message)
        | ok parsed ↦
            if not (contains ("http" ∷ "https" ∷ []) parsed.scheme) || parsed.netloc == ""
            then unsent p (error_page 400 "proxy requests must use an absolute http(s) URL")
            else if not (parsed.fragment == "")
            then unsent p (error_page 400 "URL fragments are not valid proxy targets")
            else elim (proxy_call p q target) [
              | err message ↦ unsent p (bad_gateway message)
              | ok r ↦ run_call p w sendable q r
            ]
      ]

  -- The handler's methods: seven that forward, and `do_CONNECT`; the rest the base class refuses.
  unfoldable pub handle :
      ProxyServer R → World R → (String → String → Bool) → ProxyRequest → Handled R
  handle p w sendable q =
      if contains supported_methods q.command
      then forward p w sendable q
      else if q.command == "CONNECT"
      then unsent p (error_page 501 "HTTPS CONNECT is disabled until TLS interception is installed")
      else unsent p (error_page 501 ("Unsupported method (" <> R.repr q.command <> ")"))
