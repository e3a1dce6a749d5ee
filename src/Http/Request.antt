-- ===== src/Http/Request.antt =====
-- `HttpExecutor._request`: one exchange with a pinned address.
pub mod Laws
use nighwatch.Common.{
  ℕ, suc, String, ◌<>◌, Bool, true, false, Option, none, some, List, [], ◌∷◌, Result, ok, err, ◌==◌,
  take, length, ltb, if◌then◌else◌,
}
use nighwatch.Python.Bytes.{Bytes}
use nighwatch.Python.Dicts.{update}
use nighwatch.Python.Runtime.{Runtime}
use nighwatch.Python.Url.{SplitResult, urlsplit, hostname, port}
use nighwatch.Models.Config.{EngagementConfig}
use nighwatch.Models.Scope.{or_empty, port_or_default, path_or_root}
use nighwatch.Http.Address.{SockAddr, Candidate, IpAddress, resolve_allowed_address}
use nighwatch.Http.Headers.{Headers}

-- What a connection is opened to, and what is sent through it.
pub record Sent : Type 0 where
  pub secure : Bool
  pub host : String
  pub port : ℕ
  pub family : ℕ
  pub sockaddr : SockAddr
  pub method : String
  pub path : String
  pub headers : Headers
  pub body : Bytes

-- What the server answers.
pub record Answer : Type 0 where
  pub status : ℕ
  pub reason : Option String
  pub headers : Headers
  pub body : Bytes

-- An exception of the exchange: an `OSError`, `HTTPException` or `HttpExecutorError` with the name
-- of its class, or one of another class.
pub data RequestFailure : Type 0 where
  caught : String → String → RequestFailure
  escaped : String → RequestFailure

pub record Network : Type 0 where
  -- `socket.getaddrinfo`, or `none` for an `OSError`
  pub getaddrinfo : String → ℕ → Option (List Candidate)
  -- `ipaddress.ip_address`, or `none` for a `ValueError`
  pub ip_address : String → Option IpAddress
  -- connect, send and read the answer
  pub exchange : Sent → Result RequestFailure Answer

pub record HttpResponse (R : Runtime) : Type 0 where
  pub url : String
  pub method : String
  pub status : ℕ
  pub reason : String
  pub headers : Headers
  pub body : Bytes
  pub body_truncated : Bool
  pub elapsed_ms : R.Float

module _ (R : Runtime) where
  -- The response that `_request` makes of an answer.
  unfoldable pub bounded_response : ℕ → String → String → R.Float → Answer → HttpResponse R
  bounded_response max_body_bytes url method elapsed a =
      let read = if method == "HEAD" then [] else take (suc max_body_bytes) a.body in
      let truncated = ltb max_body_bytes (length read) in
      record {
        url = url;
        method = method;
        status = a.status;
        reason = or_empty a.reason;
        headers = update [] a.headers;
        body = if truncated then take max_body_bytes read else read;
        body_truncated = truncated;
        elapsed_ms = elapsed;
      }

  -- `path`, with the query if there is one.
  abbrev pub request_path : SplitResult → String
  request_path parts =
      let path = path_or_root parts.path in
      if parts.query == "" then path else path <> "?" <> parts.query

  sent_to : SplitResult → ℕ → Candidate → String → Headers → Bytes → Sent
  sent_to parts number c method headers body = record {
    secure = R.lower parts.scheme == "https";
    host = or_empty (hostname R parts);
    port = number;
    family = c.family;
    sockaddr = c.sockaddr;
    method = method;
    path = request_path parts;
    headers = headers;
    body = body;
  }

  -- The part of `_request` before the connection.
  unfoldable pub address_request :
      EngagementConfig R → Network → String → String → Headers → Bytes → Result RequestFailure Sent
  unfolding sent_to
  address_request c net url method headers body = elim (urlsplit R url) [
    | err message ↦ err (escaped message)
    | ok parts ↦ elim (port R parts) [
      | err message ↦ err (escaped message)
      | ok given ↦
          let number = port_or_default given (R.lower parts.scheme) in
          elim (resolve_allowed_address net.getaddrinfo net.ip_address (or_empty (hostname R parts))
            number c.allow_private_addresses) [
              | err message ↦ err (caught "HttpExecutorError" message)
              | ok candidate ↦ ok (sent_to parts number candidate method headers body)
            ]
    ]
  ]

  -- `_request`: the response, and what was sent.
  unfoldable pub send_request :
      EngagementConfig R
      → ℕ
      → Network
      → R.Float
      → String
      → String
      → Headers
      → Bytes
      → Result RequestFailure (HttpResponse R) × List Sent
  unfolding bounded_response
  send_request c max_body_bytes net elapsed url method headers body =
      elim (address_request c net url method headers body) [
        | err e ↦ (err e, [])
        | ok sent ↦ elim (net.exchange sent) [
          | err e ↦ (err e, sent ∷ [])
          | ok answer ↦ (ok (bounded_response max_body_bytes url method elapsed answer), sent ∷ [])
        ]
      ]
