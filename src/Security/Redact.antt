-- ===== src/Security/Redact.antt =====
-- `redact_url` and `redact_headers` of agentsec/security.py.
pub mod Laws
use nighwatch.Common.{
  String, Bool, true, false, List, [], ◌∷◌, map, Result, ok, err, ◌>>=◌, contains, if◌then◌else◌,
}
use nighwatch.Python.Runtime.{Runtime}
use nighwatch.Python.Url.{SplitResult, urlsplit, urlunsplit}

abbrev pub sensitive_query_keys : List String
sensitive_query_keys =
    "access_token" ∷ "api_key" ∷ "apikey" ∷ "authorization" ∷ "code" ∷ "csrf" ∷ "password"
    ∷ "secret" ∷ "session" ∷ "signature" ∷ "state" ∷ "token" ∷ []

abbrev pub sensitive_headers : List String
sensitive_headers =
    "authorization" ∷ "cookie" ∷ "proxy-authorization" ∷ "set-cookie" ∷ "x-api-key" ∷ "x-auth-token"
    ∷ []

abbrev pub redacted : String
redacted = "[REDACTED]"

module _ (R : Runtime) where
  -- The pairs, with the value replaced where the lower-cased name is listed.
  unfoldable pub redact_pairs : List String → List (String × String) → List (String × String)
  redact_pairs sensitive [] = []
  redact_pairs sensitive ((key, value) ∷ pairs) =
      (key, if contains sensitive (R.lower key) then redacted else value)
      ∷ redact_pairs sensitive pairs

  -- A dictionary is the list of its entries.
  unfoldable pub redact_headers : List (String × String) → List (String × String)
  redact_headers headers = redact_pairs sensitive_headers headers

  -- `err` is the `ValueError` of `urlsplit`.
  unfoldable pub redact_url : String → Result String String
  redact_url url = do
    parsed ← urlsplit R url
    let query = redact_pairs sensitive_query_keys (R.parse_qsl parsed.query)
    ok (urlunsplit (record parsed { query = R.urlencode query; fragment = "" }))
