-- ===== src/Http/Headers.antt =====
-- The headers and methods that pass the egress boundary.
pub mod Laws
use nighwatch.Common.{
  String, ◌<>◌, Bool, true, false, ◌||◌, not, List, [], ◌∷◌, ◌++◌, Result, ok, err, contains, ◌==◌,
  if◌then◌else◌,
}
use nighwatch.Python.Dicts.{set_key}
use nighwatch.Python.Runtime.{Runtime}
use nighwatch.Python.Str.{has_char}
use nighwatch.Models.Policy.{RiskLevel}
use nighwatch.Http.Failure.{HttpFailure, config_error}

abbrev pub Headers : Type 0
Headers = List (String × String)

abbrev pub auth_header_names : List String
auth_header_names = "authorization" ∷ "cookie" ∷ "x-api-key" ∷ "x-auth-token" ∷ []

abbrev pub forward_header_names : List String
forward_header_names = auth_header_names ++ "accept" ∷ "content-type" ∷ "user-agent" ∷ []

abbrev pub supported_methods : List String
supported_methods = "GET" ∷ "HEAD" ∷ "OPTIONS" ∷ "POST" ∷ "PUT" ∷ "PATCH" ∷ "DELETE" ∷ []

abbrev pub bodyless_methods : List String
bodyless_methods = "GET" ∷ "HEAD" ∷ "OPTIONS" ∷ []

-- `_risk_for_method`
unfoldable pub risk_for_method : String → RiskLevel
risk_for_method method =
    if contains bodyless_methods method
    then RiskLevel.read_only
    else if method == "DELETE"
    then RiskLevel.destructive
    else RiskLevel.state_change

-- `"\r" in s or "\n" in s`
abbrev pub breaks_line : String → Bool
breaks_line s = has_char b'\r' s || has_char b'\n' s

module _ (R : Runtime) where
  -- The loop of `_validate_forward_headers`, with the result so far.
  unfoldable pub validate_into : Headers → Headers → Result (HttpFailure R) Headers
  validate_into result [] = ok result
  validate_into result ((name, value) ∷ headers) =
      let rest = validate_into (set_key result name value) headers in
      if not (contains forward_header_names (R.lower name))
      then err
          (config_error ("request header is not permitted through the egress boundary: " <> name))
      else if breaks_line name || breaks_line value
      then err (config_error "request header contains a line break")
      else rest

  -- `_validate_forward_headers`; no headers are an empty dictionary.
  unfoldable pub validate_forward_headers : Headers → Result (HttpFailure R) Headers
  validate_forward_headers headers = validate_into [] headers

  -- `any(name.lower() in _AUTH_HEADER_NAMES for name in headers)`
  unfoldable pub has_auth_header : Headers → Bool
  has_auth_header [] = false
  has_auth_header ((name, value) ∷ headers) =
      if contains auth_header_names (R.lower name) then true else has_auth_header headers

  -- `name in {name.lower() for name in headers}`
  unfoldable pub has_lowered : String → Headers → Bool
  has_lowered wanted [] = false
  has_lowered wanted ((name, value) ∷ headers) =
      if R.lower name == wanted then true else has_lowered wanted headers
