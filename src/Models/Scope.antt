-- ===== src/Models/Scope.antt =====
-- `EngagementConfig.check_url` of agentsec/models.py.
pub mod Laws
use nighwatch.Common.{
  ℕ, zero, suc, String, ◌<>◌, Bool, true, false, ◌&&◌, ◌||◌, not, Option, none, some, List, [], ◌∷◌,
  Result, ok, err, ◌>>=◌, ◌==◌, contains, contains_int, is_some, if◌then◌else◌,
}
use nighwatch.Python.Runtime.{Runtime}
use nighwatch.Python.Str.{strip, str_int}
use nighwatch.Python.Url.{SplitResult, urlsplit, username, password, hostname, port}
use nighwatch.Models.Config.{ScopeOrigin, ScopeDecision, EngagementConfig, policy_hash}
use nighwatch.Models.PathMatch.{path_matches}
use nighwatch.Models.Host.{normalize_host}

-- What `check_url` reads off a URL before it looks at the policy.
pub record Parsed : Type 0 where
  pub parts : SplitResult
  pub scheme : String
  pub host : String
  pub port : ℕ

abbrev pub or_empty : Option String → String
or_empty none = ""
or_empty (some s) = s

-- `parsed.port or (443 if parsed.scheme.lower() == "https" else 80)`
unfoldable pub port_or_default : Option ℕ → String → ℕ
port_or_default (some (suc n)) scheme = suc n
port_or_default (some zero) scheme = if scheme == "https" then 443 else 80
port_or_default none scheme = if scheme == "https" then 443 else 80

-- The condition of the loop's `if`.
unfoldable pub origin_matches : Parsed → ScopeOrigin → Bool
origin_matches p o = p.scheme == o.scheme && p.host == o.host && contains_int o.ports p.port

abbrev pub path_or_root : String → String
path_or_root path = if path == "" then "/" else path

-- The loop over the origins: whether the target is allowed, and the reason.
unfoldable pub check_origins : Parsed → String → List ScopeOrigin → Bool × String
check_origins p method [] = (
  false,
  "origin " <> p.parts.scheme <> "://" <> p.host <> ":" <> str_int p.port <> " is not in scope",
)
check_origins p method (o ∷ origins) =
    let path = path_or_root p.parts.path in
    if origin_matches p o
    then (if not (contains o.methods method)
        then (false, "method " <> method <> " is not allowed for " <> p.host)
        else if not (path_matches path o.path_prefixes)
        then (false, "path " <> path <> " is not allowed for " <> p.host)
        else (true, "target is in scope"))
    else check_origins p method origins

-- The guards after the `try` block, and the loop.
unfoldable pub check_parsed : {R : Runtime} → EngagementConfig R → Parsed → String → Bool × String
check_parsed c p method =
    if not (p.scheme == "http" || p.scheme == "https")
    then (false, "only http and https are allowed")
    else if is_some (username p.parts) || is_some (password p.parts)
    then (false, "URL userinfo is not allowed")
    else if not (p.parts.fragment == "")
    then (false, "URL fragments are not allowed in an HTTP target")
    else if contains c.excluded_hosts p.host
    then (false, "host " <> p.host <> " is explicitly excluded")
    else check_origins p method c.allowed_origins

module _ (R : Runtime) where
  -- The `try` block; `err` is the message of the exception that its handler catches.
  unfoldable pub parse_target : String → Result String Parsed
  parse_target target = do
    parts ← urlsplit R target
    host ← normalize_host R (or_empty (hostname R parts))
    given ← port R parts
    let scheme = R.lower parts.scheme
    ok (record { parts = parts; scheme = scheme; host = host; port = port_or_default given scheme })

  decide_target : EngagementConfig R → Result String Parsed → String → Bool × String
  decide_target c (err message) method = (false, "invalid URL: " <> message)
  decide_target c (ok p) method = check_parsed c p method

  unfoldable pub check_url : EngagementConfig R → String → String → ScopeDecision
  unfolding decide_target
  check_url c url method =
      let target = strip url in
      let normalized_method = R.upper method in
      let (allowed, reason) = decide_target c (parse_target target) normalized_method in
      record {
        allowed = allowed;
        reason = reason;
        target = target;
        method = normalized_method;
        policy_hash = policy_hash R c;
      }
