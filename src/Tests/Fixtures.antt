-- ===== src/Tests/Fixtures.antt =====
-- An engagement, gateways and requests that the tests share.
use nighwatch.Common.{
  contains, contains_int, String, true, false, Option, none, some, [], ◌∷◌, ◌==◌,
}
use nighwatch.Python.Ascii.{ascii, ascii_runs}
use nighwatch.Python.Str.{strip, rstrip_char}
use nighwatch.Python.Url.{urlsplit, hostname, port, username, password, urlunsplit}
use nighwatch.Models.Policy.{RiskLevel, allows}
use nighwatch.Models.Config.{ScopeOrigin, EngagementConfig, policy_hash}
use nighwatch.Models.PathMatch.{path_matches, matches_some, normalize_prefix}
use nighwatch.Models.Host.{normalize_host}
use nighwatch.Models.Scope.{
  parse_target, port_or_default, origin_matches, check_origins, check_parsed, check_url,
}
use nighwatch.Security.Approval.{ActionRequest, is_approved, evaluate}
use nighwatch.Security.Kill.{Surroundings, tripped}
use nighwatch.Security.Rate.{acquire}
use nighwatch.Security.Redact.{redact_pairs, redact_headers, redact_url}
use nighwatch.Gateway.{
  ToolGateway, new_gateway, approved_ids, authorize, safe_target, receipt_for, record_decision,
  dry_run,
}

-- Whoever unfolds this unfolds all that `check_url` calls.
unfoldable pub scope_runs : Unit {0}
unfolding ascii_runs strip rstrip_char urlsplit hostname port username password normalize_host
    parse_target contains contains_int port_or_default origin_matches check_origins check_parsed
    check_url path_matches matches_some normalize_prefix policy_hash
scope_runs = tt

-- The same for `authorize`, `record_decision` and `dry_run`.
unfoldable pub gateway_runs : Unit {0}
unfolding scope_runs allows is_approved evaluate acquire tripped redact_pairs redact_headers
    redact_url urlunsplit approved_ids authorize safe_target receipt_for record_decision dry_run
gateway_runs = tt

abbrev pub api : ScopeOrigin
api = record {
  scheme = "https";
  host = "app.example.com";
  ports = 443 ∷ [];
  path_prefixes = "/api/" ∷ [];
  methods = "GET" ∷ [];
}

-- The same origin again, for another method and path.
abbrev pub fixtures : ScopeOrigin
fixtures = record {
  scheme = "https";
  host = "app.example.com";
  ports = 443 ∷ [];
  path_prefixes = "/test-fixtures" ∷ [];
  methods = "POST" ∷ [];
}

abbrev pub lab : ScopeOrigin
lab = record {
  scheme = "http";
  host = "lab.example.com";
  ports = 80 ∷ 8080 ∷ [];
  path_prefixes = [];
  methods = "DELETE" ∷ "GET" ∷ "POST" ∷ [];
}

abbrev pub config : EngagementConfig ascii
config = record {
  engagement_id = "eng_1";
  allowed_origins = api ∷ fixtures ∷ lab ∷ [];
  excluded_hosts = "admin.example.com" ∷ [];
  auth_profiles = "owner_user" ∷ "non_owner_user" ∷ [];
  limits = record {
    requests_per_second = 2000;
    max_requests = 2;
    max_concurrent_requests = 1;
    max_cost_usd = 1000;
  };
  actions = record {
    read_only = true;
    state_mutation = true;
    destructive = false;
    require_state_change_approval = true;
    require_destructive_approval = true;
  };
  authorization_artifact_id = "ticket-1";
  allow_private_addresses = false;
  active_testing = record {
    enabled = true;
    max_payload_bytes = 64;
    max_cases = 2;
    kill_switch_file = some ".nighwatch-kill";
  };
}

abbrev pub calm : Surroundings
calm = record { getenv = λ name. none; is_file = λ path. false }

abbrev pub stopped : Surroundings
stopped = record { getenv = λ name. none; is_file = λ path. path == ".nighwatch-kill" }

abbrev pub gateway : ToolGateway ascii
gateway = new_gateway ascii config (some []) (" ticket-7 " ∷ "  " ∷ [])

abbrev pub get_health : ActionRequest
get_health = record {
  action_id = "act_1";
  tool = "nighwatch.http";
  target = "https://App.Example.com./api/health?token=abc&page=2";
  method = "get";
  risk = RiskLevel.read_only;
  purpose = "observation";
  approval_id = none;
}

abbrev pub post_echo : Option String → ActionRequest
post_echo approval = record {
  action_id = "act_2";
  tool = "nighwatch.http";
  target = "http://lab.example.com:8080/echo";
  method = "POST";
  risk = RiskLevel.state_change;
  purpose = "probe";
  approval_id = approval;
}
