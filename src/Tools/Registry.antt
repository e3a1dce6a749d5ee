-- ===== src/Tools/Registry.antt =====
-- `ToolSpec`, `ToolRegistry`, `ToolPlan` and `plan` of agentsec/tools.py.
use nighwatch.Common.{
  String, ◌<>◌, Bool, true, false, ◌||◌, ◌&&◌, not, Option, none, some, List, [], ◌∷◌, ◌++◌, Result,
  ok, err, ◌>>=◌, ◌>>◌, raise_if, is_some, contains, ◌==◌, if◌then◌else◌,
}
use nighwatch.Python.Runtime.{Runtime}
use nighwatch.Python.Url.{urlsplit, username, password, hostname}
use nighwatch.Models.Config.{EngagementConfig}
use nighwatch.Models.Policy.{RiskLevel, risk_value}
use nighwatch.Models.Scope.{check_url, or_empty}

pub record ToolSpec : Type 0 where
  pub name : String
  pub binary : String
  pub description : String
  pub risk : RiskLevel
  pub direct_execution : Bool
  pub fixed_flags : List String
  pub proxy_execution : Bool
  pub proxy_flag : String

-- A `ConfigError`, a `ToolExecutionBlocked`, a `KillSwitchTripped`, or an exception of another kind.
pub data ToolError : Type 0 where
  unknown blocked tripped escaped : String → ToolError

pub record ToolPlan : Type 0 where
  pub tool : String
  pub binary : String
  pub argv : List String
  pub target : String
  pub available : Bool
  pub direct_execution : Bool
  pub proxy_execution : Bool
  pub risk : String
  pub reason : String

-- `ToolSpec.argv`, where no proxy is the empty text.
unfoldable pub spec_argv : ToolSpec → String → String → List String
spec_argv spec target proxy_url =
    let proxy =
      if not (proxy_url == "") && spec.proxy_execution
      then spec.proxy_flag ∷ proxy_url ∷ []
      else [] in
    spec.binary ∷ (proxy ++ (spec.fixed_flags ++ target ∷ []))

abbrev proxied : String → String → RiskLevel → List String → String → String → ToolSpec
proxied name description risk flags proxy_flag binary = record {
  name = name;
  binary = binary;
  description = description;
  risk = risk;
  direct_execution = false;
  fixed_flags = flags;
  proxy_execution = true;
  proxy_flag = proxy_flag;
}

-- `TOOL_SPECS`
unfoldable pub tool_specs : List ToolSpec
tool_specs =
    proxied "httpx" "single-target HTTP metadata probe" RiskLevel.read_only
      ("-silent" ∷ "-json" ∷ "-no-color" ∷ "-timeout" ∷ "5" ∷ "-retries" ∷ "0" ∷ "-rate-limit" ∷ "1"
        ∷ "-u" ∷ [])
      "-proxy" "httpx"
    ∷ proxied "katana" "bounded URL crawler" RiskLevel.read_only
        ("-silent" ∷ "-jsonl" ∷ "-depth" ∷ "1" ∷ "-crawl-duration" ∷ "10s" ∷ "-rate-limit" ∷ "1"
          ∷ "-u" ∷ [])
        "-proxy" "katana"
    ∷ record {
      name = "subfinder";
      binary = "subfinder";
      description = "passive subdomain discovery";
      risk = RiskLevel.read_only;
      direct_execution = false;
      fixed_flags = "-silent" ∷ "-all" ∷ "-recursive" ∷ "-d" ∷ [];
      proxy_execution = false;
      proxy_flag = "-proxy";
    }
    ∷ proxied "nuclei" "template-based vulnerability checks" RiskLevel.read_only
        ("-silent" ∷ "-no-color" ∷ "-rate-limit" ∷ "1" ∷ "-bulk-size" ∷ "1" ∷ "-concurrency" ∷ "1"
          ∷ "-u" ∷ [])
        "-proxy" "nuclei"
    ∷ proxied "ffuf" "content and parameter fuzzing" RiskLevel.state_change
        ("-s" ∷ "-rate" ∷ "1" ∷ "-t" ∷ "1" ∷ "-u" ∷ []) "-x" "ffuf"
    ∷ []

-- `{spec.name: spec for spec in specs}.get(name)`: the last of a name counts.
unfoldable pub find_spec : List ToolSpec → String → Option ToolSpec
find_spec [] name = none
find_spec (spec ∷ specs) name =
    let rest = find_spec specs name in
    elim rest [ some later ↦ some later | none ↦ if spec.name == name then some spec else none ]

-- `ToolRegistry.get`
unfoldable pub get_spec : List ToolSpec → String → Result ToolError ToolSpec
unfolding find_spec
get_spec specs name = elim (find_spec specs name) [
  | none ↦ err (unknown ("tool is not in the fixed registry: " <> name))
  | some spec ↦ ok spec
]

abbrev pub loopback_hosts : List String
loopback_hosts = "127.0.0.1" ∷ "localhost" ∷ "::1" ∷ []

module _ (R : Runtime) where
  -- The test of a proxy's URL, if there is one.
  unfoldable pub check_proxy : String → Result ToolError (Unit {0})
  check_proxy proxy_url = if proxy_url == "" then ok tt else elim (urlsplit R proxy_url) [
    | err message ↦ err (escaped message)
    | ok parsed ↦
        raise_if
          (not (parsed.scheme == "http")
            || (not (contains loopback_hosts (or_empty (hostname R parsed)))
                || (is_some (username parsed) || is_some (password parsed))))
          (blocked "tool proxy must be an unauthenticated local HTTP proxy")
  ]

  abbrev plan_reason : ToolSpec → String → String
  plan_reason spec proxy_url =
      if not spec.proxy_execution
      then "this tool has no request-aware proxy adapter"
      else if proxy_url == ""
      then "direct execution is disabled; provide a local request-aware proxy"
      else "fixed-argument proxy adapter is enabled"

  -- `DeterministicToolRunner.plan`, with `shutil.which` and the proxy, or the empty text for none.
  unfoldable pub plan_tool :
      EngagementConfig R
      → List ToolSpec
      → (String → Option String)
      → String
      → String
      → String
      → Result ToolError ToolPlan
  unfolding spec_argv get_spec check_proxy
  plan_tool c specs which name target proxy_url = do
    spec ← get_spec specs name
    let decision = check_url R c target "GET"
    raise_if (not decision.allowed) (blocked ("tool target blocked: " <> decision.reason))
    check_proxy proxy_url
    ok (record {
      tool = spec.name;
      binary = spec.binary;
      argv = spec_argv spec target proxy_url;
      target = target;
      available = is_some (which spec.binary);
      direct_execution = spec.direct_execution;
      proxy_execution = spec.proxy_execution;
      risk = risk_value spec.risk;
      reason = plan_reason spec proxy_url;
    })
