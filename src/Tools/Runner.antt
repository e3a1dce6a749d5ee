-- ===== src/Tools/Runner.antt =====
-- `DeterministicToolRunner.run` of agentsec/tools.py. What becomes of the process that is launched, with
-- the polling that may stop it, is an argument; the launch is listed beside the result.
pub mod Laws
use nighwatch.Common.{
  ℕ, String, ◌<>◌, Bool, true, false, ◌||◌, ◌&&◌, not, Option, none, some, List, [], ◌∷◌, ◌++◌,
  take, Result, ok, err, ◌>>=◌, ◌>>◌, raise_if, starts_with, ◌==◌, if◌then◌else◌,
}
use nighwatch.Python.Bytes.{Bytes}
use nighwatch.Python.Dicts.{update}
use nighwatch.Python.Int.{ℤ}
use nighwatch.Python.Json.{Json, bool, int, str, obj, fields}
use nighwatch.Python.Runtime.{Runtime}
use nighwatch.Python.Url.{urlsplit}
use nighwatch.Models.Config.{EngagementConfig, policy_hash, strs}
use nighwatch.Security.Approval.{ActionRequest}
use nighwatch.Security.Kill.{Surroundings}
use nighwatch.Security.Redact.{redact_url}
use nighwatch.Gateway.{ToolGateway, GatewayDecision, record_decision, switch_tripped}
use nighwatch.Evidence.{Stamp, append, redact_body_preview}
use nighwatch.Http.Execute.{LoopEnd, cleared, refused, unsafe_wait, waiting, authorize_loop}
use nighwatch.Tools.Registry.{
  ToolSpec, ToolPlan, ToolError, unknown, blocked, tripped, escaped, get_spec, plan_tool,
}

pub record ToolRunner (R : Runtime) : Type 0 where
  pub config : EngagementConfig R
  pub gateway : ToolGateway R
  pub evidence : List (Json R.Float)
  pub specs : List ToolSpec
  pub max_output_bytes : ℕ

-- A call of `Popen`.
pub record Launch : Type 0 where
  pub command : List String
  pub environment : List (String × String)

-- How the process ends, and its two files.
pub record ProcessEnd : Type 0 where
  pub exit_code : ℤ
  pub timed_out : Bool
  pub killed : Bool
  pub stdout : Bytes
  pub stderr : Bytes

-- What surrounds one `run`; a launch may fail with an `OSError`.
pub record ToolWorld (R : Runtime) : Type 0 where
  pub action_id : String
  pub readings : List (Surroundings × R.Float)
  pub receipt_stamp : R.Float
  pub environ : List (String × String)
  pub which : String → Option String
  pub live : Surroundings
  pub process : Launch → Result String ProcessEnd
  pub evidence_stamp : Stamp R

pub record ToolObservation : Type 0 where
  pub tool : String
  pub evidence_id : String
  pub action_id : String
  pub exit_code : ℤ
  pub stdout_preview : String
  pub stderr_preview : String
  pub timed_out : Bool

-- The arguments of `run`.
pub record ToolCall : Type 0 where
  pub name : String
  pub target : String
  pub proxy_url : String
  pub approval_id : Option String

-- The result, or `none` while it waits; the runner after it, and what was launched.
pub record ToolRun (R : Runtime) : Type 0 where
  pub outcome : Option (Result ToolError ToolObservation)
  pub after : ToolRunner R
  pub launched : List Launch

-- `command[0] = executable`
abbrev pub with_executable : String → List String → List String
with_executable executable [] = []
with_executable executable (binary ∷ rest) = executable ∷ rest

abbrev pub is_auth_key : String → Bool
is_auth_key key = starts_with key "NIGHWATCH_AUTH_" || starts_with key "AGENTSEC_AUTH_"

-- Without the keys of credentials.
unfoldable pub without_auth : List (String × String) → List (String × String)
without_auth [] = []
without_auth ((key, value) ∷ kvs) =
    let rest = without_auth kvs in if is_auth_key key then rest else (key, value) ∷ rest

-- The environment with the proxy in it.
unfoldable pub proxy_environ : List (String × String) → String → List (String × String)
unfolding update
proxy_environ environ proxy_url = update environ (
    ("HTTP_PROXY", proxy_url)
    ∷ ("HTTPS_PROXY", proxy_url)
    ∷ ("ALL_PROXY", proxy_url)
    ∷ ("NO_PROXY", "")
    ∷ ("no_proxy", "")
    ∷ [])

-- The environment of the process.
unfoldable pub tool_environment : List (String × String) → String → List (String × String)
unfolding without_auth proxy_environ
tool_environment environ proxy_url = without_auth (proxy_environ environ proxy_url)

module _ (R : Runtime) where
  abbrev pub tool_action : ToolWorld R → ToolCall → ToolSpec → ActionRequest
  tool_action w call spec = record {
    action_id = w.action_id;
    tool = "nighwatch.tool." <> spec.name;
    target = call.target;
    method = "GET";
    risk = spec.risk;
    purpose = "fixed-argument " <> spec.name <> " observation through local proxy";
    approval_id = call.approval_id;
  }

  abbrev http_only : String → Result ToolError (Unit {0})
  http_only target = elim (urlsplit R target) [
    | err message ↦ err (escaped message)
    | ok parts ↦ raise_if (not (parts.scheme == "http")) (
        blocked
          "proxy tool execution currently accepts HTTP targets only; HTTPS CONNECT is disabled")
  ]

  abbrev executable_of : ToolSpec → Option String → Result ToolError String
  executable_of spec none = err (blocked ("tool binary is not installed: " <> spec.binary))
  executable_of spec (some path) = ok path

  -- What `run` has found before it asks the gateway.
  pub record Ready : Type 0 where
    pub spec : ToolSpec
    pub plan : ToolPlan
    pub executable : String

  -- From the top of `run` to the action.
  unfoldable pub prepare : ToolRunner R → ToolWorld R → ToolCall → Result ToolError Ready
  prepare x w call = do
    raise_if (not x.config.active_testing.enabled)
        (blocked "active testing is disabled by engagement policy")
    spec ← get_spec x.specs call.name
    raise_if (not spec.proxy_execution)
        (blocked (call.name <> " has no request-aware proxy adapter"))
    http_only call.target
    plan ← plan_tool R x.config x.specs w.which call.name call.target call.proxy_url
    executable ← executable_of spec (w.which spec.binary)
    ok (record { spec = spec; plan = plan; executable = executable })

  unfoldable pub tool_payload :
      ToolRunner R → ToolWorld R → ToolSpec → String → ProcessEnd → Json R.Float
  unfolding fields
  tool_payload x w spec safe_target done_with =
      let stdout = take x.max_output_bytes done_with.stdout in
      let stderr = take x.max_output_bytes done_with.stderr in
      obj (
        fields (
          ("engagement_id", str x.config.engagement_id)
          ∷ ("policy_hash", str (policy_hash R x.config))
          ∷ ("action_id", str w.action_id)
          ∷ ("tool", str spec.name)
          ∷ ("target", str safe_target)
          ∷ ("argv", strs (spec.binary ∷ (spec.fixed_flags ++ "[REDACTED_TARGET]" ∷ [])))
          ∷ ("exit_code", int done_with.exit_code)
          ∷ ("timed_out", bool done_with.timed_out)
          ∷ ("kill_switch_terminated", bool done_with.killed)
          ∷ ("stdout_sha256", str (R.sha256 stdout))
          ∷ ("stderr_sha256", str (R.sha256 stderr))
          ∷ ("stdout_preview", str (redact_body_preview R stdout x.max_output_bytes).0)
          ∷ ("stderr_preview", str (redact_body_preview R stderr x.max_output_bytes).0)
          ∷ []))

  abbrev fails_with : ToolRunner R → ToolError → List Launch → ToolRun R
  fails_with x e launched = record { outcome = some (err e); after = x; launched = launched }

  -- The evidence of a process that has ended, and the observation.
  unfoldable pub note_process :
      ToolRunner R → ToolWorld R → ToolCall → ToolSpec → List Launch → ProcessEnd → ToolRun R
  unfolding tool_payload
  note_process x w call spec launched done_with = elim (redact_url R call.target) [
    | err message ↦ fails_with x (escaped message) launched
    | ok safe ↦
        elim (append R x.evidence w.evidence_stamp "tool_observation"
          (tool_payload x w spec safe done_with)) [
            | err message ↦ fails_with x (escaped message) launched
            | ok written ↦ record {
              outcome = some (
                  ok (record {
                    tool = spec.name;
                    evidence_id = w.evidence_stamp.evidence_id;
                    action_id = w.action_id;
                    exit_code = done_with.exit_code;
                    stdout_preview =
                        (redact_body_preview R (take x.max_output_bytes done_with.stdout)
                          x.max_output_bytes).0;
                    stderr_preview =
                        (redact_body_preview R (take x.max_output_bytes done_with.stderr)
                          x.max_output_bytes).0;
                    timed_out = done_with.timed_out;
                  }));
              after = record x { evidence = written.1 };
              launched = launched;
            }
          ]
  ]

  unfoldable pub launch_of : ToolWorld R → ToolCall → Ready → Launch
  unfolding tool_environment
  launch_of w call ready = record {
    command = with_executable ready.executable ready.plan.argv;
    environment = tool_environment w.environ call.proxy_url;
  }

  -- After the receipt: `assert_live`, and the process.
  unfoldable pub launch : ToolRunner R → ToolWorld R → ToolCall → Ready → ToolRun R
  launch x w call ready =
      let l = launch_of w call ready in
      if switch_tripped R x.gateway w.live
      then fails_with x (tripped "kill switch is active") []
      else elim (w.process l) [
        | err message ↦ fails_with x (escaped message) (l ∷ [])
        | ok done_with ↦ note_process x w call ready.spec (l ∷ []) done_with
      ]

  abbrev pub noted :
      ToolRunner R → ToolGateway R → ToolWorld R → ActionRequest → GatewayDecision R → ToolRunner R
  noted x g w action decision = record x {
    gateway = (record_decision R g w.receipt_stamp action decision).1;
  }

  -- From the end of the loop around `authorize`.
  unfoldable pub proceed_tool :
      ToolRunner R → ToolWorld R → ToolCall → Ready → LoopEnd R × ToolGateway R → ToolRun R
  proceed_tool x w call ready (waiting, g) = record {
    outcome = none;
    after = record x { gateway = g };
    launched = [];
  }
  proceed_tool x w call ready (unsafe_wait, g) =
      fails_with (record x { gateway = g })
        (blocked "rate limiter requires an unsafe wait interval") []
  proceed_tool x w call ready (refused decision, g) =
      fails_with (noted x g w (tool_action w call ready.spec) decision) (blocked decision.reason) []
  proceed_tool x w call ready (cleared decision, g) =
      launch (noted x g w (tool_action w call ready.spec) decision) w call ready

  -- `DeterministicToolRunner.run`
  unfoldable pub run_tool : ToolRunner R → ToolWorld R → ToolCall → ToolRun R
  run_tool x w call = elim (prepare x w call) [
    | err e ↦ fails_with x e []
    | ok ready ↦
        proceed_tool x w call ready
          (authorize_loop R x.gateway (tool_action w call ready.spec) w.readings)
  ]
