-- ===== src/Gateway.antt =====
-- gateway.py: `ToolGateway`. The object's state is its limiter and the receipts file; the rest of it is
-- fixed when it is made.
pub mod Laws
pub mod Sessions
pub mod Receipts
pub mod Slots
use nighwatch.Common.{
  ℕ, String, ◌<>◌, Bool, true, false, ◌&&◌, ◌||◌, not, Option, none, some, List, [], ◌∷◌, Result,
  ok, err, ◌==◌, starts_with, contains, if◌then◌else◌,
}
use nighwatch.Python.Runtime.{Runtime}
use nighwatch.Python.Str.{strip}
use nighwatch.Models.Policy.{RiskLevel, risk_value, risk_eq}
use nighwatch.Models.Config.{ScopeDecision, EngagementConfig, policy_hash}
use nighwatch.Models.Scope.{check_url}
use nighwatch.Security.Approval.{ActionRequest, ApprovalDecision, evaluate}
use nighwatch.Security.Rate.{RateDecision, RateLimiter, new_limiter, acquire}
use nighwatch.Security.Kill.{Surroundings, tripped}
use nighwatch.Security.Redact.{redact_url}
use nighwatch.Security.Receipt.{ActionReceipt, write_receipt}

pub record GatewayDecision (R : Runtime) : Type 0 where
  pub ready : Bool
  pub reason : String
  pub scope : ScopeDecision
  pub approval : ApprovalDecision
  pub rate : RateDecision R

pub record ToolGateway (R : Runtime) : Type 0 where
  pub config : EngagementConfig R
  pub approved : List String
  pub rate_limiter : RateLimiter R
  -- the receipts file, or `none` without a logger
  pub receipts : Option (List (ActionReceipt R))

-- The identifiers that are not blank, without the space around them.
unfoldable pub approved_ids : List String → List String
approved_ids [] = []
approved_ids (id ∷ ids) =
    let rest = approved_ids ids in if strip id == "" then rest else strip id ∷ rest

module _ (R : Runtime) where
  -- `__init__`
  abbrev pub new_gateway :
      EngagementConfig R → Option (List (ActionReceipt R)) → List String → ToolGateway R
  new_gateway config receipts ids = record {
    config = config;
    approved = approved_ids ids;
    rate_limiter = new_limiter R config.limits;
    receipts = receipts;
  }

  abbrev pub switch_tripped : ToolGateway R → Surroundings → Bool
  switch_tripped g w = tripped R g.config.active_testing.kill_switch_file w

  abbrev pub approval_of : ToolGateway R → ActionRequest → ApprovalDecision
  approval_of g request = evaluate g.config.actions (contains g.approved) request

  unrated : ToolGateway R → String → RateDecision R
  unrated g reason = record {
    allowed = false;
    wait_seconds = R.float 0;
    reason = reason;
    request_count = g.rate_limiter.request_count;
  }

  blocked :
      ToolGateway R → ActionRequest → ScopeDecision → String → String → String → GatewayDecision R
  unfolding unrated
  blocked g request scope reason approval_reason rate_reason = record {
    ready = false;
    reason = reason;
    scope = scope;
    approval = record { allowed = false; reason = approval_reason; action_id = request.action_id };
    rate = unrated g rate_reason;
  }

  -- The last two tests of `authorize`.
  decide_rate : ScopeDecision → ApprovalDecision → RateDecision R → GatewayDecision R
  decide_rate scope approval rate =
      if not rate.allowed
      then record {
        ready = false;
        reason = "rate blocked: " <> rate.reason;
        scope = scope;
        approval = approval;
        rate = rate;
      }
      else if R.float_lt (R.float 0) rate.wait_seconds
      then record {
        ready = false;
        reason = "rate wait required: " <> R.float_fixed rate.wait_seconds <> "s";
        scope = scope;
        approval = approval;
        rate = rate;
      }
      else record {
        ready = true;
        reason = "action passed all pre-execution gates";
        scope = scope;
        approval = approval;
        rate = rate;
      }

  take_slot :
      ToolGateway R → R.Float → ScopeDecision → ApprovalDecision → GatewayDecision R × ToolGateway R
  unfolding decide_rate
  take_slot g now scope approval =
      let (rate, limiter) = acquire R g.rate_limiter now in
      (decide_rate scope approval rate, record g { rate_limiter = limiter })

  -- `ToolGateway.authorize`
  unfoldable pub authorize :
      ToolGateway R → Surroundings → R.Float → ActionRequest → GatewayDecision R × ToolGateway R
  unfolding blocked take_slot unrated
  authorize g w now request =
      let scope = check_url R g.config request.target request.method in
      let approval = approval_of g request in
      if not scope.allowed
      then (
        blocked g request scope ("scope blocked: " <> scope.reason)
            "not evaluated after scope denial" "not evaluated after scope denial",
        g,
      )
      else if switch_tripped g w
      then (
        blocked g request scope "kill switch is active" "kill switch is active"
            "not evaluated while kill switch is active",
        g,
      )
      else if not (risk_eq request.risk RiskLevel.read_only) && not g.config.active_testing.enabled
      then (
        blocked g request scope "active testing is disabled by engagement policy"
            "active testing is disabled by engagement policy"
            "not evaluated while active testing is disabled",
        g,
      )
      else if not approval.allowed
      then (
        record {
          ready = false;
          reason = "approval blocked: " <> approval.reason;
          scope = scope;
          approval = approval;
          rate = unrated g "not evaluated after approval denial";
        },
        g,
      )
      else take_slot g now scope approval

  -- The target as it is logged: an http(s) URL is redacted, and one that cannot be parsed is dropped.
  unfoldable pub safe_target : String → String
  safe_target target =
      if starts_with target "http://" || starts_with target "https://"
      then elim (redact_url R target) [
        | ok safe ↦ safe
        | err message ↦ "[REDACTED_INVALID_HTTP_TARGET]"
      ]
      else target

  unfoldable pub receipt_for :
      ToolGateway R → R.Float → ActionRequest → GatewayDecision R → ActionReceipt R
  receipt_for g stamp request decision = record {
    action_id = request.action_id;
    engagement_id = g.config.engagement_id;
    tool = request.tool;
    target = safe_target request.target;
    method = R.upper request.method;
    risk = risk_value request.risk;
    scope_allowed = decision.scope.allowed;
    scope_reason = decision.scope.reason;
    approval_allowed = decision.approval.allowed;
    approval_reason = decision.approval.reason;
    policy_hash = policy_hash R g.config;
    created_at = stamp;
    request_count = decision.rate.request_count;
    rate_ready = decision.rate.allowed && R.float_eq decision.rate.wait_seconds (R.float 0);
    rate_wait_seconds = decision.rate.wait_seconds;
    rate_reason = decision.rate.reason;
  }

  -- `ToolGateway.record_decision`
  unfoldable pub record_decision :
      ToolGateway R → R.Float → ActionRequest → GatewayDecision R → ActionReceipt R × ToolGateway R
  unfolding receipt_for
  record_decision g stamp request decision =
      let receipt = receipt_for g stamp request decision in
      (
        receipt,
        elim g.receipts [
          | none ↦ g
          | some log ↦ record g { receipts = some (write_receipt log receipt) }
        ],
      )

  -- `ToolGateway.dry_run`; `err` is the `GatewayBlocked` with its decision. `now` is what the limiter reads
  -- and `stamp` the receipt's time, which are one where the caller gives it.
  unfoldable pub dry_run :
      ToolGateway R
      → Surroundings
      → R.Float
      → R.Float
      → ActionRequest
      → Result (GatewayDecision R) (ActionReceipt R) × ToolGateway R
  dry_run g w now stamp request =
      let (decision, g') = authorize g w now request in
      let (receipt, g'') = record_decision g' stamp request decision in
      (if not decision.ready then err decision else ok receipt, g'')
