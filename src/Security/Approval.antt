-- ===== src/Security/Approval.antt =====
-- `ActionRequest`, `ApprovalDecision` and `ActionApprover` of agentsec/security.py.
pub mod Laws
use nighwatch.Common.{
  String, ◌<>◌, Bool, true, false, ◌&&◌, not, Option, none, some, ◌==◌, if◌then◌else◌,
}
use nighwatch.Models.Policy.{
  RiskLevel, state_change, destructive, risk_value, risk_eq, ActionPolicy, allows,
}

pub record ActionRequest : Type 0 where
  pub action_id : String
  pub tool : String
  pub target : String
  pub method : String
  pub risk : RiskLevel
  pub purpose : String
  pub approval_id : Option String

pub record ApprovalDecision : Type 0 where
  pub allowed : Bool
  pub reason : String
  pub action_id : String

-- `request.approval_id and self._approval_lookup(request.approval_id)`
unfoldable pub is_approved : (String → Bool) → Option String → Bool
is_approved lookup none = false
is_approved lookup (some id) = if id == "" then false else lookup id

-- `ActionApprover.evaluate`
unfoldable pub evaluate : ActionPolicy → (String → Bool) → ActionRequest → ApprovalDecision
unfolding allows is_approved
evaluate policy lookup request =
    let decide = λ (allowed : Bool) (reason : String).
      let d : ApprovalDecision = record {
        allowed = allowed;
        reason = reason;
        action_id = request.action_id;
      } in
      d in
    if not (allows policy request.risk)
    then decide false (risk_value request.risk <> " actions are disabled by engagement policy")
    else if risk_eq request.risk RiskLevel.read_only && policy.read_only
    then decide true "risk level is allowed by engagement policy"
    else if risk_eq request.risk state_change
        && policy.state_mutation
        && not policy.require_state_change_approval
    then decide true "state-changing actions are enabled without per-action approval"
    else if risk_eq request.risk destructive
        && policy.destructive
        && not policy.require_destructive_approval
    then decide true "destructive actions are enabled without per-action approval"
    else if is_approved lookup request.approval_id
    then decide true "explicit approval is valid"
    else decide false ("action risk " <> risk_value request.risk <> " requires explicit approval")
