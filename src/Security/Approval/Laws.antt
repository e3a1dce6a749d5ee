-- ===== src/Security/Approval/Laws.antt =====
-- When an action is approved.
use nighwatch.Common.{
  String, Bool, true, false, Option, none, some, ◌≡◌, ◌≢◌, ◌↔◌, ◌⊎◌, arith, eq_iff, refl,
}
use nighwatch.Models.Policy.{RiskLevel, read_only, state_change, destructive, ActionPolicy}
use nighwatch.Security.Approval.{ActionRequest, is_approved, evaluate}

-- A non-empty identifier that the operator has approved.
abbrev pub HasApproval : (String → Bool) → Option String → Type 0
HasApproval lookup given = (id : String) × (given ≡ some id) × (id ≢ "") × (lookup id ≡ true)

-- The risk is enabled, and either it needs no approval for each action or the action has one.
abbrev pub MayAct : ActionPolicy → (String → Bool) → RiskLevel → Option String → Type 0
MayAct policy lookup read_only given = policy.read_only ≡ true
MayAct policy lookup state_change given =
    (policy.state_mutation ≡ true)
    × ((policy.require_state_change_approval ≡ false) ⊎ HasApproval lookup given)
MayAct policy lookup destructive given =
    (policy.destructive ≡ true)
    × ((policy.require_destructive_approval ≡ false) ⊎ HasApproval lookup given)

is_approved_iff :
    (lookup : String → Bool) (given : Option String)
    → (is_approved lookup given ≡ true) ↔ HasApproval lookup given
unfolding is_approved
is_approved_iff lookup none = ground arith
is_approved_iff lookup (some id) = (
  λ h. (id, refl, ground (arith, eq_iff id ""), ground arith),
  λ (j, e, n, h). ground (arith, eq_iff id ""),
)

module _ (policy : ActionPolicy) (lookup : String → Bool) where
  evaluate_cases :
      (risk : RiskLevel) (request : ActionRequest)
      → request.risk ≡ risk
      → ((evaluate policy lookup request).allowed ≡ true)
        ↔ MayAct policy lookup risk request.approval_id
  unfolding evaluate
  evaluate_cases read_only request e = ground arith
  evaluate_cases state_change request e = ground (arith, is_approved_iff lookup request.approval_id)
  evaluate_cases destructive request e = ground (arith, is_approved_iff lookup request.approval_id)

  -- An action is approved exactly when the policy enables its risk and, for a state-changing or
  -- destructive one, either no approval for each action is required or the request carries a
  -- non-empty identifier that is approved.
  pub evaluate-allowed_iff :
      (request : ActionRequest)
      → ((evaluate policy lookup request).allowed ≡ true)
        ↔ MayAct policy lookup request.risk request.approval_id
  evaluate-allowed_iff request = evaluate_cases request.risk request refl
