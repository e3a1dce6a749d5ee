-- ===== src/Gateway/Laws.antt =====
-- When the gateway lets an action through, and what the decision changes.
use nighwatch.Common.{◌<◌, true, false, ◌≡◌, ◌↔◌, ◌⊎◌, arith, ok, contains}
use nighwatch.Python.Runtime.{Runtime, IsFloat}
use nighwatch.Python.Str.{strip}
use nighwatch.Models.Policy.{RiskLevel, read_only, risk_eq}
use nighwatch.Models.Scope.{Parsed, parse_target, check_url}
use nighwatch.Models.Scope.Laws.{InScope, check_url-allowed_iff}
use nighwatch.Security.Approval.{ActionRequest}
use nighwatch.Security.Approval.Laws.{MayAct, evaluate-allowed_iff}
use nighwatch.Security.Rate.{acquire}
use nighwatch.Security.Rate.Laws.{
  is_permit, Paced, permitted_at, acquire-permit_iff, acquire_permits, acquire_refuses,
}
use nighwatch.Security.Kill.{Surroundings}
use nighwatch.Gateway.{ToolGateway, switch_tripped, approval_of, authorize}

risk_eq_iff : (risk : RiskLevel) → (risk_eq risk read_only ≡ true) ↔ (risk ≡ read_only)
risk_eq_iff risk = ground arith

module _ {R : Runtime} where
  -- What the configuration asks of an action's target, risk and approval.
  pub record IsAuthorized (g : ToolGateway R) (w : Surroundings) (request : ActionRequest)
      : Type 0 where
    pub target : Parsed
    pub parsed : parse_target R (strip request.target) ≡ ok target
    pub in_scope : InScope g.config target (R.upper request.method)
    pub not_stopped : switch_tripped R g w ≡ false
    pub active : (request.risk ≡ read_only) ⊎ (g.config.active_testing.enabled ≡ true)
    pub may_act : MayAct g.config.actions (contains g.approved) request.risk request.approval_id

  -- The budget has room and the pace is kept.
  abbrev pub HasSlot : ToolGateway R → R.Float → Type 0
  HasSlot g now =
      (g.rate_limiter.request_count < g.rate_limiter.limits.max_requests)
      × Paced R g.rate_limiter.limits g.rate_limiter.last_request_at now

module _ (R : Runtime) (F : IsFloat R) (g : ToolGateway R) (w : Surroundings) (now : R.Float)
    (request : ActionRequest) where
  -- The gates before the limiter, as the code tests them.
  abbrev Gates : Type 0
  Gates =
      ((check_url R g.config request.target request.method).allowed ≡ true)
      × (switch_tripped R g w ≡ false)
      × ((risk_eq request.risk read_only ≡ true) ⊎ (g.config.active_testing.enabled ≡ true))
      × ((approval_of R g request).allowed ≡ true)

  ready_gates :
      (authorize R g w now request).0.ready ≡ true
      → Gates × (is_permit R (acquire R g.rate_limiter now).0 ≡ true)
  unfolding authorize
  ready_gates h = ground arith

  gates_ready :
      Gates
      → is_permit R (acquire R g.rate_limiter now).0 ≡ true
      → (authorize R g w now request).0.ready ≡ true
  unfolding authorize
  gates_ready s h = ground arith

  gates_of : IsAuthorized g w request → Gates
  gates_of a = (
    (check_url-allowed_iff R g.config request.target request.method).1
        (a.target, a.parsed, a.in_scope),
    a.not_stopped,
    ground (arith, a.active, risk_eq_iff request.risk),
    (evaluate-allowed_iff g.config.actions (contains g.approved) request).1 a.may_act,
  )

  of_gates : Gates → IsAuthorized g w request
  of_gates (scope, switch, active, approval) =
      let (p, e, s) = (check_url-allowed_iff R g.config request.target request.method).0 scope in
      record {
        target = p;
        parsed = e;
        in_scope = s;
        not_stopped = switch;
        active = ground (arith, active, risk_eq_iff request.risk);
        may_act = (evaluate-allowed_iff g.config.actions (contains g.approved) request).0 approval;
      }

  -- For a runtime with lawful floats, `authorize` is ready exactly when the target is in scope,
  -- the kill switch is off, the action is read-only or active testing is enabled, the policy
  -- approves it, the request budget has room and a full interval has passed since the last
  -- permitted request.
  pub authorize-ready_iff :
      ((authorize R g w now request).0.ready ≡ true) ↔ (IsAuthorized g w request × HasSlot g now)
  authorize-ready_iff = (
    λ h.
        let (s, permit) = ready_gates h in
        (of_gates s, (acquire-permit_iff R F g.rate_limiter now).0 permit),
    λ (a, slot). gates_ready (gates_of a) ((acquire-permit_iff R F g.rate_limiter now).1 slot),
  )

  pub authorize_ready_state :
      (authorize R g w now request).0.ready ≡ true
      → (authorize R g w now request).1
        ≡ record g { rate_limiter = permitted_at R g.rate_limiter now }
  unfolding authorize
  authorize_ready_state h = ground (arith, acquire_permits R F g.rate_limiter now)

  pub authorize_denied_state :
      (authorize R g w now request).0.ready ≡ false → (authorize R g w now request).1 ≡ g
  unfolding authorize
  authorize_denied_state h = ground (arith, acquire_refuses R F g.rate_limiter now)

  -- For a runtime with lawful floats, a decision that is ready takes one request from the budget
  -- and remembers its time; any other leaves the gateway as it was.
  pub authorize_state :
      (authorize R g w now request).1 ≡ (elim (authorize R g w now request).0.ready [
        | true ↦ record g { rate_limiter = permitted_at R g.rate_limiter now }
        | false ↦ g
      ])
  authorize_state = ground (arith, authorize_ready_state, authorize_denied_state)
