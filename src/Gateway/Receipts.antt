-- ===== src/Gateway/Receipts.antt =====
-- What the receipts file holds after a decision.
use nighwatch.Common.{
  Bool, ◌&&◌, Option, none, some, List, [], ◌∷◌, ◌++◌, ◌≡◌, refl, arith, Bool-cases, inl, inr, ok,
  err, if◌then◌else◌,
}
use nighwatch.Python.Runtime.{Runtime, IsFloat}
use nighwatch.Security.Approval.{ActionRequest}
use nighwatch.Security.Rate.Laws.{acquire_flag}
use nighwatch.Security.Kill.{Surroundings}
use nighwatch.Security.Receipt.{ActionReceipt}
use nighwatch.Gateway.{
  ToolGateway, GatewayDecision, authorize, receipt_for, record_decision, dry_run,
}
use nighwatch.Gateway.Laws.{authorize_ready_state, authorize_denied_state}

module _ {R : Runtime} where
  -- A receipt that records a permit: the three gates are open.
  abbrev pub records_permit : ActionReceipt R → Bool
  records_permit r = r.scope_allowed && r.approval_allowed && r.rate_ready

  -- The file after one more receipt.
  abbrev pub logged : ToolGateway R → ActionReceipt R → Option (List (ActionReceipt R))
  logged g r = elim g.receipts [ none ↦ none | some log ↦ some (log ++ r ∷ []) ]

module _ (R : Runtime) (F : IsFloat R) (g : ToolGateway R) (w : Surroundings) (now stamp : R.Float)
    (request : ActionRequest) where
  abbrev decision : GatewayDecision R
  decision = (authorize R g w now request).0

  -- For a runtime with lawful floats, the receipt of a decision records a permit exactly when the
  -- decision is ready.
  pub receipt-permit :
      (g' : ToolGateway R)
      → records_permit (receipt_for R g' stamp request decision) ≡ decision.ready
  unfolding authorize receipt_for
  receipt-permit g' = ground (arith, acquire_flag R F g.rate_limiter now)

  authorize_keeps :
      ((authorize R g w now request).1.receipts ≡ g.receipts)
      × ((authorize R g w now request).1.config ≡ g.config)
  authorize_keeps = elim (Bool-cases decision.ready) [
    | inl ready ↦ rw (authorize_ready_state R F g w now request ready) (refl, refl)
    | inr denied ↦ rw (authorize_denied_state R F g w now request denied) (refl, refl)
  ]

  -- For a runtime with lawful floats, a dry run appends one receipt for the request to the log,
  -- if there is one, whether it returns or raises; it returns that receipt if the receipt records
  -- a permit, and raises the gateway's decision if not.
  pub dry_run-receipt :
      (receipt : ActionReceipt R) × (receipt.action_id ≡ request.action_id)
      × ((dry_run R g w now stamp request).1.receipts ≡ logged g receipt)
      × ((dry_run R g w now stamp request).0
          ≡ (if records_permit receipt then ok receipt else err decision))
  unfolding dry_run record_decision receipt_for
  dry_run-receipt = (
    receipt_for R (authorize R g w now request).1 stamp request decision,
    refl,
    ground (arith, authorize_keeps.0),
    ground (arith, receipt-permit (authorize R g w now request).1),
  )
