-- ===== src/Http/Execute/Logs.antt =====
-- What the receipts hold after something was sent.
use nighwatch.Common.{
  String, true, List, [], Memᴰ, ◌≡◌, arith, Bool-cases, Option-cases, Result-cases, inl, inr, ap,
  ◌∙◌,
}
use nighwatch.Python.Runtime.{Runtime, IsFloat}
use nighwatch.Security.Receipt.{ActionReceipt}
use nighwatch.Gateway.{switch_tripped}
use nighwatch.Gateway.Receipts.{records_permit, logged}
use nighwatch.Evidence.{record_http}
use nighwatch.Mapping.{observe}
use nighwatch.Http.Headers.{Headers}
use nighwatch.Http.Request.{Sent, HttpResponse, caught, escaped, send_request}
use nighwatch.Http.Execute.Gate.{execute_passes}
use nighwatch.Http.Execute.{
  HttpExecutor, HttpRequest, World, Checked, failure_exchange, response_exchange, note_failure,
  note_endpoint, note_response, perform, error_text, observed, execute,
}

module _ (R : Runtime) (x : HttpExecutor R) (w : World R) (r : HttpRequest) (c : Checked)
    (headers : Headers) where
  note_failure-gateway :
      (error : String) (sent : List Sent)
      → (note_failure R x w r c headers error sent).after.gateway ≡ x.gateway
  unfolding note_failure
  note_failure-gateway error sent =
      elim (Result-cases (
        record_http R x.preview_bytes x.evidence w.evidence_stamp
          (failure_exchange R x w r c headers error))) [
            | inl (written, e) ↦ ground (arith, e)
            | inr (message, e) ↦ ground (arith, e)
          ]

  note_endpoint-gateway :
      (x' : HttpExecutor R) (response : HttpResponse R) (sent : List Sent)
      → (note_endpoint R x' w r c response sent).after.gateway ≡ x'.gateway
  unfolding note_endpoint
  note_endpoint-gateway x' response sent = elim (Option-cases x'.endpoints) [
    | inl e ↦ ground (arith, e)
    | inr (endpoints, e) ↦ elim (Result-cases (observe R endpoints (observed R w r c response))) [
      | inl (found, p) ↦ ground (arith, e, p)
      | inr (message, p) ↦ ground (arith, e, p)
    ]
  ]

  note_response-gateway :
      (response : HttpResponse R) (sent : List Sent)
      → (note_response R x w r c headers response sent).after.gateway ≡ x.gateway
  unfolding note_response
  note_response-gateway response sent =
      elim (Result-cases (
        record_http R x.preview_bytes x.evidence w.evidence_stamp
          (response_exchange R x w r c headers response))) [
            | inl (written, e) ↦
                ground (
                  arith,
                  e,
                  note_endpoint-gateway (record x { evidence = written.1 }) response sent,
                )
            | inr (message, e) ↦ ground (arith, e)
          ]

  perform-gateway : (perform R x w r c headers).after.gateway ≡ x.gateway
  unfolding perform
  perform-gateway =
      let attempted =
        send_request R x.config x.max_body_bytes w.network w.elapsed_ms r.url c.method headers
          c.body in
      elim (Bool-cases (switch_tripped R x.gateway w.live)) [
        | inl stopped ↦ ground (
          arith,
          stopped,
          note_failure-gateway (error_text R "KillSwitchTripped" "kill switch is active") [],
        )
        | inr live ↦ elim (Result-cases attempted.0) [
          | inl (response, e) ↦ ground (arith, live, e, note_response-gateway response attempted.1)
          | inr (caught name message, e) ↦
              ground (arith, live, e, note_failure-gateway (error_text R name message) attempted.1)
          | inr (escaped message, e) ↦ ground (arith, live, e)
        ]
      ]

-- For a runtime with lawful floats, when something is sent, exactly one receipt has been added to
-- the log, if there is one; it is the action's and records a permit.
pub execute_logs :
    (R : Runtime) (F : IsFloat R) (x : HttpExecutor R) (w : World R) (r : HttpRequest) (s : Sent)
    → Memᴰ s (execute R x w r).sent
    → (receipt : ActionReceipt R) × (records_permit receipt ≡ true)
      × (receipt.action_id ≡ w.action_id)
      × ((execute R x w r).after.gateway.receipts ≡ logged x.gateway receipt)
execute_logs R F x w r s m =
    let (a, p, only) = execute_passes R F x w r s m in
    let kept = perform-gateway R p.executor w r p.checked p.headers in
    (
      p.receipt,
      p.permit,
      p.same_action,
      ap (λ run. run.after.gateway.receipts) p.performed ∙ (ap (λ g. g.receipts) kept ∙ p.logs),
    )
