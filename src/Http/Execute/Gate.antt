-- ===== src/Http/Execute/Gate.antt =====
-- What the gateway has decided on what is sent.
use nighwatch.Common.{
  true, false, Option, none, some, List, [], ◌∷◌, ◌++◌, Memᴰ, ◌≡◌, refl, arith, ok, Option-cases,
  Result-cases, inl, inr, ap, ◌∙◌,
}
use nighwatch.Python.Runtime.{Runtime, IsFloat}
use nighwatch.Security.Approval.{ActionRequest}
use nighwatch.Security.Kill.{Surroundings}
use nighwatch.Security.Receipt.{ActionReceipt}
use nighwatch.Gateway.{
  GatewayDecision, ToolGateway, switch_tripped, authorize, record_decision, receipt_for,
}
use nighwatch.Gateway.Laws.{IsAuthorized, HasSlot, authorize-ready_iff, authorize_ready_state}
use nighwatch.Gateway.Receipts.{records_permit, logged, receipt-permit}
use nighwatch.Http.Headers.{Headers}
use nighwatch.Http.Credentials.{resolve_auth_headers}
use nighwatch.Http.Request.{Sent, address_request}
use nighwatch.Http.Request.Laws.{IsAddressed, address_request-IsAddressed}
use nighwatch.Http.Execute.{
  HttpExecutor, HttpRequest, World, LoopEnd, cleared, refused, unsafe_wait, waiting, Run, Checked,
  check_request, action_of, authorize_loop, outgoing_headers, perform, proceed, execute, recorded,
}
use nighwatch.Http.Execute.Laws.{perform-sent}
use nighwatch.Http.Execute.Loop.{DecidedAt, authorize_loop_cleared}

-- The receipts file with one more receipt.
abbrev with_receipt :
    {R : Runtime}
    → ActionReceipt R
    → Option (List (ActionReceipt R))
    → Option (List (ActionReceipt R))
with_receipt receipt log = elim log [ none ↦ none | some rs ↦ some (rs ++ receipt ∷ []) ]

pub recorded-config :
    (R : Runtime) (g : ToolGateway R) (stamp : R.Float) (request : ActionRequest)
    (d : GatewayDecision R)
    → ((record_decision R g stamp request d).1.config ≡ g.config)
      × ((record_decision R g stamp request d).1.receipts
          ≡ logged g (receipt_for R g stamp request d))
unfolding record_decision
recorded-config R g stamp request d = elim (Option-cases g.receipts) [
  | inl e ↦ ground (arith, e)
  | inr (log, e) ↦ ground (arith, e)
]

-- What has happened before a request is sent: it was checked, it was in scope, approved, within
-- the budget and on pace at one of the readings, the kill switch was off then and is off now, and
-- it is addressed to what it names, with the headers of the caller and of the profile.
pub record Authorised {R : Runtime} (x : HttpExecutor R) (w : World R) (r : HttpRequest) (s : Sent)
    : Type 0 where
  pub checked : Checked
  pub credentials : Headers
  pub surroundings : Surroundings
  pub now : R.Float
  pub is_checked : check_request R x r ≡ ok checked
  pub listed : Memᴰ (surroundings, now) w.readings
  pub authorized : IsAuthorized x.gateway surroundings (action_of R w r checked)
  pub slot : HasSlot x.gateway now
  pub live : switch_tripped R x.gateway w.live ≡ false
  pub loaded :
      resolve_auth_headers R x.config r.auth_profile x.explicit_profiles w.environment
      ≡ ok credentials
  pub addressed :
      IsAddressed R x.config w.network r.url checked.method
        (outgoing_headers R checked.headers credentials checked.body)
        checked.body
        s

-- How the run that sends it comes about: the receipt of a permit is logged, and the `try` block is
-- entered with the kill switch off.
pub record Passage {R : Runtime} (x : HttpExecutor R) (w : World R) (r : HttpRequest) (s : Sent)
    (run : Run R) : Type 0 where
  pub checked : Checked
  pub headers : Headers
  pub executor : HttpExecutor R
  pub receipt : ActionReceipt R
  pub performed : run ≡ perform R executor w r checked headers
  pub live : switch_tripped R executor.gateway w.live ≡ false
  pub addressed :
      address_request R executor.config w.network r.url checked.method headers checked.body ≡ ok s
  pub same_evidence : executor.evidence ≡ x.evidence
  pub same_preview : executor.preview_bytes ≡ x.preview_bytes
  pub permit : records_permit receipt ≡ true
  pub same_action : receipt.action_id ≡ w.action_id
  pub logs : executor.gateway.receipts ≡ logged x.gateway receipt

module _ (R : Runtime) (F : IsFloat R) (x : HttpExecutor R) (w : World R) (r : HttpRequest)
    (s : Sent) where
  module _ (c : Checked) (p : check_request R x r ≡ ok c) where
    -- The executor whose gateway has taken the decision and logged it.
    abbrev passed : GatewayDecision R → ToolGateway R → HttpExecutor R
    passed d g = recorded R x g w (action_of R w r c) d

    module _ (d : GatewayDecision R) (g : ToolGateway R)
        (a : DecidedAt R F x.gateway (action_of R w r c) w.readings d g)
        (ready : d.ready ≡ true) where
      abbrev receipt_of : ActionReceipt R
      receipt_of = receipt_for R g w.receipt_stamp (action_of R w r c) d

      same_fixed : (g.config ≡ x.gateway.config) × (g.receipts ≡ x.gateway.receipts)
      same_fixed =
          let kept =
            authorize_ready_state R F x.gateway a.surroundings a.now (action_of R w r c)
              (ground (arith, a.decided, ready)) in
          let state : (authorize R x.gateway a.surroundings a.now (action_of R w r c)).1 ≡ g =
            ground (arith, a.decided) in
          (ground (arith, state, kept), ground (arith, state, kept))

      same_config : (passed d g).gateway.config ≡ x.gateway.config
      same_config = (recorded-config R g w.receipt_stamp (action_of R w r c) d).0 ∙ same_fixed.0

      permitted : records_permit receipt_of ≡ true
      permitted =
          let flag =
            receipt-permit R F x.gateway a.surroundings a.now w.receipt_stamp (action_of R w r c)
              g in
          let same : (authorize R x.gateway a.surroundings a.now (action_of R w r c)).0 ≡ d =
            ground (arith, a.decided) in
          (rw same at flag) ∙ ready

      same_id : receipt_of.action_id ≡ w.action_id
      unfolding receipt_for
      same_id = refl

      logs_receipt : (passed d g).gateway.receipts ≡ logged x.gateway receipt_of
      logs_receipt =
          let fixed = same_fixed in
          let logs = (recorded-config R g w.receipt_stamp (action_of R w r c) d).1 in
          logs ∙ ap (with_receipt receipt_of) fixed.1

    cleared_sends :
        (d : GatewayDecision R) (g : ToolGateway R)
        → DecidedAt R F x.gateway (action_of R w r c) w.readings d g
        → d.ready ≡ true
        → Memᴰ s (proceed R x w r c (cleared d, g)).sent
        → Authorised x w r s
          × Passage x w r s (proceed R x w r c (cleared d, g))
          × ((proceed R x w r c (cleared d, g)).sent ≡ s ∷ [])
    unfolding proceed
    cleared_sends d g a ready m =
        elim (Result-cases
          (resolve_auth_headers R x.config r.auth_profile x.explicit_profiles w.environment)) [
            | inr (e, q) ↦
                let nothing : (proceed R x w r c (cleared d, g)).sent ≡ [] = ground (arith, q) in
                elim (rw nothing at m) [ ]
            | inl (credentials, q) ↦
                let headers = outgoing_headers R c.headers credentials c.body in
                let all : (proceed R x w r c (cleared d, g)).sent
                    ≡ (perform R (passed d g) w r c headers).sent =
                  ground (arith, q) in
                let (live, addressed, only) =
                  perform-sent R (passed d g) w r c headers s (rw all at m) in
                let (authorized, slot) =
                  (authorize-ready_iff R F x.gateway a.surroundings a.now (action_of R w r c)).0
                    (ground (arith, a.decided, ready)) in
                (
                  record {
                    checked = c;
                    credentials = credentials;
                    surroundings = a.surroundings;
                    now = a.now;
                    is_checked = p;
                    listed = a.listed;
                    authorized = authorized;
                    slot = slot;
                    live = rw (same_config d g a ready) at live;
                    loaded = q;
                    addressed =
                        address_request-IsAddressed R x.config w.network r.url c.method headers
                          c.body s addressed;
                  },
                  record {
                    checked = c;
                    headers = headers;
                    executor = passed d g;
                    receipt = receipt_of d g a ready;
                    performed = ground (arith, q);
                    live = live;
                    addressed = addressed;
                    same_evidence = refl;
                    same_preview = refl;
                    permit = permitted d g a ready;
                    same_action = same_id d g a ready;
                    logs = logs_receipt d g a ready;
                  },
                  all ∙ only,
                )
          ]

    proceed-Authorised :
        (end : LoopEnd R × ToolGateway R)
        → authorize_loop R x.gateway (action_of R w r c) w.readings ≡ end
        → Memᴰ s (proceed R x w r c end).sent
        → Authorised x w r s
          × Passage x w r s (proceed R x w r c end)
          × ((proceed R x w r c end).sent ≡ s ∷ [])
    unfolding proceed
    proceed-Authorised (waiting, g) e m = elim m [ ]
    proceed-Authorised (unsafe_wait, g) e m = elim m [ ]
    proceed-Authorised (refused d, g) e m = elim m [ ]
    proceed-Authorised (cleared d, g) e m =
        let (a, ready) =
          authorize_loop_cleared R F x.gateway (action_of R w r c) w.readings d g e in
        cleared_sends d g a ready m

  pub execute_passes :
      Memᴰ s (execute R x w r).sent
      → Authorised x w r s × Passage x w r s (execute R x w r) × ((execute R x w r).sent ≡ s ∷ [])
  unfolding execute
  execute_passes m = elim (Result-cases (check_request R x r)) [
    | inr (e, p) ↦
        let nothing : (execute R x w r).sent ≡ [] = ground (arith, p) in elim (rw nothing at m) [ ]
    | inl (c, p) ↦
        let end = authorize_loop R x.gateway (action_of R w r c) w.readings in
        let all : execute R x w r ≡ proceed R x w r c end = ground (arith, p) in
        rw all (proceed-Authorised c p end refl (rw all at m))
  ]

  -- For a runtime with lawful floats, whatever `execute` sends was checked, was in scope,
  -- approved, within the budget and on pace at one of the clock's readings, with the kill switch
  -- off then and again when it is sent; it is addressed to what the URL names, with the headers
  -- of the caller and the profile; and it is the only thing that is sent.
  pub execute-Authorised :
      Memᴰ s (execute R x w r).sent → Authorised x w r s × ((execute R x w r).sent ≡ s ∷ [])
  execute-Authorised m = let (a, passage, only) = execute_passes m in (a, only)
