-- ===== src/Http/Execute/Laws.antt =====
-- When `execute` sends, and what it sends.
use nighwatch.Common.{
  String, false, List, [], ◌∷◌, Memᴰ, ◌≡◌, refl, arith, ok, Result, Bool-cases, Option-cases,
  Result-cases, inl, inr, ◌∙◌, if◌then◌else◌,
}
use nighwatch.Python.Runtime.{Runtime}
use nighwatch.Gateway.{switch_tripped}
use nighwatch.Evidence.{record_http}
use nighwatch.Mapping.{observe}
use nighwatch.Http.Headers.{Headers}
use nighwatch.Http.Request.{
  Sent, RequestFailure, caught, escaped, HttpResponse, address_request, send_request,
}
use nighwatch.Http.Execute.{
  HttpExecutor, HttpRequest, World, Checked, failure_exchange, response_exchange, note_failure,
  note_endpoint, note_response, perform, error_text, observed,
}

module _ (R : Runtime) (x : HttpExecutor R) (w : World R) (r : HttpRequest) (c : Checked)
    (headers : Headers) where
  note_failure-sent :
      (error : String) (sent : List Sent) → (note_failure R x w r c headers error sent).sent ≡ sent
  unfolding note_failure
  note_failure-sent error sent =
      elim (Result-cases (
        record_http R x.preview_bytes x.evidence w.evidence_stamp
          (failure_exchange R x w r c headers error))) [
            | inl (written, e) ↦ ground (arith, e)
            | inr (message, e) ↦ ground (arith, e)
          ]

  note_endpoint-sent :
      (x' : HttpExecutor R) (response : HttpResponse R) (sent : List Sent)
      → (note_endpoint R x' w r c response sent).sent ≡ sent
  unfolding note_endpoint
  note_endpoint-sent x' response sent = elim (Option-cases x'.endpoints) [
    | inl e ↦ ground (arith, e)
    | inr (endpoints, e) ↦ elim (Result-cases (observe R endpoints (observed R w r c response))) [
      | inl (found, p) ↦ ground (arith, e, p)
      | inr (message, p) ↦ ground (arith, e, p)
    ]
  ]

  note_response-sent :
      (response : HttpResponse R) (sent : List Sent)
      → (note_response R x w r c headers response sent).sent ≡ sent
  unfolding note_response
  note_response-sent response sent =
      elim (Result-cases (
        record_http R x.preview_bytes x.evidence w.evidence_stamp
          (response_exchange R x w r c headers response))) [
            | inl (written, e) ↦
                ground
                  (arith, e, note_endpoint-sent (record x { evidence = written.1 }) response sent)
            | inr (message, e) ↦ ground (arith, e)
          ]

  abbrev attempted : Result RequestFailure (HttpResponse R) × List Sent
  attempted =
      send_request R x.config x.max_body_bytes w.network w.elapsed_ms r.url c.method headers c.body

  perform_sent_lem :
      (perform R x w r c headers).sent
      ≡ (if switch_tripped R x.gateway w.live then [] else attempted.1)
  unfolding perform
  perform_sent_lem = elim (Bool-cases (switch_tripped R x.gateway w.live)) [
    | inl stopped ↦ ground (
      arith,
      stopped,
      note_failure-sent (error_text R "KillSwitchTripped" "kill switch is active") [],
    )
    | inr live ↦ elim (Result-cases attempted.0) [
      | inl (response, e) ↦ ground (arith, live, e, note_response-sent response attempted.1)
      | inr (caught name message, e) ↦
          ground (arith, live, e, note_failure-sent (error_text R name message) attempted.1)
      | inr (escaped message, e) ↦ ground (arith, live, e)
    ]
  ]

  attempted_sent :
      (s : Sent)
      → Memᴰ s attempted.1
      → (address_request R x.config w.network r.url c.method headers c.body ≡ ok s)
        × (attempted.1 ≡ s ∷ [])
  unfolding send_request
  attempted_sent s m =
      elim (Result-cases (address_request R x.config w.network r.url c.method headers c.body)) [
        | inr (failure, e) ↦
            let none_sent : attempted.1 ≡ [] = ground (arith, e) in elim (rw none_sent at m) [ ]
        | inl (t, e) ↦
            let one_sent : attempted.1 ≡ t ∷ [] = elim (Result-cases (w.network.exchange t)) [
              | inl (answer, p) ↦ ground (arith, e, p)
              | inr (failure, p) ↦ ground (arith, e, p)
            ] in
            let same : s ≡ t = only (rw one_sent at m) in (rw same e, rw (same, one_sent) refl)
      ]
    where
      only : {A : Type 0} {a b : A} → Memᴰ a (b ∷ []) → a ≡ b
      only (Memᴰ.head h) = h
      only (Memᴰ.tail t) = elim t [ ]

  -- What is sent is the request that `_request` has addressed, nothing else is sent, and the kill
  -- switch was off when it was.
  pub perform-sent :
      (s : Sent)
      → Memᴰ s (perform R x w r c headers).sent
      → (switch_tripped R x.gateway w.live ≡ false)
        × (address_request R x.config w.network r.url c.method headers c.body ≡ ok s)
        × ((perform R x w r c headers).sent ≡ s ∷ [])
  perform-sent s m = elim (Bool-cases (switch_tripped R x.gateway w.live)) [
    | inl stopped ↦
        let none_sent : (perform R x w r c headers).sent ≡ [] =
          ground (arith, perform_sent_lem, stopped) in
        elim (rw none_sent at m) [ ]
    | inr live ↦
        let all : (perform R x w r c headers).sent ≡ attempted.1 =
          ground (arith, perform_sent_lem, live) in
        let (addressed, only) = attempted_sent s (rw all at m) in (live, addressed, all ∙ only)
  ]
