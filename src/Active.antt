-- ===== src/Active.antt =====
-- agentsec/active.py: payloads put into a body template and sent through the HTTP executor.
pub mod Checks
pub mod Laws
use nighwatch.Common.{
  ℕ, zero, suc, String, ◌<>◌, Bool, true, false, not, Option, none, some, List, [], ◌∷◌, ◌++◌, map,
  Result, ok, err, ◌>>=◌, ◌>>◌, raise_if, contains, length, ltb, leb, ◌==◌, if◌then◌else◌,
}
use nighwatch.Python.Bytes.{Bytes, encode}
use nighwatch.Python.Int.{pos}
use nighwatch.Python.Json.{Json, bool, int, str, arr, obj, items, fields}
use nighwatch.Python.Runtime.{Runtime}
use nighwatch.Python.Str.{has_text, replace_text, str_int}
use nighwatch.Models.Config.{EngagementConfig, strs, ints}
use nighwatch.Http.Execute.{
  HttpExecutor, HttpObservation, HttpRequest, RequestBody, World, Run, execute,
}
use nighwatch.Http.Failure.{HttpFailure}
use nighwatch.Http.Request.{Sent}

pub record ActiveProbeResult : Type 0 where
  pub url : String
  pub method : String
  pub cases_requested : ℕ
  pub cases_executed : ℕ
  pub evidence_ids : List String
  pub statuses : List ℕ
  pub payload_hashes : List String

-- The arguments of `run`; a payload that is no text is `none`.
pub record Probe : Type 0 where
  pub url : String
  pub method : String
  pub body_template : String
  pub payloads : List (Option String)
  pub auth_profile : Option String
  pub approval_id : Option String
  pub content_type : String
  pub payload_label : String

-- An `ActiveProbeError`, or what the executor raises.
pub data ProbeFailure (R : Runtime) : Type 0 where
  probe_error : String → ProbeFailure R
  executing : HttpFailure R → ProbeFailure R

-- The observations and payload hashes, or `none` while an execution waits; the executor after them,
-- and what was sent.
pub record Probed (R : Runtime) : Type 0 where
  pub outcome : Option (Result (ProbeFailure R) (List (HttpObservation R × String)))
  pub after : HttpExecutor R
  pub sent : List Sent

abbrev pub placeholder : String
placeholder = "{{NIGHWATCH_PAYLOAD}}"

abbrev pub probe_methods : List String
probe_methods = "POST" ∷ "PUT" ∷ "PATCH" ∷ []

-- The body of one case.
unfoldable pub case_body : String → String → Bytes
unfolding encode replace_text
case_body template payload = encode (replace_text placeholder payload template)

module _ (R : Runtime) where
  -- `ActiveProbeResult.to_dict`
  unfoldable pub probe_dict : ActiveProbeResult → Json R.Float
  unfolding fields
  probe_dict r = obj (
      fields (
        ("url", str r.url)
        ∷ ("method", str r.method)
        ∷ ("cases_requested", int (pos r.cases_requested))
        ∷ ("cases_executed", int (pos r.cases_executed))
        ∷ ("evidence_ids", strs r.evidence_ids)
        ∷ ("statuses", ints r.statuses)
        ∷ ("payload_hashes", strs r.payload_hashes)
        ∷ ("finding_created", bool false)
        ∷ (
          "note",
          str "probe observations require an independent validator before becoming a finding",
        )
        ∷ []))

  -- The payloads, after as many as were taken before.
  unfoldable pub collect : ℕ → ℕ → List (Option String) → Result (ProbeFailure R) (List String)
  collect max_cases taken [] = ok []
  collect max_cases taken (none ∷ payloads) = err (probe_error "payloads must be strings")
  collect max_cases taken (some payload ∷ payloads) = do
    raise_if (leb max_cases taken) (
        probe_error
          ("payload count exceeds active_testing.max_cases (" <> str_int max_cases <> ")"))
    values ← collect max_cases (suc taken) payloads
    ok (payload ∷ values)

  unfoldable pub case_request : Probe → String → ℕ → Bytes → HttpRequest
  case_request p method index body = record {
    url = p.url;
    method = method;
    auth_profile = p.auth_profile;
    purpose = "bounded active payload observation";
    body = RequestBody.raw body;
    request_headers = ("Content-Type", p.content_type) ∷ [];
    approval_id = p.approval_id;
    payload_label = some (p.payload_label <> " #" <> str_int index);
  }

  abbrev with_case :
      HttpObservation R
      → String
      → Option (Result (ProbeFailure R) (List (HttpObservation R × String)))
      → Option (Result (ProbeFailure R) (List (HttpObservation R × String)))
  with_case o payload none = none
  with_case o payload (some (err e)) = some (err e)
  with_case o payload (some (ok rest)) = some (ok ((o, R.sha256 (encode payload)) ∷ rest))

  -- After the execution of one case: the other cases, if it returns.
  unfoldable pub after_case : Run R → String → (HttpExecutor R → Probed R) → Probed R
  after_case run payload next = elim run.outcome [
    | none ↦ record { outcome = none; after = run.after; sent = run.sent }
    | some (err e) ↦ record {
      outcome = some (err (executing e));
      after = run.after;
      sent = run.sent;
    }
    | some (ok o) ↦
        let rest = next run.after in
        record {
          outcome = with_case o payload rest.outcome;
          after = rest.after;
          sent = run.sent ++ rest.sent;
        }
  ]

  -- The cases from an index on, each in its own surroundings.
  unfoldable pub probe_cases :
      EngagementConfig R
      → Probe
      → String
      → (ℕ → World R)
      → HttpExecutor R
      → ℕ
      → List String
      → Probed R
  unfolding case_request after_case
  probe_cases c p method worlds x index [] = record { outcome = some (ok []); after = x; sent = [] }
  probe_cases c p method worlds x index (payload ∷ payloads) =
      let body = case_body p.body_template payload in
      if ltb c.active_testing.max_payload_bytes (length body)
      then record {
        outcome = some (
            err (
              probe_error
                ("payload case " <> str_int index <> " exceeds active_testing.max_payload_bytes")));
        after = x;
        sent = [];
      }
      else after_case (execute R x (worlds index) (case_request p method index body)) payload
          (λ x'. probe_cases c p method worlds x' (suc index) payloads)

  abbrev some_values : String → List String → Result (ProbeFailure R) (String × List String)
  some_values method [] = err (probe_error "at least one payload is required")
  some_values method (v ∷ vs) = ok (method, v ∷ vs)

  -- The checks before the first case: the method, and the payloads.
  unfoldable pub check_probe :
      EngagementConfig R → Probe → Result (ProbeFailure R) (String × List String)
  unfolding collect has_text
  check_probe c p = do
    let method = R.upper p.method
    raise_if (not (contains probe_methods method))
        (probe_error "active probes support only POST, PUT, and PATCH")
    raise_if (not (has_text placeholder p.body_template))
        (probe_error ("body template must contain " <> placeholder))
    raise_if (ltb c.active_testing.max_payload_bytes (length (encode p.body_template)))
        (probe_error "body template exceeds active_testing.max_payload_bytes")
    values ← collect c.active_testing.max_cases 0 p.payloads
    some_values method values

  -- The result of all cases.
  unfoldable pub probe_result :
      Probe → String → List String → List (HttpObservation R × String) → ActiveProbeResult
  probe_result p method values cases = record {
    url = p.url;
    method = method;
    cases_requested = length values;
    cases_executed = length cases;
    evidence_ids = map (λ o. o.0.evidence_id) cases;
    statuses = map (λ o. o.0.response.status) cases;
    payload_hashes = map (λ o. o.1) cases;
  }

  -- `ActiveProbeEngine.run`: its outcome, the executor after it, and what was sent.
  unfoldable pub run_probe :
      EngagementConfig R
      → HttpExecutor R
      → (ℕ → World R)
      → Probe
      → Option (Result (ProbeFailure R) ActiveProbeResult) × HttpExecutor R × List Sent
  unfolding probe_result
  run_probe c x worlds p = elim (check_probe c p) [
    | err e ↦ (some (err e), x, [])
    | ok (method, values) ↦
        let probed = probe_cases c p method worlds x 1 values in
        (
          elim probed.outcome [
            | none ↦ none
            | some (err e) ↦ some (err e)
            | some (ok cases) ↦ some (ok (probe_result p method values cases))
          ],
          probed.after,
          probed.sent,
        )
  ]
