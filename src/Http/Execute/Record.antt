-- ===== src/Http/Execute/Record.antt =====
-- What the evidence file holds after something was sent.
use nighwatch.Common.{ℕ, String, some, [], ◌∷◌, ◌++◌, ◌≡◌, ok, err}
use nighwatch.Python.Json.{Json}
use nighwatch.Python.Runtime.{Runtime}
use nighwatch.Evidence.{HttpExchange, http_payload, signed_record}
use nighwatch.Evidence.Laws.{IsUnencodable}
use nighwatch.Http.Failure.{uncaught}
use nighwatch.Http.Headers.{Headers}
use nighwatch.Http.Execute.{HttpExecutor, HttpRequest, World, Run, Checked}

-- What the evidence says of an exchange for a request, with previews of a number of bytes at most.
abbrev pub IsToldOf : (R : Runtime) → ℕ → World R → HttpRequest → Json R.Float → Type 0
IsToldOf R preview_bytes w r payload =
    (exchange : HttpExchange R) × (exchange.url ≡ r.url)
    × (exchange.action_id ≡ w.action_id)
    × (http_payload R preview_bytes exchange ≡ ok payload)

module _ (R : Runtime) (x : HttpExecutor R) (w : World R) (r : HttpRequest) (c : Checked)
    (headers : Headers) where
  -- The evidence after a run is that before it and one record of the request.
  abbrev OneMore : Run R → Type 0
  OneMore run =
      (payload : Json R.Float) × IsToldOf R x.preview_bytes w r payload
      × (run.after.evidence
          ≡ x.evidence ++ signed_record R w.evidence_stamp "http_exchange" payload ∷ [])

  -- A payload that UTF-8 cannot encode: its record is not written, and the error ends the run.
  abbrev Unwritten : Run R → Type 0
  Unwritten run =
      (payload : Json R.Float) × (message : String) × IsToldOf R x.preview_bytes w r payload
      × IsUnencodable R w.evidence_stamp payload message
      × (run.after.evidence ≡ x.evidence)
      × (run.outcome ≡ some (err (uncaught message)))
