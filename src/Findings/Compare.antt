-- ===== src/Findings/Compare.antt =====
-- `AuthorizationValidator.compare` and `_finish`. The validator writes to the executor's evidence
-- store, as the command line sets it up.
pub mod Laws
use nighwatch.Common.{
  String, ◌<>◌, Bool, true, false, Option, none, some, List, [], ◌∷◌, ◌++◌, map, Result, ok, err,
  ◌>>=◌, ◌==◌, if◌then◌else◌,
}
use nighwatch.Python.Json.{Json, null, str, arr, obj, items, fields}
use nighwatch.Python.Runtime.{Runtime}
use nighwatch.Python.Sets.{join}
use nighwatch.Security.Kill.{Surroundings}
use nighwatch.Security.Redact.{redact_url}
use nighwatch.Evidence.{Stamp, append}
use nighwatch.Http.Credentials.{profile_fingerprint}
use nighwatch.Http.Execute.{
  HttpExecutor, HttpObservation, HttpRequest, RequestBody, World, Run, execute,
}
use nighwatch.Http.Failure.{HttpFailure, uncaught}
use nighwatch.Findings.Signature.{ResponseSignature, signature, observed_impact, verdict}

pub record AuthorizationValidation : Type 0 where
  pub status : String
  pub reason : String
  pub endpoint : String
  pub owner_profile : String
  pub subject_profile : String
  pub impact_fields : List String
  pub evidence_ids : List String
  pub report_path : Option String

-- The arguments of `compare`.
pub record Comparison : Type 0 where
  pub url : String
  pub owner_profile : String
  pub subject_profile : String
  pub impact_fields : List String
  -- the report's path, or `none` without a report directory
  pub report_path : Option String

-- What surrounds one `compare`: the environment at the fingerprints, the four executions, and the
-- validation's record.
pub record Setting (R : Runtime) : Type 0 where
  pub environment : Surroundings
  pub owner : World R
  pub subject : World R
  pub owner_again : World R
  pub subject_again : World R
  pub stamp : Stamp R

-- The validation, or `none` while an execution waits; the executor after it, and the report written.
pub record Validated (R : Runtime) : Type 0 where
  pub outcome : Option (Result (HttpFailure R) AuthorizationValidation)
  pub after : HttpExecutor R
  pub report : Option String

-- The validation before its report is written.
abbrev pub unreported :
    Comparison → String → String → List String → List String → String → AuthorizationValidation
unreported c status reason impact evidence_ids endpoint = record {
  status = status;
  reason = reason;
  endpoint = endpoint;
  owner_profile = c.owner_profile;
  subject_profile = c.subject_profile;
  impact_fields = impact;
  evidence_ids = evidence_ids;
  report_path = none;
}

module _ (R : Runtime) where
  -- `AuthorizationValidation.to_dict`
  unfoldable pub validation_dict : AuthorizationValidation → Json R.Float
  unfolding items fields
  validation_dict v = obj (
      fields (
        ("status", str v.status)
        ∷ ("reason", str v.reason)
        ∷ ("endpoint", str v.endpoint)
        ∷ ("owner_profile", str v.owner_profile)
        ∷ ("subject_profile", str v.subject_profile)
        ∷ ("impact_fields", arr (items (map str v.impact_fields)))
        ∷ ("evidence_ids", arr (items (map str v.evidence_ids)))
        ∷ ("report_path", elim v.report_path [ none ↦ null | some path ↦ str path ])
        ∷ []))

  -- The text that `_write_report` writes.
  unfoldable pub report_text : AuthorizationValidation → String → String
  unfolding join
  report_text v record_id = join "\n" (
      "# Broken object-level authorization validation"
      ∷ ""
      ∷ "## Status"
      ∷ ""
      ∷ "Verified by independent reproduction. Human review is still required before submission."
      ∷ ""
      ∷ "## Endpoint"
      ∷ ""
      ∷ ("- URL: `" <> v.endpoint <> "`")
      ∷ ("- Owner profile: `" <> v.owner_profile <> "`")
      ∷ ("- Subject profile: `" <> v.subject_profile <> "`")
      ∷ ("- Observed impact fields: " <> join ", " (map (λ f. "`" <> f <> "`") v.impact_fields))
      ∷ "- Suggested severity: assess according to the program's impact rubric"
      ∷ ""
      ∷ "## Reproduction"
      ∷ ""
      ∷ "1. Authenticate as the owner profile and request the endpoint."
      ∷ "2. Authenticate as the subject profile and request the same object."
      ∷ "3. Repeat both requests independently."
      ∷ "4. Compare the sanitized responses and confirm the impact fields."
      ∷ ""
      ∷ "## Evidence"
      ∷ ""
      ∷ ("- Validation record: `" <> record_id <> "`")
      ∷ (map (λ id. "- HTTP evidence: `" <> id <> "`") v.evidence_ids
          ++ "" ∷ "## Validation rationale" ∷ "" ∷ v.reason ∷ ""
            ∷ "Response bodies are intentionally stored as hashes plus bounded redacted previews. Re-check sensitive values locally before submitting a report."
            ∷ "" ∷ []))

  abbrev raises : HttpExecutor R → HttpFailure R → Validated R
  raises x e = record { outcome = some (err e); after = x; report = none }

  -- After the validation's record is written: the report, where the status asks for one.
  conclude : HttpExecutor R → AuthorizationValidation → String → Option String → Validated R
  conclude x v record_id none = record { outcome = some (ok v); after = x; report = none }
  conclude x v record_id (some path) =
      if v.status == "verified"
      then record {
        outcome = some (ok (record v { report_path = some path }));
        after = x;
        report = some (report_text v record_id);
      }
      else record { outcome = some (ok v); after = x; report = none }

  -- `_finish`
  unfoldable pub finish :
      HttpExecutor R
      → Stamp R
      → Comparison
      → String × String
      → List String
      → List String
      → Validated R
  unfolding conclude
  finish x stamp c (status, reason) impact evidence_ids = elim (redact_url R c.url) [
    | err message ↦ raises x (uncaught message)
    | ok endpoint ↦
        let v = unreported c status reason impact evidence_ids endpoint in
        elim (append R x.evidence stamp "authorization_validation" (validation_dict v)) [
          | err message ↦ raises x (uncaught message)
          | ok written ↦
              conclude (record x { evidence = written.1 }) v stamp.evidence_id c.report_path
        ]
  ]

  -- `self.executor.execute(url, auth_profile=..., purpose=...)`
  unfoldable pub execute_as : HttpExecutor R → World R → Comparison → String → String → Run R
  execute_as x w c profile purpose = execute R x w (record {
    url = c.url;
    method = "GET";
    auth_profile = some profile;
    purpose = purpose;
    body = RequestBody.no_body;
    request_headers = [];
    approval_id = none;
    payload_label = none;
  })

  -- What follows an execution, if it returns.
  unfoldable pub then_with :
      Run R → (HttpObservation R → HttpExecutor R → Validated R) → Validated R
  then_with run next = elim run.outcome [
    | none ↦ record { outcome = none; after = run.after; report = none }
    | some (err e) ↦ raises run.after e
    | some (ok observation) ↦ next observation run.after
  ]

  -- From the four observations on.
  unfoldable pub judge :
      HttpExecutor R
      → Stamp R
      → Comparison
      → HttpObservation R
      → HttpObservation R
      → HttpObservation R
      → HttpObservation R
      → Validated R
  judge x stamp c owner subject owner_again subject_again =
      let owner_sig = signature R owner.response in
      let subject_sig = signature R subject.response in
      let impact = observed_impact R c.impact_fields subject_sig in
      finish x stamp c
        (verdict owner_sig subject_sig (signature R owner_again.response)
          (signature R subject_again.response) impact)
        impact
        (owner.evidence_id ∷ subject.evidence_id ∷ owner_again.evidence_id
          ∷ subject_again.evidence_id ∷ [])

  -- The four executions, one after the other.
  unfoldable pub reproduce : HttpExecutor R → Setting R → Comparison → Validated R
  reproduce x s c =
      then_with (execute_as x s.owner c c.owner_profile "authorization baseline") (λ o1 x1.
        then_with (execute_as x1 s.subject c c.subject_profile "authorization comparison") (λ o2 x2.
          then_with
            (execute_as x2 s.owner_again c c.owner_profile "independent authorization baseline")
            (λ o3 x3.
              then_with
                (execute_as x3 s.subject_again c c.subject_profile
                  "independent authorization reproduction")
                (λ o4 x4. judge x4 s.stamp c o1 o2 o3 o4))))

  -- `self.executor.profile_fingerprint(profile)`
  abbrev pub fingerprint : HttpExecutor R → Setting R → String → Result (HttpFailure R) String
  fingerprint x s profile = profile_fingerprint R x.config profile x.explicit_profiles s.environment

  -- `compare`
  unfoldable pub compare : HttpExecutor R → Setting R → Comparison → Validated R
  compare x s c =
      if c.owner_profile == c.subject_profile
      then raises x (uncaught "owner and subject profiles must be different")
      else elim (fingerprint x s c.owner_profile) [
        | err e ↦ raises x e
        | ok owner ↦ elim (fingerprint x s c.subject_profile) [
          | err e ↦ raises x e
          | ok subject ↦
              if owner == subject
              then finish x s.stamp c
                  ("rejected", "auth profiles resolve to the same credential fingerprint") [] []
              else reproduce x s c
        ]
      ]
