-- ===== src/Findings/Compare/Laws.antt =====
-- What a validation rests on.
use nighwatch.Common.{
  String, true, Option, none, some, List, [], ◌∷◌, ◌≡◌, ◌≢◌, refl, arith, ok, err, ◌==◌, eq_iff,
  Bool-cases, Option-cases, Result-cases, inl, inr, sym, ◌∙◌,
}
use nighwatch.Python.Runtime.{Runtime}
use nighwatch.Security.Redact.{redact_url}
use nighwatch.Evidence.{Stamp, append}
use nighwatch.Http.Execute.{HttpExecutor, HttpObservation, Run}
use nighwatch.Findings.Signature.{signature, observed_impact, verdict}
use nighwatch.Findings.Signature.Laws.{IsVerified, verdict-verified_iff}
use nighwatch.Findings.Compare.{
  AuthorizationValidation, Comparison, Setting, Validated, validation_dict, unreported, conclude,
  finish, execute_as, then_with, judge, reproduce, fingerprint, compare,
}

module _ (R : Runtime) where
  conclude_fields :
      (x : HttpExecutor R) (v out : AuthorizationValidation) (id : String) (path : Option String)
      → (conclude R x v id path).outcome ≡ some (ok out)
      → (out.status ≡ v.status)
        × (out.impact_fields ≡ v.impact_fields)
        × (out.evidence_ids ≡ v.evidence_ids)
  unfolding conclude
  conclude_fields x v out id none e = ground (arith, e)
  conclude_fields x v out id (some path) e = ground (arith, e)

  finish_fields :
      (x : HttpExecutor R) (stamp : Stamp R) (c : Comparison) (status reason : String)
      (impact ids : List String) (out : AuthorizationValidation)
      → (finish R x stamp c (status, reason) impact ids).outcome ≡ some (ok out)
      → (out.status ≡ status) × (out.impact_fields ≡ impact) × (out.evidence_ids ≡ ids)
  unfolding finish
  finish_fields x stamp c status reason impact ids out e =
      elim (Result-cases (redact_url R c.url)) [
        | inr (message, p) ↦ ground (arith, e, p)
        | inl (endpoint, p) ↦
            let v = unreported c status reason impact ids endpoint in
            elim (Result-cases
              (append R x.evidence stamp "authorization_validation" (validation_dict R v))) [
                | inr (message, q) ↦ ground (arith, e, p, q)
                | inl (written, q) ↦
                    let x' = record x { evidence = written.1 } in
                    conclude_fields x' v out stamp.evidence_id c.report_path
                      (ground (arith, e, p, q))
              ]
      ]

  then_with_ok :
      (run : Run R) (next : HttpObservation R → HttpExecutor R → Validated R)
      (v : AuthorizationValidation)
      → (then_with R run next).outcome ≡ some (ok v)
      → (o : HttpObservation R) × (run.outcome ≡ some (ok o))
        × ((next o run.after).outcome ≡ some (ok v))
  unfolding then_with
  then_with_ok run next v e = elim (Option-cases run.outcome) [
    | inl p ↦ ground (arith, e, p)
    | inr (ok o, p) ↦ (o, p, ground (arith, e, p))
    | inr (err f, p) ↦ ground (arith, e, p)
  ]

  module _ (x : HttpExecutor R) (s : Setting R) (c : Comparison) (v : AuthorizationValidation) where
    -- Four executions in a row, by the owner, the subject and both again, whose answers the verdict
    -- is about.
    pub record Reproduced : Type 0 where
      pub owner : HttpObservation R
      pub subject : HttpObservation R
      pub owner_again : HttpObservation R
      pub subject_again : HttpObservation R
      pub x1 : HttpExecutor R
      pub x2 : HttpExecutor R
      pub x3 : HttpExecutor R
      pub baseline :
          (execute_as R x s.owner c c.owner_profile "authorization baseline").outcome
          ≡ some (ok owner)
      pub state1 : x1 ≡ (execute_as R x s.owner c c.owner_profile "authorization baseline").after
      pub comparison :
          (execute_as R x1 s.subject c c.subject_profile "authorization comparison").outcome
          ≡ some (ok subject)
      pub state2 :
          x2 ≡ (execute_as R x1 s.subject c c.subject_profile "authorization comparison").after
      pub baseline_again :
          (execute_as R x2 s.owner_again c c.owner_profile
            "independent authorization baseline").outcome
          ≡ some (ok owner_again)
      pub state3 :
          x3
          ≡ (execute_as R x2 s.owner_again c c.owner_profile
              "independent authorization baseline").after
      pub reproduction :
          (execute_as R x3 s.subject_again c c.subject_profile
            "independent authorization reproduction").outcome
          ≡ some (ok subject_again)
      pub evidence :
          v.evidence_ids
          ≡ owner.evidence_id ∷ subject.evidence_id ∷ owner_again.evidence_id
            ∷ subject_again.evidence_id ∷ []
      pub impact :
          v.impact_fields ≡ observed_impact R c.impact_fields (signature R subject.response)
      pub status :
          v.status
          ≡ (verdict
              (signature R owner.response)
              (signature R subject.response)
              (signature R owner_again.response)
              (signature R subject_again.response)
              (observed_impact R c.impact_fields (signature R subject.response))).0

    reproduce-Reproduced : (reproduce R x s c).outcome ≡ some (ok v) → Reproduced
    unfolding reproduce judge
    reproduce-Reproduced e =
        let r1 = execute_as R x s.owner c c.owner_profile "authorization baseline" in
        let (o1, p1, e1) = then_with_ok r1 _ v e in
        let r2 = execute_as R r1.after s.subject c c.subject_profile "authorization comparison" in
        let (o2, p2, e2) = then_with_ok r2 _ v e1 in
        let r3 =
          execute_as R r2.after s.owner_again c c.owner_profile
            "independent authorization baseline" in
        let (o3, p3, e3) = then_with_ok r3 _ v e2 in
        let r4 =
          execute_as R r3.after s.subject_again c c.subject_profile
            "independent authorization reproduction" in
        let (o4, p4, e4) = then_with_ok r4 _ v e3 in
        let (status, impact, ids) = finish_fields r4.after s.stamp c _ _ _ _ v e4 in
        record {
          owner = o1;
          subject = o2;
          owner_again = o3;
          subject_again = o4;
          x1 = r1.after;
          x2 = r2.after;
          x3 = r3.after;
          baseline = p1;
          state1 = refl;
          comparison = p2;
          state2 = refl;
          baseline_again = p3;
          state3 = refl;
          reproduction = p4;
          evidence = ids;
          impact = impact;
          status = status;
        }

    -- The two profiles resolve to different credentials.
    abbrev pub DistinctCredentials : Type 0
    DistinctCredentials =
        (f : String) × (g : String) × (fingerprint R x s c.owner_profile ≡ ok f)
        × (fingerprint R x s c.subject_profile ≡ ok g)
        × (f ≢ g)

    not_rejected : v.status ≡ "rejected" → v.status ≡ "verified" → ⊥
    not_rejected p q =
        let same : ("rejected" == "verified") ≡ true =
          (eq_iff "rejected" "verified").1 (sym p ∙ q) in
        ground (arith, same)

    compare_reproduces :
        (compare R x s c).outcome ≡ some (ok v)
        → v.status ≡ "verified"
        → (c.owner_profile ≢ c.subject_profile)
          × DistinctCredentials
          × ((reproduce R x s c).outcome ≡ some (ok v))
    unfolding compare
    compare_reproduces e h = elim (Bool-cases (c.owner_profile == c.subject_profile)) [
      | inl same ↦ ground (arith, e, same)
      | inr differ ↦ elim (Result-cases (fingerprint R x s c.owner_profile)) [
        | inr (failure, p) ↦ ground (arith, e, differ, p)
        | inl (f, p) ↦ elim (Result-cases (fingerprint R x s c.subject_profile)) [
          | inr (failure, q) ↦ ground (arith, e, differ, p, q)
          | inl (g, q) ↦ elim (Bool-cases (f == g)) [
            | inl alike ↦
                let finished : (finish R x s.stamp c
                      ("rejected", "auth profiles resolve to the same credential fingerprint") []
                      []).outcome
                    ≡ some (ok v) =
                  ground (arith, e, differ, p, q, alike) in
                let fields = finish_fields x s.stamp c _ _ [] [] v finished in
                elim (not_rejected fields.0 h) [ ]
            | inr unlike ↦ (
              λ same. ground (arith, differ, same, eq_iff c.owner_profile c.subject_profile),
              (f, g, p, q, λ same. ground (arith, unlike, same, eq_iff f g)),
              ground (arith, e, differ, p, q, unlike),
            )
          ]
        ]
      ]
    ]

    -- A validation is returned as verified only if the two profiles have different names and
    -- credentials, and four executions in a row, by the owner, the subject and both again,
    -- returned answers whose signatures meet every condition of a verified access; its evidence
    -- and impact fields are theirs.
    pub compare-Reproduced :
        (compare R x s c).outcome ≡ some (ok v)
        → v.status ≡ "verified"
        → (c.owner_profile ≢ c.subject_profile)
          × DistinctCredentials
          × ((r : Reproduced) × IsVerified
                (signature R r.owner.response)
                (signature R r.subject.response)
                (signature R r.owner_again.response)
                (signature R r.subject_again.response)
                (observed_impact R c.impact_fields (signature R r.subject.response)))
    compare-Reproduced e h =
        let (names, credentials, reproduced) = compare_reproduces e h in
        let r = reproduce-Reproduced reproduced in
        (names, credentials, (r, (verdict-verified_iff _ _ _ _ _).0 (sym r.status ∙ h)))
