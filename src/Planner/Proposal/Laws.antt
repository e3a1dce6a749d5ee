-- ===== src/Planner/Proposal/Laws.antt =====
-- What holds of every proposal that is accepted, and reading one back.
use nighwatch.Common.{
  String, true, false, ◌&&◌, not, Option, some, ◌≡◌, ◌≢◌, refl, arith, Memᴰ, ok, bind_ok,
  raise_if_ok, eq_iff, contains, contains_iff, subst, Bool-cases, inl, inr,
}
use nighwatch.Python.Json.{Json, str, obj, Fields}
use nighwatch.Python.Runtime.{Runtime}
use nighwatch.Python.Str.{strip}
use nighwatch.Models.Engagement.Laws.{IsStripped}
use nighwatch.Models.Origin.RoundTrip.{IsTrim}
use nighwatch.Models.FromDict.{get}
use nighwatch.Models.Policy.{RiskLevel, risk_eq}
use nighwatch.Planner.Proposal.{
  refused, TaskProposal, task_kinds, not_opaque, kind_of, text_of, list_of, risk_in, number_in,
  approval_in, is_fraction, proposal_from_fields, proposal_from_dict,
}

text_of_ok :
    {F : Type 0} (message : String) (v : Option (Json F)) (s : String)
    → text_of message v ≡ ok s
    → strip s ≢ ""
text_of_ok message (some (str t)) s e = λ h. ground (arith, e, eq_iff (strip t) "", h)
text_of_ok message v s e = ground (arith, e)

risk_eq_not : (r : RiskLevel) → r ≢ RiskLevel.read_only → risk_eq r RiskLevel.read_only ≡ false
risk_eq_not RiskLevel.read_only h = absurd (h refl)
risk_eq_not RiskLevel.state_change h = refl
risk_eq_not RiskLevel.destructive h = refl

module _ (R : Runtime) where
  kind_of-Mem :
      (v : Option (Json R.Float)) (kind : String) → kind_of R v ≡ ok kind → Memᴰ kind task_kinds
  unfolding kind_of
  kind_of-Mem (some (str s)) kind e = elim (Bool-cases (contains task_kinds s)) [
    | inl yes_it_is ↦
        let same : s ≡ kind = ground (arith, e, yes_it_is) in
        subst (λ k. Memᴰ k task_kinds) same ((contains_iff task_kinds s).0 yes_it_is)
    | inr no_it_is_not ↦ ground (arith, e, no_it_is_not)
  ]
  kind_of-Mem v kind e = ground (arith, e)

  -- A proposal as it is accepted.
  pub record IsProposal (p : TaskProposal R) : Type 0 where
    pub kind : Memᴰ p.task_kind task_kinds
    pub target :
        (ref : String) × (p.target_ref ≡ strip ref) × (strip ref ≢ "") × (not_opaque ref ≡ false)
    pub reason : IsStripped p.reason
    pub confidence : is_fraction R p.confidence ≡ true
    pub approval : p.risk_level ≢ RiskLevel.read_only → p.approval_required ≡ true

  proposal_from_fields-IsProposal :
      (raw : Fields R.Float) (p : TaskProposal R) → proposal_from_fields R raw ≡ ok p → IsProposal p
  unfolding proposal_from_fields
  proposal_from_fields-IsProposal raw p e =
      let (kind, p1, e1) = bind_ok (kind_of R (get raw "task_kind")) _ p e in
      let (ref, p2, e2) =
        bind_ok (text_of "target_ref is required" (get raw "target_ref")) _ p e1 in
      let (h3, e3) =
        raise_if_ok (not_opaque ref)
          (refused "target_ref must be an opaque state reference, not a URL or filesystem path") _ p
          e2 in
      let (reason, p4, e4) = bind_ok (text_of "reason is required" (get raw "reason")) _ p e3 in
      let (profiles, p5, e5) =
        bind_ok (list_of "auth_profiles must be a list of strings" (get raw "auth_profiles")) _ p
          e4 in
      let (evidence, p6, e6) =
        bind_ok
          (list_of "expected_evidence must be a list of strings" (get raw "expected_evidence")) _ p
          e5 in
      let (risk, p7, e7) = bind_ok (risk_in R (get raw "risk_level")) _ p e6 in
      let (confidence, p8, e8) = bind_ok (number_in R (get raw "confidence")) _ p e7 in
      let (h9, e9) =
        raise_if_ok (not (is_fraction R confidence)) (refused "confidence must be between 0 and 1")
          _ p e8 in
      let approval = approval_in R risk (get raw "approval_required") in
      let (h10, e10) =
        raise_if_ok (not (risk_eq risk RiskLevel.read_only) && not approval)
          (refused "state-changing and destructive proposals must require approval") _ p e9 in
      let made : TaskProposal R = record {
        task_kind = kind;
        target_ref = strip ref;
        reason = strip reason;
        auth_profiles = profiles;
        expected_evidence = evidence;
        risk_level = risk;
        confidence = confidence;
        approval_required = approval;
      } in
      let accepted : IsProposal made = record {
        kind = kind_of-Mem (get raw "task_kind") kind p1;
        target = (ref, refl, text_of_ok _ (get raw "target_ref") ref p2, h3);
        reason = (reason, refl, text_of_ok _ (get raw "reason") reason p4);
        confidence = ground (arith, h9);
        approval = λ h. ground (arith, h10, risk_eq_not risk h);
      } in
      let same : made ≡ p = ground (arith, e10) in subst IsProposal same accepted

  pub proposal_from_dict-IsProposal :
      (v : Json R.Float) (p : TaskProposal R) → proposal_from_dict R v ≡ ok p → IsProposal p
  unfolding proposal_from_dict
  proposal_from_dict-IsProposal (obj fs) p e = proposal_from_fields-IsProposal fs p e
  proposal_from_dict-IsProposal v p e = ground (arith, e)

  -- A proposal that reading leaves alone.
  pub record IsNormalProposal (p : TaskProposal R) : Type 0 where
    pub kind : contains task_kinds p.task_kind ≡ true
    pub target : IsTrim p.target_ref
    pub opaque_target : not_opaque p.target_ref ≡ false
    pub reason : IsTrim p.reason
    pub confidence : is_fraction R p.confidence ≡ true
    pub approval : p.risk_level ≢ RiskLevel.read_only → p.approval_required ≡ true
