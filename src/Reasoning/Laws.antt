-- ===== src/Reasoning/Laws.antt =====
-- What one pass of the loop does.
use nighwatch.Common.{
  ℕ, String, true, false, none, some, List, [], ◌∷◌, ◌++◌, ◌≡◌, refl, arith, ok, err, is_some,
  contains, eq_refl, Bool-cases, Result-cases, Option-cases, inl, inr, subst, sym, ap, ◌∙◌,
}
use nighwatch.Python.Runtime.{Runtime}
use nighwatch.Findings.Compare.{Comparison, Setting, Validated, compare}
use nighwatch.Http.Execute.{HttpExecutor}
use nighwatch.Planner.Proposal.{TaskProposal}
use nighwatch.Planner.Plan.{plan}
use nighwatch.State.{InvestigationStep, StepInput, append_step, new_step, safe_proposal}
use nighwatch.State.Laws.{IsAppended, append_step-IsAppended}
use nighwatch.Reasoning.{
  InvestigationResult, LoopState, Loop, Turn, Ending, waits, fails, stops, goes_on, planning,
  recording, executable_tasks, terminal, has_key, execute_proposal, executed_by, after_step,
  note_step, note_executed, take_proposal, pass, input_of, repeated, Executed,
}

module _ (R : Runtime) where
  new_step_same :
      (index : ℕ) (s : StepInput R)
      → ((new_step R index s).status ≡ s.status)
        × (is_some (new_step R index s).validation ≡ is_some s.validation)
        × ((new_step R index s).proposal.task_kind ≡ s.proposal.task_kind)
        × ((new_step R index s).proposal.target_ref ≡ s.proposal.target_ref)
  unfolding new_step safe_proposal
  new_step_same index s = elim (Option-cases s.validation) [
    | inl nothing ↦ (refl, rw nothing refl, refl, refl)
    | inr (v, something) ↦ (refl, rw something refl, refl, refl)
  ]

  -- What was seen stays seen.
  abbrev pub Grows : LoopState R → LoopState R → Type 0
  Grows s s' =
      (kind ref : String) → has_key s.seen kind ref ≡ true → has_key s'.seen kind ref ≡ true

  -- A proposal that was validated had not been seen, and has been now.
  abbrev pub IsFresh : LoopState R → LoopState R → InvestigationResult R → Type 0
  IsFresh s s' r =
      is_some r.validation ≡ true
      → (has_key s.seen r.proposal.task_kind r.proposal.target_ref ≡ false)
        × (has_key s'.seen r.proposal.task_kind r.proposal.target_ref ≡ true)

  -- A pass that recorded a step, for a result.
  pub record Stepped (s s' : LoopState R) : Type 0 where
    pub step : InvestigationStep R
    pub result : InvestigationResult R
    pub input : StepInput R
    pub steps : s'.steps ≡ s.steps ++ step ∷ []
    pub last : s'.last_result ≡ some result
    pub appended : IsAppended R s.store input step s'.store
    pub status : step.status ≡ result.status
    pub tested : is_some step.validation ≡ is_some result.validation
    pub kind : step.proposal.task_kind ≡ result.proposal.task_kind
    pub ref : step.proposal.target_ref ≡ result.proposal.target_ref
    pub fresh : IsFresh s s' result
    pub grows : Grows s s'

  -- What a pass leaves behind, by its ending.
  abbrev pub Leaves : LoopState R → LoopState R → Ending R → Type 0
  Leaves s s' waits = (s'.steps ≡ s.steps) × (s'.store ≡ s.store)
  Leaves s s' (fails e) = (s'.steps ≡ s.steps) × (s'.store ≡ s.store)
  Leaves s s' (stops reason) = Stepped s s'
  Leaves s s' goes_on = (h : Stepped s s') × (contains terminal h.step.status ≡ false)

  abbrev LeavesOf : LoopState R → LoopState R × Ending R → Type 0
  LeavesOf s out = Leaves s out.0 out.1

  Stepped-observation :
      (s s' : LoopState R) (text : String)
      → Stepped s s'
      → Stepped s (record s' { observation = text })
  Stepped-observation s s' text h = record {
    step = h.step;
    result = h.result;
    input = h.input;
    steps = h.steps;
    last = h.last;
    appended = h.appended;
    status = h.status;
    tested = h.tested;
    kind = h.kind;
    ref = h.ref;
    fresh = h.fresh;
    grows = h.grows;
  }

  after_step-Leaves :
      (r : InvestigationResult R) (s s' : LoopState R) (h : Stepped s s')
      → h.result ≡ r
      → LeavesOf s (after_step R r s')
  unfolding after_step Stepped-observation
  after_step-Leaves r s s' h same = elim (Bool-cases (contains terminal r.status)) [
    | inl ended ↦ rw ended h
    | inr more ↦ elim (Option-cases r.validation) [
      | inl nothing ↦ rw (more, nothing) h
      | inr (v, something) ↦
          let status : h.step.status ≡ r.status =
            subst (λ q. h.step.status ≡ q.status) same h.status in
          let going : contains terminal h.step.status ≡ false = rw status more in
          rw (more, something) (Stepped-observation s s' _ h, going)
    ]
  ]

  note_step-Leaves :
      (s : LoopState R) (seen : List (String × String)) (x : HttpExecutor R) (now : R.Float)
      (r : InvestigationResult R)
      → IsFresh s (record s { seen = seen; executor = x }) r
      → Grows s (record s { seen = seen; executor = x })
      → LeavesOf s (note_step R (record s { seen = seen; executor = x }) now r)
  note_step-Leaves s seen x now r fresh grows =
      let s1 : LoopState R = record s { seen = seen; executor = x } in
      elim (Result-cases (append_step R s.store (input_of R s1 now r))) [
        | inr (e, p) ↦
            let out : LoopState R × Ending R =
              (record s1 { last_result = some r }, fails (recording e)) in
            let same : note_step R s1 now r ≡ out = unfold note_step in ground (arith, p) in
            rw same (refl, refl)
        | inl ((step, store), p) ↦
            let appended = append_step-IsAppended R s.store (input_of R s1 now r) step store p in
            let facts = new_step_same _ (input_of R s1 now r) in
            let s2 : LoopState R = record s1 {
              steps = s.steps ++ step ∷ [];
              last_result = some r;
              store = store;
            } in
            let stepped : Stepped s s2 = record {
              step = step;
              result = r;
              input = input_of R s1 now r;
              steps = refl;
              last = refl;
              appended = appended;
              status = ap (λ st. st.status) appended.made ∙ facts.0;
              tested = ap (λ st. is_some st.validation) appended.made ∙ facts.1;
              kind = ap (λ st. st.proposal.task_kind) appended.made ∙ facts.2;
              ref = ap (λ st. st.proposal.target_ref) appended.made ∙ facts.3;
              fresh = fresh;
              grows = grows;
            } in
            let same : note_step R s1 now r ≡ after_step R r s2 =
              unfold note_step in ground (arith, p) in
            subst (LeavesOf s) (sym same) (after_step-Leaves r s s2 stepped refl)
      ]

  has_key-cons :
      (keys : List (String × String)) (k r kind ref : String)
      → has_key keys kind ref ≡ true
      → has_key ((k, r) ∷ keys) kind ref ≡ true
  unfolding has_key
  has_key-cons keys k r kind ref h = ground (arith, h)

  has_key-head :
      (keys : List (String × String)) (kind ref : String)
      → has_key ((kind, ref) ∷ keys) kind ref ≡ true
  unfolding has_key
  has_key-head keys kind ref = rw (eq_refl kind, eq_refl ref) refl

  executed_by-proposal :
      (p : TaskProposal R) (out : Validated R) (r : InvestigationResult R)
      → (executed_by R p out).0 ≡ some (ok r)
      → r.proposal ≡ p
  unfolding executed_by
  executed_by-proposal p out r e = elim (Option-cases out.outcome) [
    | inl nothing ↦ ground (arith, e, nothing)
    | inr (result, something) ↦ elim (Result-cases result) [
      | inr (x, bad) ↦ ground (arith, e, something, bad)
      | inl (v, good) ↦ ground (arith, e, something, good)
    ]
  ]

  execute_proposal-proposal :
      (x : HttpExecutor R) (setting : Setting R) (c : Comparison) (p : TaskProposal R)
      (r : InvestigationResult R)
      → (execute_proposal R x setting c p).0 ≡ some (ok r)
      → r.proposal ≡ p
  unfolding execute_proposal
  execute_proposal-proposal x setting c p r e =
      elim (Bool-cases (contains executable_tasks p.task_kind)) [
        | inl runs ↦ executed_by-proposal p (compare R x setting c) r (ground (arith, e, runs))
        | inr only_planned ↦ ground (arith, e, only_planned)
      ]

  note_executed-Leaves :
      (s : LoopState R) (p : TaskProposal R) (now : R.Float) (out : Executed R)
      → has_key s.seen p.task_kind p.target_ref ≡ false
      → ((r : InvestigationResult R) → out.0 ≡ some (ok r) → r.proposal ≡ p)
      → LeavesOf s
          (note_executed R (record s { seen = (p.task_kind, p.target_ref) ∷ s.seen }) now out)
  unfolding note_executed
  note_executed-Leaves s p now (none, x) new kept = (refl, refl)
  note_executed-Leaves s p now (some (err e), x) new kept = (refl, refl)
  note_executed-Leaves s p now (some (ok r), x) new kept =
      let same : r.proposal ≡ p = kept r refl in
      note_step-Leaves s ((p.task_kind, p.target_ref) ∷ s.seen) x now r
        (λ h. rw same (new, has_key-head s.seen p.task_kind p.target_ref))
        (λ kind ref. has_key-cons s.seen p.task_kind p.target_ref kind ref)

  take_proposal-Leaves :
      (l : Loop R) (t : Turn R) (s : LoopState R) (p : TaskProposal R)
      → LeavesOf s (take_proposal R l t s p)
  unfolding take_proposal
  take_proposal-Leaves l t s p = elim (Bool-cases (has_key s.seen p.task_kind p.target_ref)) [
    | inl known ↦ rw known (
        note_step-Leaves s s.seen s.executor t.now (repeated R p) (λ h. ground (arith, h))
          (λ kind ref h. h))
    | inr new ↦ rw new (
        note_executed-Leaves s p t.now (execute_proposal R s.executor t.setting l.comparison p) new
          (execute_proposal-proposal s.executor t.setting l.comparison p))
  ]

  pub pass-Leaves :
      (l : Loop R) (t : Turn R) (s : LoopState R) → Leaves s (pass R l t s).0 (pass R l t s).1
  pass-Leaves l t s =
      elim (Result-cases (plan R l.settings t.urlopen l.config s.observation).result) [
        | inr (e, q) ↦
            let out : LoopState R × Ending R = (s, fails (planning e)) in
            let same : pass R l t s ≡ out = unfold pass in ground (arith, q) in rw same (refl, refl)
        | inl (p, q) ↦
            let same : pass R l t s ≡ take_proposal R l t s p = unfold pass in ground (arith, q) in
            subst (LeavesOf s) (sym same) (take_proposal-Leaves l t s p)
      ]
