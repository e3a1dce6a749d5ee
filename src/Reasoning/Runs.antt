-- ===== src/Reasoning/Runs.antt =====
-- What any number of passes does to the steps, the file and the proposals that were seen.
use nighwatch.Common.{
  ℕ, zero, suc, ◌≤◌, String, true, false, Option, some, List, [], ◌∷◌, ◌++◌, ◌≡◌, ◌≢◌, ◌⊎◌, refl,
  arith, ok, is_some, contains, length, All, inl, inr, subst, sym, ap, ◌∙◌,
}
use nighwatch.Python.Json.{Items, Fields}
use nighwatch.Python.Runtime.{Runtime}
use nighwatch.State.{InvestigationStateStore, InvestigationStep, append_item, step_dict, read_state}
use nighwatch.Reasoning.{
  InvestigationResult, LoopState, Loop, Turn, Ending, waits, fails, stops, goes_on, terminal,
  has_key, pass, passes, continue_with,
}
use nighwatch.Reasoning.Laws.{Stepped, Leaves, Grows, pass-Leaves}

module _ (R : Runtime) where
  -- A list of steps of the file, with more at its end.
  abbrev pub append_steps : Items R.Float → List (InvestigationStep R) → Items R.Float
  append_steps vs [] = vs
  append_steps vs (step ∷ steps) = append_steps (append_item vs (step_dict R step)) steps

  -- The file is readable, and its steps are these.
  abbrev pub Reads : InvestigationStateStore R → Items R.Float → Type 0
  Reads store vs = (current : Fields R.Float) × (read_state R store ≡ ok (current, vs))

  -- Each step belongs to a result, the last one to the one that is left, and the run went on after
  -- a step only where its status is not terminal.
  abbrev pub Trail :
      Option (InvestigationResult R)
      → List (InvestigationStep R)
      → Option (InvestigationResult R)
      → Type 0
  Trail before [] after = after ≡ before
  Trail before (step ∷ steps) after =
      (r : InvestigationResult R) × (step.status ≡ r.status)
      × ((steps ≡ []) ⊎ (contains terminal step.status ≡ false))
      × Trail (some r) steps after

  abbrev pub SameProposal : InvestigationStep R → InvestigationStep R → Type 0
  SameProposal a b =
      (a.proposal.task_kind ≡ b.proposal.task_kind)
      × (a.proposal.target_ref ≡ b.proposal.target_ref)

  abbrev pub WasValidated : InvestigationStep R → Type 0
  WasValidated step = is_some step.validation ≡ true

  -- No two steps that were validated have the same proposal.
  abbrev pub DistinctSteps : List (InvestigationStep R) → Type 0
  DistinctSteps [] = Unit
  DistinctSteps (step ∷ steps) =
      (WasValidated step → All (λ t. WasValidated t → SameProposal step t → ⊥) steps)
      × DistinctSteps steps

  abbrev Completes : Ending R → Type 0
  Completes waits = ⊥
  Completes (fails e) = ⊥
  Completes (stops reason) = Unit
  Completes goes_on = Unit

  abbrev Fills : ℕ → List (InvestigationStep R) → Ending R → Type 0
  Fills n new goes_on = length new ≡ n
  Fills n new (stops reason) = new ≢ []
  Fills n new waits = Unit
  Fills n new (fails e) = Unit

  abbrev AllNew : LoopState R → List (InvestigationStep R) → Type 0
  AllNew s steps =
      All (λ t. WasValidated t → has_key s.seen t.proposal.task_kind t.proposal.target_ref ≡ false)
        steps

  -- What `n` passes from one state do.
  pub record IsRun (n : ℕ) (s : LoopState R) (out : LoopState R × Ending R) : Type 0 where
    pub new : List (InvestigationStep R)
    pub steps : out.0.steps ≡ s.steps ++ new
    pub short : length new ≤ n
    pub fills : Fills n new out.1
    pub reads : (vs : Items R.Float) → Reads s.store vs → Reads out.0.store (append_steps vs new)
    pub trail : Completes out.1 → Trail s.last_result new out.0.last_result
    pub fresh : AllNew s new
    pub distinct : DistinctSteps new

  append-nil : {A : Type 0} (xs : List A) → xs ++ [] ≡ xs
  append-nil [] = refl
  append-nil (x ∷ xs) = ap (λ ys. x ∷ ys) (append-nil xs)

  append-cons :
      {A : Type 0} (xs : List A) (y : A) (ys : List A) → (xs ++ y ∷ []) ++ ys ≡ xs ++ y ∷ ys
  append-cons [] y ys = refl
  append-cons (x ∷ xs) y ys = ap (λ zs. x ∷ zs) (append-cons xs y ys)

  Stepped-Reads :
      (s s' : LoopState R) (h : Stepped R s s') (vs : Items R.Float)
      → Reads s.store vs
      → Reads s'.store (append_item vs (step_dict R h.step))
  Stepped-Reads s s' h vs (current, e) =
      let a = h.appended in
      let same : a.before.1 ≡ vs = ground (arith, e, a.readable) in
      (
        a.current,
        subst (λ ws. read_state R s'.store ≡ ok (a.current, append_item ws (step_dict R h.step)))
            same a.reads_back,
      )

  Stepped-fresh :
      (s s' : LoopState R) (h : Stepped R s s')
      → WasValidated h.step
      → (has_key s.seen h.step.proposal.task_kind h.step.proposal.target_ref ≡ false)
        × (has_key s'.seen h.step.proposal.task_kind h.step.proposal.target_ref ≡ true)
  Stepped-fresh s s' h v = rw (h.kind, h.ref) (h.fresh (sym h.tested ∙ v))

  AllNew-before :
      (s s' : LoopState R) (steps : List (InvestigationStep R))
      → Grows R s s'
      → AllNew s' steps
      → AllNew s steps
  AllNew-before s s' [] grows h = tt
  AllNew-before s s' (step ∷ steps) grows h = (
    λ v. ground (arith, h.0 v, grows step.proposal.task_kind step.proposal.target_ref),
    AllNew-before s s' steps grows h.1,
  )

  AllNew-apart :
      (s : LoopState R) (step : InvestigationStep R) (steps : List (InvestigationStep R))
      → has_key s.seen step.proposal.task_kind step.proposal.target_ref ≡ true
      → AllNew s steps
      → All (λ t. WasValidated t → SameProposal step t → ⊥) steps
  AllNew-apart s step [] known h = tt
  AllNew-apart s step (t ∷ steps) known h = (
    λ v same.
        let here : has_key s.seen t.proposal.task_kind t.proposal.target_ref ≡ true =
          rw (sym same.0, sym same.1) known in
        ground (arith, here, h.0 v),
    AllNew-apart s step steps known h.1,
  )

  nothing_new :
      (n : ℕ) (s s' : LoopState R) (ending : Ending R)
      → (s'.steps ≡ s.steps) × (s'.store ≡ s.store)
      → Fills n [] ending
      → (Completes ending → ⊥)
      → IsRun n s (s', ending)
  nothing_new n s s' ending same fills ends = record {
    new = [];
    steps = same.0 ∙ sym (append-nil s.steps);
    short = ground arith;
    fills = fills;
    reads = λ vs h. subst (λ store. Reads store vs) (sym same.1) h;
    trail = λ h. absurd (ends h);
    fresh = tt;
    distinct = tt;
  }

  Fills-cons :
      (n : ℕ) (step : InvestigationStep R) (new : List (InvestigationStep R)) (ending : Ending R)
      → Fills n new ending
      → Fills (suc n) (step ∷ new) ending
  Fills-cons n step new waits h = tt
  Fills-cons n step new (fails e) h = tt
  Fills-cons n step new (stops reason) h = λ e. ground (arith, e)
  Fills-cons n step new goes_on h = ap suc h

  one_more :
      (n : ℕ) (s s' : LoopState R) (out : LoopState R × Ending R) (h : Stepped R s s')
      → contains terminal h.step.status ≡ false
      → IsRun n s' out
      → IsRun (suc n) s out
  one_more n s s' out h going run = record {
    new = h.step ∷ run.new;
    steps = run.steps ∙ ap (λ steps. steps ++ run.new) h.steps ∙ append-cons s.steps h.step run.new;
    short = omega (arith, run.short);
    fills = Fills-cons n h.step run.new out.1 run.fills;
    reads = λ vs e. run.reads (append_item vs (step_dict R h.step)) (Stepped-Reads s s' h vs e);
    trail = λ c. (
      h.result,
      h.status,
      inr going,
      subst (λ before. Trail before run.new out.0.last_result) h.last (run.trail c),
    );
    fresh = (λ v. (Stepped-fresh s s' h v).0, AllNew-before s s' run.new h.grows run.fresh);
    distinct =
        (λ v. AllNew-apart s' h.step run.new (Stepped-fresh s s' h v).1 run.fresh, run.distinct);
  }

  last_one :
      (n : ℕ) (s s' : LoopState R) (reason : String)
      → Stepped R s s'
      → IsRun (suc n) s (s', stops reason)
  last_one n s s' reason h = record {
    new = h.step ∷ [];
    steps = h.steps;
    short = omega arith;
    fills = λ e. ground (arith, e);
    reads = λ vs e. Stepped-Reads s s' h vs e;
    trail = λ c. (h.result, h.status, inl refl, h.last);
    fresh = (λ v. (Stepped-fresh s s' h v).0, tt);
    distinct = (λ v. tt, tt);
  }

  continue_with-IsRun :
      (n : ℕ) (s : LoopState R) (next : LoopState R → LoopState R × Ending R)
      (out : LoopState R × Ending R)
      → ((s' : LoopState R) → IsRun n s' (next s'))
      → Leaves R s out.0 out.1
      → IsRun (suc n) s (continue_with R next out)
  unfolding continue_with
  continue_with-IsRun n s next (s', waits) runs h = nothing_new (suc n) s s' waits h tt (λ c. c)
  continue_with-IsRun n s next (s', fails e) runs h =
      nothing_new (suc n) s s' (fails e) h tt (λ c. c)
  continue_with-IsRun n s next (s', stops reason) runs h = last_one n s s' reason h
  continue_with-IsRun n s next (s', goes_on) runs (h, going) =
      one_more n s s' (next s') h going (runs s')

  -- Any number of passes.
  pub passes-IsRun :
      (l : Loop R) (turns : ℕ → Turn R) (n at : ℕ) (s : LoopState R)
      → IsRun n s (passes R l turns n at s)
  unfolding passes
  passes-IsRun l turns zero at s = record {
    new = [];
    steps = sym (append-nil s.steps);
    short = omega arith;
    fills = refl;
    reads = λ vs e. e;
    trail = λ c. refl;
    fresh = tt;
    distinct = tt;
  }
  passes-IsRun l turns (suc n) at s =
      continue_with-IsRun n s (λ s'. passes R l turns n (suc at) s') (pass R l (turns at) s)
        (λ s'. passes-IsRun l turns n (suc at) s') (pass-Leaves R l (turns at) s)
