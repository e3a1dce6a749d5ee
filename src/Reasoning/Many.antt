-- ===== src/Reasoning/Many.antt =====
-- What holds of every run of several steps.
use nighwatch.Common.{
  ℕ, ◌≤◌, String, ◌||◌, Option, none, some, List, [], ◌∷◌, ◌≡◌, ◌≢◌, refl, arith, ok, length, ltb,
  ◌==◌, Bool-cases, inl, inr, subst, sym,
}
use nighwatch.Python.Json.{Items}
use nighwatch.Python.Runtime.{Runtime}
use nighwatch.Python.Str.{strip}
use nighwatch.Http.Execute.{HttpExecutor}
use nighwatch.State.{InvestigationStateStore, InvestigationStep}
use nighwatch.Reasoning.{
  MultiStepInvestigationResult, InvestigationResult, LoopState, Loop, Turn, Ending, waits, fails,
  stops, goes_on, first_state, passes, conclude_run, result_of, run_many, Many,
}
use nighwatch.Reasoning.Runs.{IsRun, Trail, DistinctSteps, Reads, append_steps, passes-IsRun}

module _ (R : Runtime) where
  -- The steps of a result: some, a number at most, connected, and without a proposal validated twice.
  abbrev pub IsBoundedRun : ℕ → MultiStepInvestigationResult R → Type 0
  IsBoundedRun n m =
      (1 ≤ length m.steps)
      × (length m.steps ≤ n)
      × Trail R none m.steps (some m.last_result)
      × DistinctSteps R m.steps
      × (m.status ≡ m.last_result.status)

  result_of-IsBoundedRun :
      (n : ℕ) (s : LoopState R) (m : MultiStepInvestigationResult R) (reason : String)
      (last : Option (InvestigationResult R)) (new : List (InvestigationStep R))
      → s.steps ≡ new
      → 1 ≤ length new
      → length new ≤ n
      → Trail R none new last
      → DistinctSteps R new
      → result_of R reason s last ≡ ok m
      → IsBoundedRun n m
  unfolding result_of
  result_of-IsBoundedRun n s m reason none new same low high trail distinct e = ground (arith, e)
  result_of-IsBoundedRun n s m reason (some r) new same low high trail distinct e =
      let made : MultiStepInvestigationResult R = record {
        status = r.status;
        reason = reason;
        steps = s.steps;
        last_result = r;
        state_path = s.store.path;
      } in
      let bounded : IsBoundedRun n made =
        subst
          (λ steps.
            (1 ≤ length steps)
            × (length steps ≤ n)
            × Trail R none steps (some r)
            × DistinctSteps R steps
            × (r.status ≡ r.status))
          (sym same) (low, high, trail, distinct, refl) in
      let result : made ≡ m = ground (arith, e) in subst (IsBoundedRun n) result bounded

  length_some : (steps : List (InvestigationStep R)) → steps ≢ [] → 1 ≤ length steps
  length_some [] h = absurd (h refl)
  length_some (step ∷ steps) h = omega arith

  conclude_run-IsBoundedRun :
      (n : ℕ) (x : HttpExecutor R) (store : InvestigationStateStore R) (observation : String)
      (out : LoopState R × Ending R) (m : MultiStepInvestigationResult R)
      → 1 ≤ n
      → IsRun R n (first_state R x store observation) out
      → conclude_run R out.0 out.1 ≡ some (ok m)
      → IsBoundedRun n m
  unfolding conclude_run
  conclude_run-IsBoundedRun n x store observation (s, waits) m few run e = ground (arith, e)
  conclude_run-IsBoundedRun n x store observation (s, fails bad) m few run e = ground (arith, e)
  conclude_run-IsBoundedRun n x store observation (s, stops reason) m few run e =
      result_of-IsBoundedRun n s m reason s.last_result run.new run.steps
        (length_some run.new run.fills) run.short (run.trail tt) run.distinct (ground (arith, e))
  conclude_run-IsBoundedRun n x store observation (s, goes_on) m few run e =
      result_of-IsBoundedRun n s m "maximum investigation steps reached" s.last_result run.new
        run.steps (omega (arith, run.fills, few)) run.short (run.trail tt) run.distinct
        (ground (arith, e))

  -- A run as `run_many` may leave it.
  abbrev IsManyRun : InvestigationStateStore R → ℕ → Many R → Type 0
  IsManyRun store n out =
      ((m : MultiStepInvestigationResult R) → out.0 ≡ some (ok m) → (n ≤ 10) × IsBoundedRun n m)
      × ((vs : Items R.Float)
          → Reads R store vs
          → Reads R out.1.store (append_steps R vs out.1.steps))

  looped-IsManyRun :
      (x : HttpExecutor R) (store : InvestigationStateStore R) (observation : String) (n : ℕ)
      (out : LoopState R × Ending R)
      → 1 ≤ n
      → n ≤ 10
      → IsRun R n (first_state R x store observation) out
      → IsManyRun store n (conclude_run R out.0 out.1, out.0)
  looped-IsManyRun x store observation n (s, ending) few many run = (
    λ m e. (many, conclude_run-IsBoundedRun n x store observation (s, ending) m few run e),
    λ vs h.
        subst (λ steps. Reads R s.store (append_steps R vs steps)) (sym run.steps) (run.reads vs h),
  )

  run_many-IsManyRun :
      (x : HttpExecutor R) (store : InvestigationStateStore R) (l : Loop R) (turns : ℕ → Turn R)
      (max_steps : ℕ) (observation : String)
      → IsManyRun store max_steps (run_many R x store l turns max_steps observation)
  unfolding run_many
  run_many-IsManyRun x store l turns max_steps observation =
      elim (Bool-cases (ltb max_steps 1 || ltb 10 max_steps)) [
        | inl out_of_range ↦ rw out_of_range (λ m e. ground (arith, e), λ vs h. h)
        | inr in_range ↦ elim (Bool-cases (strip observation == "")) [
          | inl empty ↦ rw (in_range, empty) (λ m e. ground (arith, e), λ vs h. h)
          | inr named ↦
              rw (in_range, named)
                (looped-IsManyRun x store observation max_steps
                  (passes R l turns max_steps 0 (first_state R x store observation))
                  (ground (arith, in_range)) (ground (arith, in_range))
                  (passes-IsRun R l turns max_steps 0 (first_state R x store observation)))
        ]
      ]

  -- When `run_many` returns a result, `max_steps` is at most 10; the result has at least one step
  -- and at most `max_steps`; its last step has the status of the last result, which is the
  -- result's, and every other step has a status that is not terminal; and no two steps that were
  -- validated have the same task kind and reference.
  pub run_many-IsBoundedRun :
      (x : HttpExecutor R) (store : InvestigationStateStore R) (l : Loop R) (turns : ℕ → Turn R)
      (max_steps : ℕ) (observation : String) (m : MultiStepInvestigationResult R)
      → (run_many R x store l turns max_steps observation).0 ≡ some (ok m)
      → (max_steps ≤ 10) × IsBoundedRun max_steps m
  run_many-IsBoundedRun x store l turns max_steps observation m e =
      (run_many-IsManyRun x store l turns max_steps observation).0 m e

  -- If the investigation's file can be read before `run_many`, then after it, however it ends,
  -- the file can be read again, and its steps are those that stood there followed by those that
  -- the run has recorded, in order.
  pub run_many_records :
      (x : HttpExecutor R) (store : InvestigationStateStore R) (l : Loop R) (turns : ℕ → Turn R)
      (max_steps : ℕ) (observation : String) (vs : Items R.Float)
      → Reads R store vs
      → Reads R
          (run_many R x store l turns max_steps observation).1.store
          (append_steps R vs (run_many R x store l turns max_steps observation).1.steps)
  run_many_records x store l turns max_steps observation vs h =
      (run_many-IsManyRun x store l turns max_steps observation).1 vs h
