-- ===== src/Reasoning.antt =====
-- agentsec/reasoning.py: the loop that plans, validates and records.
pub mod Laws
pub mod Runs
pub mod Many
use nighwatch.Common.{
  ℕ, zero, suc, ◌+◌, String, ◌<>◌, Bool, true, false, ◌||◌, ◌&&◌, Option, none, some, List, [], ◌∷◌,
  ◌++◌, map, Result, ok, err, ltb, contains, is_some, ◌==◌, if◌then◌else◌,
}
use nighwatch.Python.Json.{Json, null, str, arr, obj, Items, Fields, items, fields}
use nighwatch.Python.Runtime.{Runtime}
use nighwatch.Python.Sets.{join}
use nighwatch.Python.Str.{strip, take_chars}
use nighwatch.Models.Config.{EngagementConfig}
use nighwatch.Models.FromDict.{ModelError}
use nighwatch.Http.Execute.{HttpExecutor}
use nighwatch.Http.Failure.{HttpFailure}
use nighwatch.Findings.Compare.{
  AuthorizationValidation, Comparison, Setting, Validated, compare, validation_dict,
}
use nighwatch.Ollama.Config.{OllamaConfig}
use nighwatch.Ollama.Client.{Call, Reply}
use nighwatch.Planner.Proposal.{PlannerError, TaskProposal, proposal_fields}
use nighwatch.Planner.Plan.{plan}
use nighwatch.State.{InvestigationStateStore, InvestigationStep, StepInput, append_step, step_dict}

pub record InvestigationResult (R : Runtime) : Type 0 where
  pub status : String
  pub reason : String
  pub proposal : TaskProposal R
  pub validation : Option AuthorizationValidation

pub record MultiStepInvestigationResult (R : Runtime) : Type 0 where
  pub status : String
  pub reason : String
  pub steps : List (InvestigationStep R)
  pub last_result : InvestigationResult R
  pub state_path : String

-- The exceptions of the parts, `ValueError` of the loop, and its assertion.
pub data LoopError (R : Runtime) : Type 0 where
  planning : PlannerError → LoopError R
  executing : HttpFailure R → LoopError R
  recording : ModelError → LoopError R
  bad_value : String → LoopError R
  assertion : LoopError R

-- What surrounds one pass: the model server, the validation, and the clock.
pub record Turn (R : Runtime) : Type 0 where
  pub urlopen : Call R → Reply
  pub setting : Setting R
  pub now : R.Float

-- What stays the same in a run.
pub record Loop (R : Runtime) : Type 0 where
  pub settings : OllamaConfig R
  pub config : EngagementConfig R
  pub comparison : Comparison

-- What a run changes.
pub record LoopState (R : Runtime) : Type 0 where
  pub observation : String
  pub seen : List (String × String)
  pub steps : List (InvestigationStep R)
  pub last_result : Option (InvestigationResult R)
  pub executor : HttpExecutor R
  pub store : InvestigationStateStore R

-- How a pass ends: an execution still waits, an exception, `break` with the terminal reason, or on.
pub data Ending (R : Runtime) : Type 0 where
  waits : Ending R
  fails : LoopError R → Ending R
  stops : String → Ending R
  goes_on : Ending R

abbrev pub executable_tasks : List String
executable_tasks = "compare_authorization" ∷ "validate_candidate" ∷ []

abbrev pub terminal : List String
terminal = "verified" ∷ "rejected" ∷ "planned" ∷ []

-- `key in seen`
unfoldable pub has_key : List (String × String) → String → String → Bool
has_key [] kind ref = false
has_key ((k, r) ∷ ks) kind ref = if (k == kind) && (r == ref) then true else has_key ks kind ref

module _ (R : Runtime) where
  -- `InvestigationResult.to_dict`
  unfoldable pub result_dict : InvestigationResult R → Json R.Float
  unfolding fields
  result_dict r = obj (
      fields (
        ("status", str r.status)
        ∷ ("reason", str r.reason)
        ∷ ("proposal", obj (proposal_fields R r.proposal))
        ∷ ("validation", elim r.validation [ none ↦ null | some v ↦ validation_dict R v ])
        ∷ []))

  -- `MultiStepInvestigationResult.to_dict`
  unfoldable pub multi_step_dict : MultiStepInvestigationResult R → Json R.Float
  unfolding result_dict fields items
  multi_step_dict m = obj (
      fields (
        ("status", str m.status)
        ∷ ("reason", str m.reason)
        ∷ ("steps", arr (items (map (step_dict R) m.steps)))
        ∷ ("last_result", result_dict m.last_result)
        ∷ ("state_path", str m.state_path)
        ∷ []))

  -- A result and the executor after it; `none` while an execution waits.
  abbrev pub Executed : Type 0
  Executed = Option (Result (LoopError R) (InvestigationResult R)) × HttpExecutor R

  abbrev pub unexecuted : String → TaskProposal R → InvestigationResult R
  unexecuted reason p = record {
    status = "planned";
    reason = reason;
    proposal = p;
    validation = none;
  }

  abbrev pub validated : TaskProposal R → AuthorizationValidation → InvestigationResult R
  validated p v = record {
    status = v.status;
    reason = "planner proposal executed through the authorization validator";
    proposal = p;
    validation = some v;
  }

  executed_by : TaskProposal R → Validated R → Executed
  executed_by p done_with = elim done_with.outcome [
    | none ↦ (none, done_with.after)
    | some (err e) ↦ (some (err (executing e)), done_with.after)
    | some (ok v) ↦ (some (ok (validated p v)), done_with.after)
  ]

  -- `_execute_proposal`
  unfoldable pub execute_proposal :
      HttpExecutor R → Setting R → Comparison → TaskProposal R → Executed
  unfolding executed_by
  execute_proposal x setting c p =
      if contains executable_tasks p.task_kind then executed_by p (compare R x setting c) else (
        some
            (ok (unexecuted "the proposed task has no executable adapter in this bounded cycle" p)),
        x,
      )

  -- `run`
  unfoldable pub run_once : HttpExecutor R → Loop R → Turn R → String → Executed
  run_once x l t observation = elim (plan R l.settings t.urlopen l.config observation).result [
    | err e ↦ (some (err (planning e)), x)
    | ok p ↦ execute_proposal x t.setting l.comparison p
  ]

  -- The summary that the next pass plans from.
  unfoldable pub next_observation : AuthorizationValidation → String
  unfolding join
  next_observation v =
      let listed = join "," v.impact_fields in
      "Previous bounded authorization validation result:\n"
      <> "status="
      <> v.status
      <> "\nreason="
      <> v.reason
      <> "\nimpact_fields="
      <> (if listed == "" then "none" else listed)
      <> "\nChoose the smallest next verification task. Do not invent URLs or credentials."

  -- After the step is recorded.
  unfoldable pub after_step : InvestigationResult R → LoopState R → LoopState R × Ending R
  unfolding next_observation
  after_step r s = if contains terminal r.status then (s, stops r.reason) else elim r.validation [
    | none ↦ (s, stops r.reason)
    | some v ↦ (record s { observation = next_observation v }, goes_on)
  ]

  abbrev pub input_of : LoopState R → R.Float → InvestigationResult R → StepInput R
  input_of s now r = record {
    observation = s.observation;
    proposal = r.proposal;
    status = r.status;
    reason = r.reason;
    validation = r.validation;
    now = now;
  }

  -- `state_store.append` and what follows in the pass.
  unfoldable pub note_step : LoopState R → R.Float → InvestigationResult R → LoopState R × Ending R
  note_step s now r = elim (append_step R s.store (input_of s now r)) [
    | err e ↦ (record s { last_result = some r }, fails (recording e))
    | ok (step, store) ↦
        after_step r
          (record s { steps = s.steps ++ step ∷ []; last_result = some r; store = store })
  ]

  abbrev pub repeated : TaskProposal R → InvestigationResult R
  repeated p = unexecuted "repeated proposal stopped to prevent an investigation loop" p

  abbrev pub with_executor : LoopState R → HttpExecutor R → LoopState R
  with_executor s x = record s { executor = x }

  unfoldable pub note_executed : LoopState R → R.Float → Executed → LoopState R × Ending R
  note_executed s now (outcome, x) = elim outcome [
    | none ↦ (with_executor s x, waits)
    | some (err e) ↦ (with_executor s x, fails e)
    | some (ok r) ↦ note_step (with_executor s x) now r
  ]

  -- One pass, for the proposal of the planner.
  unfoldable pub take_proposal :
      Loop R → Turn R → LoopState R → TaskProposal R → LoopState R × Ending R
  unfolding note_executed
  take_proposal l t s p =
      if has_key s.seen p.task_kind p.target_ref
      then note_step s t.now (repeated p)
      else note_executed (record s { seen = (p.task_kind, p.target_ref) ∷ s.seen }) t.now
          (execute_proposal s.executor t.setting l.comparison p)

  -- One pass of the loop.
  unfoldable pub pass : Loop R → Turn R → LoopState R → LoopState R × Ending R
  pass l t s = elim (plan R l.settings t.urlopen l.config s.observation).result [
    | err e ↦ (s, fails (planning e))
    | ok p ↦ take_proposal l t s p
  ]

  unfoldable pub continue_with :
      (LoopState R → LoopState R × Ending R) → LoopState R × Ending R → LoopState R × Ending R
  continue_with next (s, goes_on) = next s
  continue_with next (s, waits) = (s, waits)
  continue_with next (s, fails e) = (s, fails e)
  continue_with next (s, stops reason) = (s, stops reason)

  -- `for _ in range(max_steps)`, at the turns from a number on.
  unfoldable pub passes : Loop R → (ℕ → Turn R) → ℕ → ℕ → LoopState R → LoopState R × Ending R
  unfolding continue_with
  passes l turns zero at s = (s, goes_on)
  passes l turns (suc n) at s =
      continue_with (λ s'. passes l turns n (suc at) s') (pass l (turns at) s)

  result_of :
      String
      → LoopState R
      → Option (InvestigationResult R)
      → Result (LoopError R) (MultiStepInvestigationResult R)
  result_of reason s none = err assertion
  result_of reason s (some r) = ok (record {
    status = r.status;
    reason = reason;
    steps = s.steps;
    last_result = r;
    state_path = s.store.path;
  })

  -- What `run_many` makes of the loop: `none` while an execution waits.
  unfoldable pub conclude_run :
      LoopState R → Ending R → Option (Result (LoopError R) (MultiStepInvestigationResult R))
  unfolding result_of
  conclude_run s waits = none
  conclude_run s (fails e) = some (err e)
  conclude_run s (stops reason) = some (result_of reason s s.last_result)
  conclude_run s goes_on = some (result_of "maximum investigation steps reached" s s.last_result)

  -- The state in which the loop begins.
  abbrev pub first_state : HttpExecutor R → InvestigationStateStore R → String → LoopState R
  first_state x store observation = record {
    observation = take_chars 16000 observation;
    seen = [];
    steps = [];
    last_result = none;
    executor = x;
    store = store;
  }

  abbrev pub Many : Type 0
  Many = Option (Result (LoopError R) (MultiStepInvestigationResult R)) × LoopState R

  -- `run_many`: the result, and the state of the run after it.
  unfoldable pub run_many :
      HttpExecutor R → InvestigationStateStore R → Loop R → (ℕ → Turn R) → ℕ → String → Many
  unfolding passes conclude_run
  run_many x store l turns max_steps observation =
      let s0 = first_state x store observation in
      if ltb max_steps 1 || ltb 10 max_steps
      then (some (err (bad_value "max_steps must be between 1 and 10")), s0)
      else if strip observation == ""
      then (some (err (bad_value "observation cannot be empty")), s0)
      else let (s, ending) = passes l turns max_steps 0 s0 in (conclude_run s ending, s)
