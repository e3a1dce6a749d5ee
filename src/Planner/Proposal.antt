-- ===== src/Planner/Proposal.antt =====
-- `TaskProposal` of agentsec/planner.py, with `from_dict` and `to_dict`.
pub mod Laws
use nighwatch.Common.{
  ℕ, String, ◌<>◌, Bool, true, false, ◌&&◌, ◌||◌, not, Option, none, some, List, [], ◌∷◌, Result,
  ok, err, ◌>>=◌, ◌>>◌, raise_if, ◌==◌, contains, starts_with, if◌then◌else◌,
}
use nighwatch.Python.Json.{
  hashable, Json, null, bool, int, float, str, arr, obj, Items, nil, item, Fields, end, field,
  fields,
}
use nighwatch.Python.Runtime.{Runtime}
use nighwatch.Python.Str.{strip, has_text}
use nighwatch.Models.Config.{strs}
use nighwatch.Models.Engagement.{or_null}
use nighwatch.Models.FromDict
use nighwatch.Models.FromDict.{ModelError, config, get, texts, float_or, truthy, str_of}
use nighwatch.Models.Policy.{RiskLevel, risk_value, risk_eq}
use nighwatch.Ollama.Config.{OllamaError}

-- A `PlannerError`, an error of the client, or an exception of another kind.
pub data PlannerError : Type 0 where
  refused : String → PlannerError
  client : OllamaError → PlannerError
  escaped : String → PlannerError

abbrev pub task_kinds : List String
task_kinds =
    "map_application" ∷ "analyze_authentication" ∷ "compare_authorization" ∷ "inspect_api"
    ∷ "test_business_logic" ∷ "validate_candidate" ∷ "collect_evidence" ∷ "prepare_report" ∷ []

pub record TaskProposal (R : Runtime) : Type 0 where
  pub task_kind : String
  pub target_ref : String
  pub reason : String
  pub auth_profiles : List String
  pub expected_evidence : List String
  pub risk_level : RiskLevel
  pub confidence : R.Float
  pub approval_required : Bool

abbrev pub not_opaque : String → Bool
not_opaque ref = has_text "://" ref || (starts_with ref "/" || starts_with ref "\\")

-- `RiskLevel(value)`, or `none` for a `ValueError`
unfoldable pub risk_of : String → Option RiskLevel
risk_of value =
    if value == "read_only"
    then some RiskLevel.read_only
    else if value == "state_change"
    then some RiskLevel.state_change
    else if value == "destructive"
    then some RiskLevel.destructive
    else none

abbrev pub bad_number : String
bad_number = "invalid risk_level or confidence"

-- An error of reading a number, which the planner reports as its own.
abbrev pub as_planner : ModelError → PlannerError
as_planner (config message) = refused message
as_planner (ModelError.uncaught message) = escaped message

abbrev pub text_of : {F : Type 0} → String → Option (Json F) → Result PlannerError String
text_of message (some (str s)) = if strip s == "" then err (refused message) else ok s
text_of message v = err (refused message)

-- A list of texts that may be absent.
unfoldable pub list_of : {F : Type 0} → String → Option (Json F) → Result PlannerError (List String)
unfolding texts
list_of message none = ok []
list_of message (some (arr vs)) = elim (texts vs) [ none ↦ err (refused message) | some ss ↦ ok ss ]
list_of message (some v) = err (refused message)

module _ (R : Runtime) where
  -- The task kind; a value without a hash raises `TypeError`.
  unfoldable pub kind_of : Option (Json R.Float) → Result PlannerError String
  kind_of (some (str s)) =
      if contains task_kinds s then ok s else err (refused ("unsupported task_kind: " <> R.repr s))
  kind_of v =
      if hashable (or_null v)
      then err (refused ("unsupported task_kind: " <> R.json_text (or_null v)))
      else err (escaped "TypeError")

  abbrev risk_text : Option (Json R.Float) → String
  risk_text none = "read_only"
  risk_text (some v) = str_of R v

  unfoldable pub risk_in : Option (Json R.Float) → Result PlannerError RiskLevel
  unfolding risk_of
  risk_in v = elim (risk_of (risk_text v)) [ none ↦ err (refused bad_number) | some r ↦ ok r ]

  unfoldable pub number_in : Option (Json R.Float) → Result PlannerError R.Float
  number_in v = elim (float_or R bad_number (R.float 0) v) [
    | err e ↦ err (as_planner e)
    | ok x ↦ ok x
  ]

  abbrev approval_in : RiskLevel → Option (Json R.Float) → Bool
  approval_in risk none = not (risk_eq risk RiskLevel.read_only)
  approval_in risk (some v) = truthy R v

  -- `0 <= confidence <= 1`
  abbrev pub is_fraction : R.Float → Bool
  is_fraction x = R.float_le (R.float 0) x && R.float_le x (R.float 1)

  unfoldable pub proposal_from_fields : Fields R.Float → Result PlannerError (TaskProposal R)
  unfolding kind_of risk_in number_in list_of
  proposal_from_fields raw = do
    task_kind ← kind_of (get raw "task_kind")
    target_ref ← text_of "target_ref is required" (get raw "target_ref")
    raise_if (not_opaque target_ref)
        (refused "target_ref must be an opaque state reference, not a URL or filesystem path")
    reason ← text_of "reason is required" (get raw "reason")
    profiles ← list_of "auth_profiles must be a list of strings" (get raw "auth_profiles")
    evidence ← list_of "expected_evidence must be a list of strings" (get raw "expected_evidence")
    risk ← risk_in (get raw "risk_level")
    confidence ← number_in (get raw "confidence")
    raise_if (not (is_fraction confidence)) (refused "confidence must be between 0 and 1")
    let approval_required = approval_in risk (get raw "approval_required")
    raise_if (not (risk_eq risk RiskLevel.read_only) && not approval_required)
        (refused "state-changing and destructive proposals must require approval")
    ok (record {
      task_kind = task_kind;
      target_ref = strip target_ref;
      reason = strip reason;
      auth_profiles = profiles;
      expected_evidence = evidence;
      risk_level = risk;
      confidence = confidence;
      approval_required = approval_required;
    })

  -- `TaskProposal.from_dict`
  unfoldable pub proposal_from_dict : Json R.Float → Result PlannerError (TaskProposal R)
  unfolding proposal_from_fields
  proposal_from_dict (obj raw) = proposal_from_fields raw
  proposal_from_dict v = err (refused "planner response must be a JSON object")

  -- `TaskProposal.to_dict`
  unfoldable pub proposal_fields : TaskProposal R → Fields R.Float
  unfolding fields
  proposal_fields p = fields (
      ("task_kind", str p.task_kind)
      ∷ ("target_ref", str p.target_ref)
      ∷ ("reason", str p.reason)
      ∷ ("auth_profiles", strs p.auth_profiles)
      ∷ ("expected_evidence", strs p.expected_evidence)
      ∷ ("risk_level", str (risk_value p.risk_level))
      ∷ ("confidence", float p.confidence)
      ∷ ("approval_required", bool p.approval_required)
      ∷ [])
