-- ===== src/State.antt =====
-- agentsec/state.py: the investigation's file. What the file holds is a JSON value: reading back what
-- was written gives the value, so the text between counts only where UTF-8 refuses it.
pub mod Laws
use nighwatch.Common.{
  ℕ, suc, String, ◌<>◌, Bool, true, false, not, Option, none, some, List, [], ◌∷◌, map, take,
  Result, ok, err, ◌>>=◌, ◌>>◌, raise_if, ◌==◌, if◌then◌else◌,
}
use nighwatch.Python.Bytes.{encode}
use nighwatch.Python.Int.{ℤ, pos}
use nighwatch.Python.Json.{
  Json, null, bool, int, float, str, arr, obj, Items, nil, item, Fields, end, field, fields,
}
use nighwatch.Python.Runtime.{Runtime}
use nighwatch.Python.Str.{replace_char, take_chars}
use nighwatch.Models.Config.{EngagementConfig, policy_hash}
use nighwatch.Models.FromDict.{ModelError, config, uncaught, get}
use nighwatch.Findings.Compare.{AuthorizationValidation, validation_dict}
use nighwatch.Planner.Proposal.{TaskProposal, proposal_fields}

-- The file is missing, cannot be read or parsed, or holds a value.
pub data StateFile (F : Type 0) : Type 0 where
  missing unreadable : StateFile F
  holds : Json F → StateFile F

pub record InvestigationStateStore (R : Runtime) : Type 0 where
  pub path : String
  pub config : EngagementConfig R
  pub file : StateFile R.Float

-- The proposal and the validation stand for the dictionaries that their `to_dict` makes.
pub record InvestigationStep (R : Runtime) : Type 0 where
  pub index : ℕ
  pub observation_sha256 : String
  pub proposal : TaskProposal R
  pub status : String
  pub reason : String
  pub validation : Option AuthorizationValidation
  pub created_at : R.Float

-- What `append` is given, with the time it reads.
pub record StepInput (R : Runtime) : Type 0 where
  pub observation : String
  pub proposal : TaskProposal R
  pub status : String
  pub reason : String
  pub validation : Option AuthorizationValidation
  pub now : R.Float

abbrev secret_text_pattern : String
secret_text_pattern =
    "(?i)\\b(?:bearer|basic|cookie|set-cookie|authorization|x-api-key|token|secret|password)\\b(?:\\s*[:=]\\s*|\\s+)[^\\s,;]+"

module _ {F : Type 0} where
  unfoldable pub item_count : Items F → ℕ
  item_count nil = 0
  item_count (item v vs) = suc (item_count vs)

  -- `steps.append(value)`
  unfoldable pub append_item : Items F → Json F → Items F
  append_item nil w = item w nil
  append_item (item v vs) w = item v (append_item vs w)

  -- `current[key] = value`
  unfoldable pub set_field : Fields F → String → Json F → Fields F
  set_field end key w = field key w end
  set_field (field k v fs) key w =
      let rest = set_field fs key w in if k == key then field k w fs else field k v rest

  -- `value == text`
  abbrev is_text : Option (Json F) → String → Bool
  is_text (some (str s)) t = s == t
  is_text v t = false

  -- The list of steps.
  abbrev pub steps_of : Option (Json F) → Result ModelError (Items F)
  steps_of (some (arr vs)) = ok vs
  steps_of v = err (config "investigation state steps must be a list")

module _ (R : Runtime) where
  -- `_safe_model_text`
  unfoldable pub safe_model_text : ℕ → String → String
  unfolding replace_char take_chars
  safe_model_text limit value =
      R.re_sub secret_text_pattern "[REDACTED]"
        (take_chars limit (replace_char b'\n' " " (replace_char b'\r' " " value)))

  -- `InvestigationStep.to_dict`
  unfoldable pub step_dict : InvestigationStep R → Json R.Float
  unfolding fields
  step_dict s = obj (
      fields (
        ("index", int (pos s.index))
        ∷ ("observation_sha256", str s.observation_sha256)
        ∷ ("proposal", obj (proposal_fields R s.proposal))
        ∷ ("status", str s.status)
        ∷ ("reason", str s.reason)
        ∷ ("validation", elim s.validation [ none ↦ null | some v ↦ validation_dict R v ])
        ∷ ("created_at", float s.created_at)
        ∷ []))

  -- The state of a file that is missing.
  unfoldable pub fresh_state : EngagementConfig R → Fields R.Float
  unfolding fields
  fresh_state c = fields (
      ("version", int (pos 1))
      ∷ ("engagement_id", str c.engagement_id)
      ∷ ("policy_hash", str (policy_hash R c))
      ∷ ("steps", arr nil)
      ∷ [])

  -- The checks of what was read, and the list of its steps.
  unfoldable pub check_state :
      EngagementConfig R → Fields R.Float → Result ModelError (Items R.Float)
  check_state c current = do
    raise_if (not (is_text (get current "engagement_id") c.engagement_id))
        (config "investigation state belongs to a different engagement")
    raise_if (not (is_text (get current "policy_hash") (policy_hash R c)))
        (config "investigation state policy hash does not match the active configuration")
    steps_of (get current "steps")

  -- `_read`, which is also `snapshot`; the list of steps stands beside the state.
  unfoldable pub read_state :
      InvestigationStateStore R → Result ModelError (Fields R.Float × Items R.Float)
  read_state store = elim store.file [
    | missing ↦ ok (fresh_state store.config, nil)
    | unreadable ↦ err (config ("investigation state is unreadable: " <> store.path))
    | holds (obj current) ↦ do steps ← check_state store.config current; ok (current, steps)
    | holds v ↦ err (uncaught "AttributeError")
  ]

  unfoldable pub safe_proposal : TaskProposal R → TaskProposal R
  unfolding safe_model_text
  safe_proposal p = record p {
    reason = safe_model_text 600 p.reason;
    expected_evidence = map (safe_model_text 300) (take 16 p.expected_evidence);
  }

  unfoldable pub safe_validation : AuthorizationValidation → AuthorizationValidation
  unfolding safe_model_text
  safe_validation v = record v {
    reason = safe_model_text 600 v.reason;
    endpoint = "[REDACTED_ENDPOINT]";
  }

  -- The step that `append` makes.
  unfoldable pub new_step : ℕ → StepInput R → InvestigationStep R
  unfolding safe_model_text
  new_step index s = record {
    index = index;
    observation_sha256 = R.sha256 (encode s.observation);
    proposal = safe_proposal s.proposal;
    status = s.status;
    reason = safe_model_text 600 s.reason;
    validation = elim s.validation [ none ↦ none | some v ↦ some (safe_validation v) ];
    created_at = s.now;
  }

  -- An encoding, with its error as one of the store.
  abbrev pub encoded : Option String → Result ModelError (Unit {0})
  encoded none = ok tt
  encoded (some message) = err (uncaught message)

  -- The text of the new file; its indentation, which only adds blanks, is left out.
  unfoldable pub state_text : Json R.Float → String
  state_text current =
      R.json_dumps (record { compact = false; sort_keys = true; ensure_ascii = false }) current
      <> "\n"

  -- `append`: the step, and the store with the new file, which replaces the old one once it is
  -- written whole.
  unfoldable pub append_step :
      InvestigationStateStore R
      → StepInput R
      → Result ModelError (InvestigationStep R × InvestigationStateStore R)
  append_step store s = do
    read ← read_state store
    encoded (R.utf8_error s.observation)
    let step = new_step (item_count read.1) s
    let listed = set_field read.0 "steps" (arr (append_item read.1 (step_dict step)))
    let current = set_field listed "updated_at" (float s.now)
    encoded (R.utf8_error (state_text (obj current)))
    ok (step, record store { file = holds (obj current) })
