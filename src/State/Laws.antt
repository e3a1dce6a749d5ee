-- ===== src/State/Laws.antt =====
-- What the investigation's file holds after a step is appended.
use nighwatch.Common.{
  String, false, not, Option, some, ◌≡◌, refl, arith, ok, bind_ok, raise_if_ok, ◌==◌, eq_refl,
  eq_iff, Bool-cases, inl, inr, subst,
}
use nighwatch.Python.Json.{Json, float, arr, obj, Items, nil, Fields, end, field, fields}
use nighwatch.Python.Runtime.{Runtime}
use nighwatch.Models.Config.{EngagementConfig, policy_hash}
use nighwatch.Models.FromDict.{config, get}
use nighwatch.State.{
  StateFile, missing, unreadable, holds, InvestigationStateStore, InvestigationStep, StepInput,
  item_count, append_item, set_field, is_text, steps_of, step_dict, fresh_state, check_state,
  read_state, new_step, append_step, encoded, state_text,
}

get-set_field_same :
    {F : Type 0} (fs : Fields F) (key : String) (w : Json F) → get (set_field fs key w) key ≡ some w
unfolding get set_field
get-set_field_same end key w = rw (eq_refl key) refl
get-set_field_same (field k v fs) key w = elim (Bool-cases (k == key)) [
  | inl same ↦ rw (same, same) refl
  | inr other ↦ rw (other, other) (get-set_field_same fs key w)
]

get-set_field_other :
    {F : Type 0} (fs : Fields F) (key other_key : String) (w : Json F)
    → (key == other_key) ≡ false
    → get (set_field fs key w) other_key ≡ get fs other_key
unfolding get set_field
get-set_field_other end key j w h = rw h refl
get-set_field_other (field k v fs) key j w h = elim (Bool-cases (k == key)) [
  | inl same ↦ let apart : (k == j) ≡ false = rw ((eq_iff k key).0 same) h in rw (same, apart) refl
  | inr other ↦ elim (Bool-cases (k == j)) [
    | inl found ↦ rw (other, found) refl
    | inr apart ↦ rw (other, apart) (get-set_field_other fs key j w h)
  ]
]

module _ (R : Runtime) where
  fresh_state-check_state : (c : EngagementConfig R) → check_state R c (fresh_state R c) ≡ ok nil
  unfolding check_state fresh_state fields get
  fresh_state-check_state c = rw (eq_refl c.engagement_id, eq_refl (policy_hash R c)) refl

  file-check_state :
      (path : String) (c : EngagementConfig R) (file : StateFile R.Float)
      (read : Fields R.Float × Items R.Float)
      → read_state R (record { path = path; config = c; file = file }) ≡ ok read
      → check_state R c read.0 ≡ ok read.1
  unfolding read_state
  file-check_state path c missing read e =
      let same : (fresh_state R c, nil) ≡ read = ground (arith, e) in
      subst (λ r. check_state R c r.0 ≡ ok r.1) same (fresh_state-check_state c)
  file-check_state path c unreadable read e = ground (arith, e)
  file-check_state path c (holds (obj current)) read e =
      let (vs, p, e1) = bind_ok (check_state R c current) _ read e in
      let same : (current, vs) ≡ read = ground (arith, e1) in
      subst (λ r. check_state R c r.0 ≡ ok r.1) same p
  file-check_state path c (holds v) read e = ground (arith, e)

  steps_of_arr :
      (v : Option (Json R.Float)) (vs : Items R.Float) → steps_of v ≡ ok vs → v ≡ some (arr vs)
  steps_of_arr (some (arr vs)) ws e = ground (arith, e)
  steps_of_arr v vs e = ground (arith, e)

  check_state-set_field :
      (c : EngagementConfig R) (current : Fields R.Float) (vs ws : Items R.Float)
      (time : Json R.Float)
      → check_state R c current ≡ ok vs
      → check_state R c (set_field (set_field current "steps" (arr ws)) "updated_at" time) ≡ ok ws
  unfolding check_state
  check_state-set_field c current vs ws time e =
      let (h1, e1) =
        raise_if_ok (not (is_text (get current "engagement_id") c.engagement_id))
          (config "investigation state belongs to a different engagement") _ vs e in
      let (h2, e2) =
        raise_if_ok (not (is_text (get current "policy_hash") (policy_hash R c)))
          (config "investigation state policy hash does not match the active configuration") _ vs
          e1 in
      let listed = set_field current "steps" (arr ws) in
      rw
        (
          get-set_field_other listed "updated_at" "engagement_id" time refl,
          get-set_field_other current "steps" "engagement_id" (arr ws) refl,
          h1,
          get-set_field_other listed "updated_at" "policy_hash" time refl,
          get-set_field_other current "steps" "policy_hash" (arr ws) refl,
          h2,
          get-set_field_other listed "updated_at" "steps" time refl,
          get-set_field_same current "steps" (arr ws),
        )
        refl

  -- A step that was appended to a store: the file was readable, and reads as before with the step at
  -- the end; the step is numbered by the steps before it and has the input's status.
  pub record IsAppended (store : InvestigationStateStore R) (s : StepInput R)
      (step : InvestigationStep R) (after : InvestigationStateStore R) : Type 0 where
    pub before : Fields R.Float × Items R.Float
    pub current : Fields R.Float
    pub readable : read_state R store ≡ ok before
    pub reads_back : read_state R after ≡ ok (current, append_item before.1 (step_dict R step))
    pub made : step ≡ new_step R (item_count before.1) s
    pub same_store : (after.config ≡ store.config) × (after.path ≡ store.path)

  pub append_step-IsAppended :
      (store : InvestigationStateStore R) (s : StepInput R) (step : InvestigationStep R)
      (after : InvestigationStateStore R)
      → append_step R store s ≡ ok (step, after)
      → IsAppended store s step after
  unfolding append_step read_state
  append_step-IsAppended store s step after e =
      let (read, p, e0) = bind_ok (read_state R store) _ (step, after) e in
      let (seen, q0, e00) = bind_ok (encoded R (R.utf8_error s.observation)) _ (step, after) e0 in
      let made : InvestigationStep R = new_step R (item_count read.1) s in
      let current : Fields R.Float =
        set_field (set_field read.0 "steps" (arr (append_item read.1 (step_dict R made))))
          "updated_at" (float s.now) in
      let (whole, q1, e1) =
        bind_ok (encoded R (R.utf8_error (state_text R (obj current)))) _ (step, after) e00 in
      let stored : InvestigationStateStore R = record store { file = holds (obj current) } in
      let same_step : made ≡ step = ground (arith, e1) in
      let same_store : stored ≡ after = ground (arith, e1) in
      let checked = file-check_state store.path store.config store.file read p in
      let kept =
        check_state-set_field store.config read.0 read.1 (append_item read.1 (step_dict R made))
          (float s.now) checked in
      let back : read_state R stored ≡ ok (current, append_item read.1 (step_dict R made)) =
        rw kept refl in
      let all : IsAppended store s made stored = record {
        before = read;
        current = current;
        readable = p;
        reads_back = back;
        made = refl;
        same_store = (refl, refl);
      } in
      subst (λ st. IsAppended store s st after) same_step
        (subst (λ st. IsAppended store s made st) same_store all)
