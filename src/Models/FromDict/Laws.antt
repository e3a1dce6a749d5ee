-- ===== src/Models/FromDict/Laws.antt =====
-- Reading the policies back, and the bounds of what is accepted.
use nighwatch.Common.{
  ℕ, zero, suc, ◌≤◌, String, false, Option, none, some, ◌≡◌, ◌≢◌, ◌⊎◌, refl, arith, ok,
  Result-cases, inl, inr, eq_iff, Bool, ◌>>=◌, Result, Option-cases,
}
use nighwatch.Python.Int.{ℤ, pos, negsuc}
use nighwatch.Python.Json.{Json, null, bool, int, float, str, arr, tup, obj, Fields, fields}
use nighwatch.Python.Runtime.{Runtime}
use nighwatch.Python.Str.{strip}
use nighwatch.Models.Policy.{ActionPolicy, ActiveTestingPolicy}
use nighwatch.Models.Config.{actions_dict}
use nighwatch.Models.FromDict.{
  get, strict_bool, within, checked_within, int_or, dict_or_empty, action_policy_from_dict,
  kill_switch_path, active_testing_from_dict, ModelError,
}

-- An action policy is read back from its dictionary.
pub action_policy-actions_dict :
    (R : Runtime) (p : ActionPolicy) → action_policy_from_dict R (actions_dict p) ≡ ok p
unfolding action_policy_from_dict actions_dict fields get strict_bool dict_or_empty
action_policy-actions_dict R p = refl

pub within_bounds : (bound m : ℕ) (n : ℤ) → within bound n ≡ some m → (1 ≤ m) × (m ≤ bound)
unfolding within
within_bounds bound m (pos zero) e = ground (arith, e)
within_bounds bound m (pos (suc n)) e = ground (arith, e)
within_bounds bound m (negsuc n) e = ground (arith, e)

module _ (R : Runtime) where
  kill_switch_path_strips :
      (v : Option (Json R.Float)) (path : Option String)
      → kill_switch_path R v ≡ ok path
      → (path ≡ none) ⊎ ((s : String) × (path ≡ some (strip s)) × (strip s ≢ ""))
  unfolding kill_switch_path
  kill_switch_path_strips none path e = inl (ground (arith, e))
  kill_switch_path_strips (some null) path e = inl (ground (arith, e))
  kill_switch_path_strips (some (str s)) path e =
      inr (s, ground (arith, e), λ q. ground (arith, e, (eq_iff (strip s) "").1 q))
  kill_switch_path_strips (some (bool b)) path e = ground (arith, e)
  kill_switch_path_strips (some (int n)) path e = ground (arith, e)
  kill_switch_path_strips (some (float x)) path e = ground (arith, e)
  kill_switch_path_strips (some (arr vs)) path e = ground (arith, e)
  kill_switch_path_strips (some (tup vs)) path e = ground (arith, e)
  kill_switch_path_strips (some (obj fs)) path e = ground (arith, e)

  checked_bounds :
      (bound : ℕ) (message : String) (n : ℤ) (m : ℕ)
      → checked_within bound message n ≡ ok m
      → (1 ≤ m) × (m ≤ bound)
  checked_bounds bound message n m e = elim (Option-cases (within bound n)) [
    | inl p ↦ ground (arith, e, p)
    | inr (k, p) ↦
        let same : k ≡ m = ground (arith, e, p) in
        let bounds = within_bounds bound k n p in ground (arith, same, bounds)
  ]

  abbrev invalid : String
  invalid = "active_testing limits contain an invalid numeric value"

  -- `active_testing_from_dict` after the numbers are read.
  abbrev check_limits : Fields R.Float → Bool → ℤ → ℤ → Result ModelError ActiveTestingPolicy
  check_limits raw enabled payload cases = do
    max_payload_bytes ←
        checked_within 1048576 "active_testing.max_payload_bytes must be between 1 and 1048576"
          payload
    max_cases ← checked_within 10000 "active_testing.max_cases must be between 1 and 10000" cases
    path ← kill_switch_path R (get raw "kill_switch_file")
    ok (record {
      enabled = enabled;
      max_payload_bytes = max_payload_bytes;
      max_cases = max_cases;
      kill_switch_file = path;
    })

  -- The bounds of a policy.
  abbrev pub IsBounded : ActiveTestingPolicy → Type 0
  IsBounded p =
      (1 ≤ p.max_payload_bytes)
      × (p.max_payload_bytes ≤ 1048576)
      × (1 ≤ p.max_cases)
      × (p.max_cases ≤ 10000)
      × ((p.kill_switch_file ≡ none)
          ⊎ ((s : String) × (p.kill_switch_file ≡ some (strip s)) × (strip s ≢ "")))

  check_limits-IsBounded :
      (raw : Fields R.Float) (enabled : Bool) (payload cases : ℤ) (p : ActiveTestingPolicy)
      → check_limits raw enabled payload cases ≡ ok p
      → IsBounded p
  check_limits-IsBounded raw enabled payload cases p e =
      elim (Result-cases (
        checked_within 1048576 "active_testing.max_payload_bytes must be between 1 and 1048576"
          payload)) [
            | inr (x, q) ↦ ground (arith, e, q)
            | inl (m, q) ↦
                elim (Result-cases (
                  checked_within 10000 "active_testing.max_cases must be between 1 and 10000"
                    cases)) [
                      | inr (x, t) ↦ ground (arith, e, q, t)
                      | inl (n, t) ↦
                          elim (Result-cases (kill_switch_path R (get raw "kill_switch_file"))) [
                            | inr (x, u) ↦ ground (arith, e, q, t, u)
                            | inl (path, u) ↦
                                let a = checked_bounds 1048576 _ payload m q in
                                let b = checked_bounds 10000 _ cases n t in
                                let same_path : p.kill_switch_file ≡ path =
                                  ground (arith, e, q, t, u) in
                                (
                                  ground (arith, e, q, t, u, a),
                                  ground (arith, e, q, t, u, a),
                                  ground (arith, e, q, t, u, b),
                                  ground (arith, e, q, t, u, b),
                                  rw same_path
                                      (kill_switch_path_strips (get raw "kill_switch_file") path u),
                                )
                          ]
                    ]
          ]

  -- An active-testing policy that is accepted bounds a payload by 1 to 1048576 bytes and a run by
  -- 1 to 10000 cases, and its kill-switch file is absent or a stripped text that is not empty.
  pub active_testing_from_dict-IsBounded :
      (value : Json R.Float) (p : ActiveTestingPolicy)
      → active_testing_from_dict R value ≡ ok p
      → IsBounded p
  unfolding active_testing_from_dict
  active_testing_from_dict-IsBounded value p e = elim (Result-cases (dict_or_empty R value)) [
    | inr (x, q0) ↦ ground (arith, e, q0)
    | inl (raw, q0) ↦
        elim (Result-cases (strict_bool (get raw "enabled") "active_testing.enabled" false)) [
          | inr (x, q1) ↦ ground (arith, e, q0, q1)
          | inl (enabled, q1) ↦
              elim (Result-cases (int_or R invalid 8192 (get raw "max_payload_bytes"))) [
                | inr (x, q2) ↦ ground (arith, e, q0, q1, q2)
                | inl (payload, q2) ↦
                    elim (Result-cases (int_or R invalid 25 (get raw "max_cases"))) [
                      | inr (x, q3) ↦ ground (arith, e, q0, q1, q2, q3)
                      | inl (cases, q3) ↦
                          check_limits-IsBounded raw enabled payload cases p
                            (ground (arith, e, q0, q1, q2, q3))
                    ]
              ]
        ]
  ]
