-- ===== src/Security/Receipt.antt =====
-- `ActionReceipt` of agentsec/security.py, and the file that `ReceiptLogger` appends to as the list of
-- the receipts written to it.
use nighwatch.Common.{ℕ, String, Bool, List, [], ◌∷◌, ◌++◌}
use nighwatch.Python.Runtime.{Runtime}

pub record ActionReceipt (R : Runtime) : Type 0 where
  pub action_id : String
  pub engagement_id : String
  pub tool : String
  pub target : String
  pub method : String
  pub risk : String
  pub scope_allowed : Bool
  pub scope_reason : String
  pub approval_allowed : Bool
  pub approval_reason : String
  pub policy_hash : String
  pub created_at : R.Float
  pub request_count : ℕ
  pub rate_ready : Bool
  pub rate_wait_seconds : R.Float
  pub rate_reason : String

-- `ReceiptLogger.write`
abbrev pub write_receipt :
    {R : Runtime} → List (ActionReceipt R) → ActionReceipt R → List (ActionReceipt R)
write_receipt log receipt = log ++ receipt ∷ []
