-- ===== src/Models/Policy.antt =====
-- `RiskLevel`, `ActionPolicy`, `ActiveTestingPolicy` and `RateLimits` of agentsec/models.py.
use nighwatch.Common.{ℕ, String, Bool, Option}
use nighwatch.Python.Runtime.{Runtime}

pub data RiskLevel : Type 0 where
  read_only state_change destructive : RiskLevel

-- `risk.value`
abbrev pub risk_value : RiskLevel → String
risk_value read_only = "read_only"
risk_value state_change = "state_change"
risk_value destructive = "destructive"

-- `risk == RiskLevel.READ_ONLY` and its siblings.
abbrev pub risk_eq : RiskLevel → RiskLevel → Bool
risk_eq read_only read_only = Bool.true
risk_eq state_change state_change = Bool.true
risk_eq destructive destructive = Bool.true
risk_eq a b = Bool.false

pub record ActionPolicy : Type 0 where
  pub read_only : Bool
  pub state_mutation : Bool
  pub destructive : Bool
  pub require_state_change_approval : Bool
  pub require_destructive_approval : Bool

-- `ActionPolicy.allows`
unfoldable pub allows : ActionPolicy → RiskLevel → Bool
allows p read_only = p.read_only
allows p state_change = p.state_mutation
allows p destructive = p.destructive

pub record ActiveTestingPolicy : Type 0 where
  pub enabled : Bool
  pub max_payload_bytes : ℕ
  pub max_cases : ℕ
  pub kill_switch_file : Option String

pub record RateLimits (R : Runtime) : Type 0 where
  pub requests_per_second : R.Float
  pub max_requests : ℕ
  pub max_concurrent_requests : ℕ
  pub max_cost_usd : R.Float
