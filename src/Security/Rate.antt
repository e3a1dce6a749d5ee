-- ===== src/Security/Rate.antt =====
-- `RateDecision` and `RateLimiter` of agentsec/security.py. The clock's reading is an argument, as
-- it is in the source where `now` is given; the lock makes each `acquire` one step.
pub mod Laws
pub mod Ledger
use nighwatch.Common.{ℕ, ◌+◌, String, Bool, true, false, Option, none, some, leb, if◌then◌else◌}
use nighwatch.Python.Runtime.{Runtime}
use nighwatch.Models.Policy.{RateLimits}

pub record RateDecision (R : Runtime) : Type 0 where
  pub allowed : Bool
  pub wait_seconds : R.Float
  pub reason : String
  pub request_count : ℕ

pub record RateLimiter (R : Runtime) : Type 0 where
  pub limits : RateLimits R
  pub last_request_at : Option R.Float
  pub request_count : ℕ

module _ (R : Runtime) where
  -- `__init__`
  abbrev pub new_limiter : RateLimits R → RateLimiter R
  new_limiter limits = record { limits = limits; last_request_at = none; request_count = 0 }

  -- `1.0 / self._limits.requests_per_second`
  abbrev pub interval : RateLimits R → R.Float
  interval limits = R.float_div (R.float 1) limits.requests_per_second

  permit : RateLimiter R → R.Float → RateDecision R × RateLimiter R
  permit l current = (
    record {
      allowed = true;
      wait_seconds = R.float 0;
      reason = "request permitted";
      request_count = l.request_count + 1;
    },
    record l { last_request_at = some current; request_count = l.request_count + 1 },
  )

  -- The test against the last permitted request.
  pace : RateLimiter R → R.Float → Option R.Float → RateDecision R × RateLimiter R
  unfolding permit
  pace l current none = permit l current
  pace l current (some last) =
      let elapsed = R.float_sub current last in
      if R.float_lt elapsed (interval l.limits)
      then (
        record {
          allowed = true;
          wait_seconds = R.float_sub (interval l.limits) elapsed;
          reason = "rate limit requires pacing";
          request_count = l.request_count;
        },
        l,
      )
      else permit l current

  -- `RateLimiter.acquire`
  unfoldable pub acquire : RateLimiter R → R.Float → RateDecision R × RateLimiter R
  unfolding pace permit
  acquire l current =
      if leb l.limits.max_requests l.request_count
      then (
        record {
          allowed = false;
          wait_seconds = R.float 0;
          reason = "request budget exhausted";
          request_count = l.request_count;
        },
        l,
      )
      else pace l current l.last_request_at
