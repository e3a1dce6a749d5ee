-- ===== src/Security/Rate/Laws.antt =====
-- When the limiter permits a request, and what it remembers.
use nighwatch.Common.{◌+◌, ◌<◌, Bool, true, false, ◌&&◌, not, Option, none, some, ◌≡◌, ◌↔◌, arith}
use nighwatch.Python.Runtime.{Runtime, IsFloat}
use nighwatch.Models.Policy.{RateLimits}
use nighwatch.Security.Rate.{RateDecision, RateLimiter, interval, pace, acquire}

module _ (R : Runtime) where
  -- How an adapter reads a decision: permitted, with no time to wait.
  abbrev pub is_permit : RateDecision R → Bool
  is_permit d = d.allowed && not (R.float_lt (R.float 0) d.wait_seconds)

  -- A full interval has passed since the last permitted request, if there was one.
  abbrev pub Paced : RateLimits R → Option R.Float → R.Float → Type 0
  Paced limits none now = Unit
  Paced limits (some last) now = R.float_lt (R.float_sub now last) (interval R limits) ≡ false

  abbrev pub permitted_at : RateLimiter R → R.Float → RateLimiter R
  permitted_at l now = record l { last_request_at = some now; request_count = l.request_count + 1 }

module _ (R : Runtime) (F : IsFloat R) where
  zero_not_pos : R.float_lt (R.float 0) (R.float 0) ≡ false
  zero_not_pos = ground (arith, F.zero_eq, F.pos_ne (R.float 0))

  pace-permit_iff :
      (l : RateLimiter R) (now : R.Float) (last : Option R.Float)
      → (is_permit R (pace R l now last).0 ≡ true) ↔ Paced R l.limits last now
  unfolding pace
  pace-permit_iff l now none = ground (arith, zero_not_pos)
  pace-permit_iff l now (some last) =
      ground (arith, zero_not_pos, F.sub_pos (R.float_sub now last) (interval R l.limits))

  -- For a runtime with lawful floats, the limiter permits a request exactly when the budget is
  -- not used up and a full interval has passed since the last permitted request.
  pub acquire-permit_iff :
      (l : RateLimiter R) (now : R.Float)
      → (is_permit R (acquire R l now).0 ≡ true)
        ↔ ((l.request_count < l.limits.max_requests) × Paced R l.limits l.last_request_at now)
  unfolding acquire
  acquire-permit_iff l now = ground (arith, pace-permit_iff l now l.last_request_at)

  pace_state :
      (l : RateLimiter R) (now : R.Float) (last : Option R.Float) (b : Bool)
      → is_permit R (pace R l now last).0 ≡ b
      → (pace R l now last).1 ≡ (elim b [ true ↦ permitted_at R l now | false ↦ l ])
  unfolding pace
  pace_state l now none b h = ground (arith, zero_not_pos)
  pace_state l now (some last) b h =
      ground (arith, zero_not_pos, F.sub_pos (R.float_sub now last) (interval R l.limits))

  -- A permit counts the request and remembers its time.
  pub acquire_permits :
      (l : RateLimiter R) (now : R.Float)
      → is_permit R (acquire R l now).0 ≡ true
      → (acquire R l now).1 ≡ permitted_at R l now
  unfolding acquire
  acquire_permits l now h = ground (arith, pace_state l now l.last_request_at true)

  -- A refusal or a wait consumes nothing.
  pub acquire_refuses :
      (l : RateLimiter R) (now : R.Float)
      → is_permit R (acquire R l now).0 ≡ false
      → (acquire R l now).1 ≡ l
  unfolding acquire
  acquire_refuses l now h = ground (arith, pace_state l now l.last_request_at false)

  pace_flag :
      (l : RateLimiter R) (now : R.Float) (last : Option R.Float)
      → ((pace R l now last).0.allowed && R.float_eq (pace R l now last).0.wait_seconds (R.float 0))
        ≡ is_permit R (pace R l now last).0
  unfolding pace
  pace_flag l now none = ground (arith, zero_not_pos, F.zero_eq)
  pace_flag l now (some last) = ground (
    arith,
    zero_not_pos,
    F.zero_eq,
    F.sub_pos (R.float_sub now last) (interval R l.limits),
    F.pos_ne (R.float_sub (interval R l.limits) (R.float_sub now last)),
  )

  -- A wait that is not positive is zero.
  pub acquire_flag :
      (l : RateLimiter R) (now : R.Float)
      → ((acquire R l now).0.allowed && R.float_eq (acquire R l now).0.wait_seconds (R.float 0))
        ≡ is_permit R (acquire R l now).0
  unfolding acquire
  acquire_flag l now = ground (arith, pace_flag l now l.last_request_at)
