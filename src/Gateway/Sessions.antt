-- ===== src/Gateway/Sessions.antt =====
-- Whole sessions: any sequence of `authorize` calls on one gateway, by any adapters, at any clock
-- readings and under any surroundings. (The limiter's lock makes each call one step.)
use nighwatch.Common.{
  ◌+◌, ◌≤◌, Bool, true, false, Option, none, some, List, [], ◌∷◌, String, ◌≡◌, arith, length,
  Bool-cases, inl, inr, if◌then◌else◌,
}
use nighwatch.Python.Runtime.{Runtime, IsFloat}
use nighwatch.Models.Policy.{RateLimits}
use nighwatch.Models.Config.{EngagementConfig}
use nighwatch.Security.Approval.{ActionRequest}
use nighwatch.Security.Rate.Laws.{Paced, permitted_at}
use nighwatch.Security.Receipt.{ActionReceipt}
use nighwatch.Security.Kill.{Surroundings}
use nighwatch.Gateway.{ToolGateway, new_gateway, authorize}
use nighwatch.Gateway.Laws.{
  HasSlot, authorize-ready_iff, authorize_ready_state, authorize_denied_state,
}

pub record Attempt (R : Runtime) : Type 0 where
  pub surroundings : Surroundings
  pub now : R.Float
  pub request : ActionRequest

module _ (R : Runtime) where
  abbrev pub attempt : ToolGateway R → Attempt R → Bool × ToolGateway R
  attempt g a =
      let (decision, g') = authorize R g a.surroundings a.now a.request in (decision.ready, g')

  -- The clock readings of the decisions that were ready, in order.
  unfoldable pub ready_times : ToolGateway R → List (Attempt R) → List R.Float
  ready_times g [] = []
  ready_times g (a ∷ more) =
      let rest = ready_times (attempt g a).1 more in if (attempt g a).0 then a.now ∷ rest else rest

  -- Each reading lies a full interval after the one before; the first, after `last`.
  abbrev pub Spaced : RateLimits R → Option R.Float → List R.Float → Type 0
  Spaced limits last [] = Unit
  Spaced limits last (t ∷ ts) = Paced R limits last t × Spaced limits (some t) ts

module _ (R : Runtime) (F : IsFloat R) where
  abbrev permitted : ToolGateway R → Attempt R → ToolGateway R
  permitted g a = record g { rate_limiter = permitted_at R g.rate_limiter a.now }

  attempt_ready :
      (g : ToolGateway R) (a : Attempt R)
      → (attempt R g a).0 ≡ true
      → HasSlot g a.now × ((attempt R g a).1 ≡ permitted g a)
  attempt_ready g a h = (
    ((authorize-ready_iff R F g a.surroundings a.now a.request).0 h).1,
    authorize_ready_state R F g a.surroundings a.now a.request h,
  )

  attempt_denied :
      (g : ToolGateway R) (a : Attempt R) → (attempt R g a).0 ≡ false → (attempt R g a).1 ≡ g
  attempt_denied g a h = authorize_denied_state R F g a.surroundings a.now a.request h

  used-le-max :
      (g : ToolGateway R) (attempts : List (Attempt R))
      → g.rate_limiter.request_count ≤ g.rate_limiter.limits.max_requests
      → g.rate_limiter.request_count + length (ready_times R g attempts)
        ≤ g.rate_limiter.limits.max_requests
  unfolding ready_times
  used-le-max g [] h = omega arith
  used-le-max g (a ∷ more) h = elim (Bool-cases (attempt R g a).0) [
    | inl ready ↦
        let (slot, state) = attempt_ready g a ready in
        rw (ready, state)
          (omega (arith, slot.0, used-le-max (permitted g a) more (omega (arith, slot.0))))
    | inr denied ↦ rw (denied, attempt_denied g a denied) (used-le-max g more h)
  ]

  ready_times-Spaced :
      (g : ToolGateway R) (attempts : List (Attempt R))
      → Spaced R g.rate_limiter.limits g.rate_limiter.last_request_at (ready_times R g attempts)
  unfolding ready_times
  ready_times-Spaced g [] = tt
  ready_times-Spaced g (a ∷ more) = elim (Bool-cases (attempt R g a).0) [
    | inl ready ↦
        let (slot, state) = attempt_ready g a ready in
        rw (ready, state) (slot.1, ready_times-Spaced (permitted g a) more)
    | inr denied ↦ rw (denied, attempt_denied g a denied) (ready_times-Spaced g more)
  ]

  -- For a runtime with lawful floats, whatever is attempted on a new gateway, in any order, at
  -- any times and under any surroundings, at most `max_requests` decisions are ready.
  pub session_budget :
      (c : EngagementConfig R) (receipts : Option (List (ActionReceipt R))) (ids : List String)
      (attempts : List (Attempt R))
      → length (ready_times R (new_gateway R c receipts ids) attempts) ≤ c.limits.max_requests
  session_budget c receipts ids attempts =
      omega (arith, used-le-max (new_gateway R c receipts ids) attempts (omega arith))

  -- For a runtime with lawful floats, whatever is attempted on a new gateway, between one ready
  -- decision and the next the clock has advanced by no less than `1.0 / requests_per_second`.
  pub session_pace :
      (c : EngagementConfig R) (receipts : Option (List (ActionReceipt R))) (ids : List String)
      (attempts : List (Attempt R))
      → Spaced R c.limits none (ready_times R (new_gateway R c receipts ids) attempts)
  session_pace c receipts ids attempts = ready_times-Spaced (new_gateway R c receipts ids) attempts
