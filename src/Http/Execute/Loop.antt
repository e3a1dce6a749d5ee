-- ===== src/Http/Execute/Loop.antt =====
-- The loop around `authorize`.
use nighwatch.Common.{
  true, false, ◌&&◌, List, [], ◌∷◌, Memᴰ, ◌≡◌, refl, arith, Bool, Bool-cases, inl, inr, All,
}
use nighwatch.Python.Runtime.{Runtime, IsFloat}
use nighwatch.Security.Approval.{ActionRequest}
use nighwatch.Security.Kill.{Surroundings}
use nighwatch.Gateway.{GatewayDecision, ToolGateway, authorize}
use nighwatch.Gateway.Laws.{authorize_denied_state}
use nighwatch.Http.Execute.{cleared, authorize_loop}

module _ {R : Runtime} where
  -- A decision upon which the loop sleeps.
  abbrev pub is_wait : GatewayDecision R → Bool
  is_wait d = d.rate.allowed && R.float_lt (R.float 0) d.rate.wait_seconds

  abbrev pub is_unsafe : GatewayDecision R → Bool
  is_unsafe d = R.float_lt (R.float 60) d.rate.wait_seconds

module _ (R : Runtime) (F : IsFloat R) (g : ToolGateway R) (request : ActionRequest) where
  abbrev pub decision_at : Surroundings × R.Float → GatewayDecision R
  decision_at (w, now) = (authorize R g w now request).0

  -- One of the readings at which the gateway, in its first state, takes a decision.
  pub record DecidedAt (readings : List (Surroundings × R.Float)) (d : GatewayDecision R)
      (g' : ToolGateway R) : Type 0 where
    pub surroundings : Surroundings
    pub now : R.Float
    pub listed : Memᴰ (surroundings, now) readings
    pub decided : authorize R g surroundings now request ≡ (d, g')

  keep_looking :
      {readings : List (Surroundings × R.Float)} {d : GatewayDecision R} {g' : ToolGateway R}
      (first : Surroundings × R.Float)
      → DecidedAt readings d g'
      → DecidedAt (first ∷ readings) d g'
  keep_looking first a = record {
    surroundings = a.surroundings;
    now = a.now;
    listed = Memᴰ.tail a.listed;
    decided = a.decided;
  }

  pub authorize_loop_cleared :
      (readings : List (Surroundings × R.Float)) (d : GatewayDecision R) (g' : ToolGateway R)
      → authorize_loop R g request readings ≡ (cleared d, g')
      → DecidedAt readings d g' × (d.ready ≡ true)
  unfolding authorize_loop
  authorize_loop_cleared [] d g' e = ground (arith, e)
  authorize_loop_cleared ((w, now) ∷ readings) d g' e =
      let a = authorize R g w now request in
      elim (Bool-cases a.0.ready) [
        | inl ready ↦
            let same : a ≡ (d, g') = ground (arith, e, ready) in
            (
              record { surroundings = w; now = now; listed = Memᴰ.head refl; decided = same },
              ground (arith, ready, same),
            )
        | inr denied ↦
            let kept = authorize_denied_state R F g w now request denied in
            let later : authorize_loop R g request readings ≡ (cleared d, g') =
              ground (arith, e, denied, kept) in
            let (decided, ready) = authorize_loop_cleared readings d g' later in
            (keep_looking (w, now) decided, ready)
      ]

  -- At every reading the gateway asks for a wait of at most sixty seconds.
  abbrev pub AllWait : List (Surroundings × R.Float) → Type 0
  AllWait readings =
      All
        (λ at.
          ((decision_at at).ready ≡ false)
          × (is_wait (decision_at at) ≡ true)
          × (is_unsafe (decision_at at) ≡ false))
        readings
