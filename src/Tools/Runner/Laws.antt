-- ===== src/Tools/Runner/Laws.antt =====
-- What has happened before a tool is launched, and how it is launched.
use nighwatch.Common.{
  String, true, false, not, Option, none, some, List, [], ◌∷◌, ◌≡◌, ◌⊎◌, refl, arith, Memᴰ, All, ok,
  bind_ok, raise_if_ok, Bool-cases, Result-cases, inl, inr, sym, subst, ap, ◌∙◌,
}
use nighwatch.Python.Runtime.{Runtime, IsFloat}
use nighwatch.Models.Scope.{check_url}
use nighwatch.Security.Kill.{Surroundings}
use nighwatch.Security.Redact.{redact_url}
use nighwatch.Gateway.{ToolGateway, GatewayDecision, authorize, switch_tripped}
use nighwatch.Gateway.Laws.{IsAuthorized, HasSlot, authorize-ready_iff, authorize_ready_state}
use nighwatch.Http.Execute.Gate.{recorded-config}
use nighwatch.Evidence.{append}
use nighwatch.Http.Execute.{LoopEnd, cleared, refused, unsafe_wait, waiting, authorize_loop}
use nighwatch.Http.Execute.Loop.{authorize_loop_cleared}
use nighwatch.Tools.Registry.{ToolSpec, ToolPlan, spec_argv, get_spec, check_proxy, plan_tool}
use nighwatch.Tools.Runner.{
  ToolRunner, ToolWorld, ToolCall, ToolRun, Launch, ProcessEnd, Ready, with_executable, is_auth_key,
  without_auth, proxy_environ, tool_environment, tool_action, http_only, executable_of, prepare,
  note_process, tool_payload, launch_of, launch, noted, proceed_tool, run_tool,
}

without_auth-All :
    (kvs : List (String × String)) → All (λ kv. is_auth_key kv.0 ≡ false) (without_auth kvs)
unfolding without_auth
without_auth-All [] = tt
without_auth-All ((key, value) ∷ kvs) = elim (Bool-cases (is_auth_key key)) [
  | inl secret ↦ rw secret (without_auth-All kvs)
  | inr open_key ↦ rw open_key (open_key, without_auth-All kvs)
]

module _ (R : Runtime) where
  -- What the checks before the gateway have established.
  pub record IsReady (x : ToolRunner R) (w : ToolWorld R) (call : ToolCall) (ready : Ready R)
      : Type 0 where
    pub enabled : x.config.active_testing.enabled ≡ true
    pub registered : get_spec x.specs call.name ≡ ok ready.spec
    pub adapter : ready.spec.proxy_execution ≡ true
    pub in_scope : (check_url R x.config call.target "GET").allowed ≡ true
    pub proxy : check_proxy R call.proxy_url ≡ ok tt
    pub argv : ready.plan.argv ≡ spec_argv ready.spec call.target call.proxy_url
    pub found : w.which ready.spec.binary ≡ some ready.executable

  plan_tool_ok :
      (x : ToolRunner R) (w : ToolWorld R) (call : ToolCall) (spec : ToolSpec) (plan : ToolPlan)
      → get_spec x.specs call.name ≡ ok spec
      → plan_tool R x.config x.specs w.which call.name call.target call.proxy_url ≡ ok plan
      → ((check_url R x.config call.target "GET").allowed ≡ true)
        × (check_proxy R call.proxy_url ≡ ok tt)
        × (plan.argv ≡ spec_argv spec call.target call.proxy_url)
  unfolding plan_tool
  plan_tool_ok x w call spec plan known e =
      let (spec', p1, e1) = bind_ok (get_spec x.specs call.name) _ plan e in
      let (h2, e2) =
        raise_if_ok (not (check_url R x.config call.target "GET").allowed) _ _ plan e1 in
      let (u, p3, e3) = bind_ok (check_proxy R call.proxy_url) _ plan e2 in
      let same : spec' ≡ spec = ground (arith, p1, known) in
      (ground (arith, h2), p3, ground (arith, e3, same))

  executable_of_ok :
      (spec : ToolSpec) (path : Option String) (exe : String)
      → executable_of R spec path ≡ ok exe
      → path ≡ some exe
  executable_of_ok spec none exe e = ground (arith, e)
  executable_of_ok spec (some path) exe e = ground (arith, e)

  prepare-IsReady :
      (x : ToolRunner R) (w : ToolWorld R) (call : ToolCall) (ready : Ready R)
      → prepare R x w call ≡ ok ready
      → IsReady x w call ready
  unfolding prepare
  prepare-IsReady x w call ready e =
      let (h1, e1) = raise_if_ok (not x.config.active_testing.enabled) _ _ ready e in
      let (spec, p2, e2) = bind_ok (get_spec x.specs call.name) _ ready e1 in
      let (h3, e3) = raise_if_ok (not spec.proxy_execution) _ _ ready e2 in
      let (u, p4, e4) = bind_ok (http_only R call.target) _ ready e3 in
      let (plan, p5, e5) =
        bind_ok (plan_tool R x.config x.specs w.which call.name call.target call.proxy_url) _ ready
          e4 in
      let (exe, p6, e6) = bind_ok (executable_of R spec (w.which spec.binary)) _ ready e5 in
      let (scope, proxy, argv) = plan_tool_ok x w call spec plan p2 p5 in
      let made : Ready R = record { spec = spec; plan = plan; executable = exe } in
      let checked : IsReady x w call made = record {
        enabled = ground (arith, h1);
        registered = p2;
        adapter = ground (arith, h3);
        in_scope = scope;
        proxy = proxy;
        argv = argv;
        found = executable_of_ok spec (w.which spec.binary) exe p6;
      } in
      let same : made ≡ ready = ground (arith, e6) in subst (IsReady x w call) same checked

  note_process_launched :
      (x : ToolRunner R) (w : ToolWorld R) (call : ToolCall) (spec : ToolSpec) (ls : List Launch)
      (done_with : ProcessEnd)
      → (note_process R x w call spec ls done_with).launched ≡ ls
  unfolding note_process
  note_process_launched x w call spec ls done_with =
      elim (Result-cases (redact_url R call.target)) [
        | inr (message, p) ↦ ground (arith, p)
        | inl (safe, p) ↦
            elim (Result-cases (
              append R x.evidence w.evidence_stamp "tool_observation"
                (tool_payload R x w spec safe done_with))) [
                  | inr (message, q) ↦ ground (arith, p, q)
                  | inl (written, q) ↦ ground (arith, p, q)
                ]
      ]

  launch_launched :
      (x : ToolRunner R) (w : ToolWorld R) (call : ToolCall) (ready : Ready R)
      → ((launch R x w call ready).launched ≡ [])
        ⊎ ((switch_tripped R x.gateway w.live ≡ false)
            × ((launch R x w call ready).launched ≡ launch_of R w call ready ∷ []))
  unfolding launch
  launch_launched x w call ready = elim (Bool-cases (switch_tripped R x.gateway w.live)) [
    | inl stopped ↦ inl (rw stopped refl)
    | inr live ↦ elim (Result-cases (w.process (launch_of R w call ready))) [
      | inr (message, p) ↦ inr (live, rw (live, p) refl)
      | inl (done_with, p) ↦ inr (
        live,
        rw (live, p)
            (note_process_launched x w call ready.spec (launch_of R w call ready ∷ []) done_with),
      )
    ]
  ]

  -- What stands behind a launch: the checks, the gateway's decision at one of the readings, and the
  -- fixed command and the environment without credentials.
  pub record IsLaunch (x : ToolRunner R) (w : ToolWorld R) (call : ToolCall) (l : Launch)
      : Type 0 where
    pub ready : Ready R
    pub checked : IsReady x w call ready
    pub surroundings : Surroundings
    pub now : R.Float
    pub listed : Memᴰ (surroundings, now) w.readings
    pub authorized : IsAuthorized x.gateway surroundings (tool_action R w call ready.spec)
    pub slot : HasSlot x.gateway now
    pub live : switch_tripped R x.gateway w.live ≡ false
    pub command :
        l.command
        ≡ with_executable ready.executable (spec_argv ready.spec call.target call.proxy_url)
    pub environment : All (λ kv. is_auth_key kv.0 ≡ false) l.environment

  module _ (F : IsFloat R) (x : ToolRunner R) (w : ToolWorld R) (call : ToolCall) where
    cleared-IsLaunch :
        (ready : Ready R) (d : GatewayDecision R) (g : ToolGateway R)
        → IsReady x w call ready
        → authorize_loop R x.gateway (tool_action R w call ready.spec) w.readings ≡ (cleared d, g)
        → switch_tripped R (noted R x g w (tool_action R w call ready.spec) d).gateway w.live
          ≡ false
        → IsLaunch x w call (launch_of R w call ready)
    unfolding launch_of tool_environment
    cleared-IsLaunch ready d g checked e live =
        let (a, is_ready) =
          authorize_loop_cleared R F x.gateway (tool_action R w call ready.spec) w.readings d g e in
        let (authorized, slot) =
          (authorize-ready_iff R F x.gateway a.surroundings a.now
              (tool_action R w call ready.spec)).0
            (ground (arith, a.decided, is_ready)) in
        let kept =
          authorize_ready_state R F x.gateway a.surroundings a.now (tool_action R w call ready.spec)
            (ground (arith, a.decided, is_ready)) in
        let state : (authorize R x.gateway a.surroundings a.now (tool_action R w call ready.spec)).1
            ≡ g =
          ground (arith, a.decided) in
        let same_config : g.config ≡ x.gateway.config = ground (arith, state, kept) in
        let noted_config =
          (recorded-config R g w.receipt_stamp (tool_action R w call ready.spec) d).0
          ∙ same_config in
        record {
          ready = ready;
          checked = checked;
          surroundings = a.surroundings;
          now = a.now;
          listed = a.listed;
          authorized = authorized;
          slot = slot;
          live = rw noted_config at live;
          command = ap (with_executable ready.executable) checked.argv;
          environment = without_auth-All (proxy_environ w.environ call.proxy_url);
        }

    abbrev Launched : ToolRun R → Type 0
    Launched run =
        (run.launched ≡ []) ⊎ ((l : Launch) × (run.launched ≡ l ∷ []) × IsLaunch x w call l)

    proceed_tool-Launched :
        (ready : Ready R) (end_loop : LoopEnd R × ToolGateway R)
        → IsReady x w call ready
        → authorize_loop R x.gateway (tool_action R w call ready.spec) w.readings ≡ end_loop
        → Launched (proceed_tool R x w call ready end_loop)
    unfolding proceed_tool
    proceed_tool-Launched ready (waiting, g) checked e = inl refl
    proceed_tool-Launched ready (unsafe_wait, g) checked e = inl refl
    proceed_tool-Launched ready (refused d, g) checked e = inl refl
    proceed_tool-Launched ready (cleared d, g) checked e =
        elim (launch_launched (noted R x g w (tool_action R w call ready.spec) d) w call ready) [
          | inl nothing ↦ inl nothing
          | inr (live, one) ↦
              inr (launch_of R w call ready, one, cleared-IsLaunch ready d g checked e live)
        ]

    -- For a runtime with lawful floats, `run` launches nothing or one process; what it launches
    -- is a registered tool with a proxy adapter, found by `shutil.which`, with the command that
    -- the registry fixes for the target and the proxy and an environment without credential
    -- variables; active testing was enabled, the target in scope for GET, and the proxy the empty
    -- text or accepted as a local one; and the gateway authorized the action at one of the
    -- readings, with the kill switch off then and at the launch.
    pub run_tool-IsLaunch :
        (run_tool R x w call).launched ≡ []
        ⊎ ((l : Launch) × ((run_tool R x w call).launched ≡ l ∷ []) × IsLaunch x w call l)
    run_tool-IsLaunch = elim (Result-cases (prepare R x w call)) [
      | inr (bad, p) ↦ inl (unfold run_tool in ground (arith, p))
      | inl (ready, p) ↦
          let run : ToolRun R =
            proceed_tool R x w call ready
              (authorize_loop R x.gateway (tool_action R w call ready.spec) w.readings) in
          let same : run_tool R x w call ≡ run = unfold run_tool in ground (arith, p) in
          subst Launched (sym same) (
            proceed_tool-Launched ready
              (authorize_loop R x.gateway (tool_action R w call ready.spec) w.readings)
              (prepare-IsReady x w call ready p) refl)
    ]
