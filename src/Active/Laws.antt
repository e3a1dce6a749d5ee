-- ===== src/Active/Laws.antt =====
-- What a probe sends.
use nighwatch.Common.{
  ℕ, suc, ◌≤◌, String, some, List, [], ◌∷◌, ◌≡◌, ◌⊎◌, refl, arith, Memᴰ, All, All-append, ok,
  contains_iff, length, length-append, ltb, Bool-cases, Option-cases, Result-cases, inl, inr, sym,
  subst, ap, ◌∙◌,
}
use nighwatch.Python.Runtime.{Runtime, IsFloat}
use nighwatch.Models.Config.{EngagementConfig}
use nighwatch.Http.Execute.{HttpExecutor, World, Run, execute}
use nighwatch.Http.Execute.Gate.{Authorised, execute-Authorised}
use nighwatch.Http.Execute.Checks.{check_request_sound}
use nighwatch.Http.Request.{Sent}
use nighwatch.Active.{
  Probe, Probed, probe_methods, case_body, case_request, after_case, probe_cases, check_probe,
  run_probe,
}
use nighwatch.Active.Checks.{check_probe-IsChecked}

module _ (R : Runtime) where
  -- What the executor sends for one payload: the body is the template with it, within the bound,
  -- and the executor has authorized it in the surroundings of the case.
  pub record IsCase (c : EngagementConfig R) (p : Probe) (method : String) (x : HttpExecutor R)
      (w : World R) (index : ℕ) (payload : String) (s : Sent) : Type 0 where
    pub body : s.body ≡ case_body p.body_template payload
    pub small : length s.body ≤ c.active_testing.max_payload_bytes
    pub same_method : s.method ≡ R.upper method
    pub authorised :
        Authorised x w (case_request R p method index (case_body p.body_template payload)) s

  -- What is sent for one of the payloads, by the executor as the cases before it have left it.
  abbrev pub IsCaseOf :
      EngagementConfig R
      → Probe
      → String
      → (ℕ → World R)
      → HttpExecutor R
      → ℕ
      → List String
      → Sent
      → Type 0
  IsCaseOf c p method worlds x index [] s = ⊥
  IsCaseOf c p method worlds x index (payload ∷ values) s =
      IsCase c p method x (worlds index) index payload s
      ⊎ IsCaseOf c p method worlds
          (execute R x (worlds index)
            (case_request R p method index (case_body p.body_template payload))).after
          (suc index) values s

  -- At most one request is sent by an execution, and it is a case.
  module _ (F : IsFloat R) (c : EngagementConfig R) (p : Probe) (method : String) where
    Authorised-IsCase :
        (x : HttpExecutor R) (w : World R) (index : ℕ) (payload : String) (s : Sent)
        → length (case_body p.body_template payload) ≤ c.active_testing.max_payload_bytes
        → Authorised x w (case_request R p method index (case_body p.body_template payload)) s
        → IsCase c p method x w index payload s
    unfolding case_request
    Authorised-IsCase x w index payload s small a =
        let facts = check_request_sound R x _ a.checked a.is_checked in
        let same_body : s.body ≡ case_body p.body_template payload =
          a.addressed.same_body ∙ facts.2 in
        record {
          body = same_body;
          small = rw same_body small;
          same_method = a.addressed.same_method ∙ facts.0;
          authorised = a;
        }

    abbrev Sends : (ℕ → World R) → HttpExecutor R → ℕ → List String → List Sent → Type 0
    Sends worlds x index values sent =
        All (IsCaseOf c p method worlds x index values) sent × (length sent ≤ length values)

    execute_sends :
        (x : HttpExecutor R) (w : World R) (index : ℕ) (payload : String) (sent : List Sent)
        → (execute R x w (case_request R p method index (case_body p.body_template payload))).sent
          ≡ sent
        → length (case_body p.body_template payload) ≤ c.active_testing.max_payload_bytes
        → All (IsCase c p method x w index payload) sent × (length sent ≤ 1)
    execute_sends x w index payload [] e small = (tt, omega arith)
    execute_sends x w index payload (s ∷ rest) e small =
        let r = case_request R p method index (case_body p.body_template payload) in
        let sent_it : Memᴰ s (execute R x w r).sent =
          subst (λ sent. Memᴰ s sent) (sym e) (Memᴰ.head refl) in
        let (authorised, only) = execute-Authorised R F x w r s sent_it in
        let nothing_else : rest ≡ [] = ground (arith, e, only) in
        rw nothing_else ((Authorised-IsCase x w index payload s small authorised, tt), omega arith)

    first-IsCaseOf :
        (worlds : ℕ → World R) (x : HttpExecutor R) (index : ℕ) (payload : String)
        (values : List String) (sent : List Sent)
        → All (IsCase c p method x (worlds index) index payload) sent
        → All (IsCaseOf c p method worlds x index (payload ∷ values)) sent
    first-IsCaseOf worlds x index payload values [] h = tt
    first-IsCaseOf worlds x index payload values (s ∷ sent) h =
        (inl h.0, first-IsCaseOf worlds x index payload values sent h.1)

    later-IsCaseOf :
        (worlds : ℕ → World R) (x : HttpExecutor R) (index : ℕ) (payload : String)
        (values : List String) (sent : List Sent)
        → All
            (IsCaseOf c p method worlds
              (execute R x
                (worlds index)
                (case_request R p method index (case_body p.body_template payload))).after
              (suc index)
              values)
            sent
        → All (IsCaseOf c p method worlds x index (payload ∷ values)) sent
    later-IsCaseOf worlds x index payload values [] h = tt
    later-IsCaseOf worlds x index payload values (s ∷ sent) h =
        (inr h.0, later-IsCaseOf worlds x index payload values sent h.1)

    after_case-All :
        (P : Sent → Type 0) (n : ℕ) (run : Run R) (payload : String)
        (next : HttpExecutor R → Probed R)
        → All P run.sent × (length run.sent ≤ 1)
        → All P (next run.after).sent × (length (next run.after).sent ≤ n)
        → All P (after_case R run payload next).sent
          × (length (after_case R run payload next).sent ≤ suc n)
    unfolding after_case
    after_case-All P n run payload next first rest = elim (Option-cases run.outcome) [
      | inl nothing ↦ rw nothing (first.0, omega (arith, first.1))
      | inr (result, something) ↦ elim (Result-cases result) [
        | inr (e, bad) ↦ rw (something, bad) (first.0, omega (arith, first.1))
        | inl (o, good) ↦
            rw (something, good)
              (
                All-append P run.sent (next run.after).sent first.0 rest.0,
                omega (arith, length-append run.sent (next run.after).sent, first.1, rest.1),
              )
      ]
    ]

    probe_cases-Sends :
        (worlds : ℕ → World R) (x : HttpExecutor R) (index : ℕ) (values : List String)
        → Sends worlds x index values (probe_cases R c p method worlds x index values).sent
    unfolding probe_cases
    probe_cases-Sends worlds x index [] = (tt, omega arith)
    probe_cases-Sends worlds x index (payload ∷ values) =
        elim (Bool-cases
          (ltb c.active_testing.max_payload_bytes (length (case_body p.body_template payload)))) [
            | inl large ↦ rw large (tt, omega arith)
            | inr small ↦
                let run =
                  execute R x (worlds index)
                    (case_request R p method index (case_body p.body_template payload)) in
                let (case, one) =
                  execute_sends x (worlds index) index payload run.sent refl
                    (ground (arith, small)) in
                let (cases, few) = probe_cases-Sends worlds run.after (suc index) values in
                rw small (
                  after_case-All (IsCaseOf c p method worlds x index (payload ∷ values))
                    (length values) run payload
                    (λ x'. probe_cases R c p method worlds x' (suc index) values)
                    (first-IsCaseOf worlds x index payload values run.sent case, one)
                    (later-IsCaseOf worlds x index payload values _ cases, few))
          ]

  -- The body of a case is the template with one of the payloads, within the bound.
  IsCaseOf-body :
      (c : EngagementConfig R) (p : Probe) (method : String) (worlds : ℕ → World R)
      (x : HttpExecutor R) (index : ℕ) (values : List String) (s : Sent)
      → IsCaseOf c p method worlds x index values s
      → (length s.body ≤ c.active_testing.max_payload_bytes)
        × ((v : String) × Memᴰ v values × (s.body ≡ case_body p.body_template v))
  IsCaseOf-body c p method worlds x index [] s h = elim h [ ]
  IsCaseOf-body c p method worlds x index (payload ∷ values) s (inl case) =
      (case.small, (payload, Memᴰ.head refl, case.body))
  IsCaseOf-body c p method worlds x index (payload ∷ values) s (inr h) =
      let (small, (v, m, body)) =
        IsCaseOf-body c p method worlds
          (execute R x (worlds index)
            (case_request R p method index (case_body p.body_template payload))).after
          (suc index) values s h in
      (small, (v, Memᴰ.tail m, body))

  -- What is sent for a probe that has passed the checks, by the executor as the cases before have
  -- left it: a template with one of the caller's payloads, within the bound.
  abbrev pub IsGivenCase :
      EngagementConfig R → HttpExecutor R → (ℕ → World R) → Probe → Sent → Type 0
  IsGivenCase c x worlds p s =
      (values : List String) × (check_probe R c p ≡ ok (R.upper p.method, values))
      × IsCaseOf c p (R.upper p.method) worlds x 1 values s
      × (length s.body ≤ c.active_testing.max_payload_bytes)
      × ((v : String) × Memᴰ (some v) p.payloads × (s.body ≡ case_body p.body_template v))

  All-given :
      (c : EngagementConfig R) (p : Probe) (x : HttpExecutor R) (worlds : ℕ → World R)
      (values : List String) (sent : List Sent)
      → check_probe R c p ≡ ok (R.upper p.method, values)
      → ((v : String) → Memᴰ v values → Memᴰ (some v) p.payloads)
      → All (IsCaseOf c p (R.upper p.method) worlds x 1 values) sent
      → All (IsGivenCase c x worlds p) sent
  All-given c p x worlds values [] passed given h = tt
  All-given c p x worlds values (s ∷ sent) passed given h =
      let (small, (v, m, body)) = IsCaseOf-body c p (R.upper p.method) worlds x 1 values s h.0 in
      (
        (values, passed, h.0, small, (v, given v m, body)),
        All-given c p x worlds values sent passed given h.1,
      )

  -- For a runtime with lawful floats, a probe sends at most `max_cases` requests, however it
  -- ends; the body of each is the template with one of the given payloads and no longer than
  -- `max_payload_bytes`; each was authorized, as `execute` requires, by the probe's executor as
  -- the cases before it have left it, in the surroundings of its case; and none is sent unless
  -- the method, upper-cased, is POST, PUT or PATCH.
  pub run_probe-IsGivenCase :
      (F : IsFloat R) (c : EngagementConfig R) (x : HttpExecutor R) (worlds : ℕ → World R)
      (p : Probe)
      → (length (run_probe R c x worlds p).2 ≤ c.active_testing.max_cases)
        × All (IsGivenCase c x worlds p) (run_probe R c x worlds p).2
        × (((run_probe R c x worlds p).2 ≡ []) ⊎ Memᴰ (R.upper p.method) probe_methods)
  run_probe-IsGivenCase F c x worlds p = elim (Result-cases (check_probe R c p)) [
    | inr (e, q) ↦
        let nothing : (run_probe R c x worlds p).2 ≡ [] = unfold run_probe in ground (arith, q) in
        rw nothing (omega arith, tt, inl refl)
    | inl ((method, values), q) ↦
        let (listed, same, short, given) = check_probe-IsChecked R c p (method, values) q in
        let passed : check_probe R c p ≡ ok (R.upper p.method, values) =
          q ∙ ap (λ m. ok (m, values)) same in
        let all : (run_probe R c x worlds p).2
            ≡ (probe_cases R c p (R.upper p.method) worlds x 1 values).sent =
          unfold run_probe in ground (arith, passed) in
        let (cases, few) = probe_cases-Sends F c p (R.upper p.method) worlds x 1 values in
        rw all (
          omega (arith, few, short),
          All-given c p x worlds values _ passed given cases,
          inr ((contains_iff probe_methods (R.upper p.method)).0 (rw (sym same) listed)),
        )
  ]
