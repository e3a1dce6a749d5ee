-- ===== src/Planner/Plan/Laws.antt =====
-- What the planner sends and what it returns.
use nighwatch.Common.{
  ◌≤◌, String, ◌<>◌, some, List, [], ◌∷◌, ◌≡◌, ◌≢◌, refl, arith, All, ok, ltb, ◌==◌, eq_iff, subst,
  Bool-cases, Result-cases, inl, inr, Option-cases,
}
use nighwatch.Python.Runtime.{Runtime}
use nighwatch.Python.Str.{strip, str_length, lstrip_char}
use nighwatch.Python.Url.{SplitResult, urlsplit}
use nighwatch.Models.Config.{EngagementConfig}
use nighwatch.Ollama.Config.{OllamaConfig, post_init, endpoint}
use nighwatch.Ollama.Config.Laws.{IsRoot, post_init-IsLocal}
use nighwatch.Ollama.Client.{Call, Reply, Ran, OllamaResponse, chat, call_of}
use nighwatch.Ollama.Client.Laws.{SendsChat, chat_calls, chat-response_of}
use nighwatch.Planner.Proposal.{TaskProposal}
use nighwatch.Planner.Proposal.Laws.{IsProposal, proposal_from_dict-IsProposal}
use nighwatch.Planner.Plan.{
  Planned, task_proposal_schema, plan_messages, read_proposal, planned_from, plan,
}

module _ (R : Runtime) where
  -- A call that posts to the chat endpoint below a base URL.
  abbrev pub IsChatPost : String → Call R → Type 0
  IsChatPost base call = (call.method ≡ "POST") × (call.url ≡ base <> "/api/" <> "chat")

  -- What `plan` may do for an observation.
  abbrev pub IsPlanned : OllamaConfig R → String → Planned R → Type 0
  IsPlanned settings observation out =
      All (IsChatPost settings.base_url) out.calls
      × ((p : TaskProposal R)
          → out.result ≡ ok p
          → IsProposal R p
            × (strip observation ≢ "")
            × (str_length observation ≤ 16000)
            × ((call : Call R) × (out.calls ≡ call ∷ [])))

  SendsChat-IsChatPost :
      (settings : OllamaConfig R) (c : EngagementConfig R) (observation : String)
      (calls : List (Call R))
      → SendsChat R settings
          (plan_messages R c observation)
          []
          (some (task_proposal_schema R))
          calls
      → All (IsChatPost settings.base_url) calls × ((call : Call R) × (calls ≡ call ∷ []))
  unfolding call_of endpoint lstrip_char
  SendsChat-IsChatPost settings c observation calls (payload, p, same, messages) =
      (rw same ((refl, refl), tt), (_, same))

  read_proposal-IsProposal :
      (content : String) (p : TaskProposal R) → read_proposal R content ≡ ok p → IsProposal R p
  unfolding read_proposal
  read_proposal-IsProposal content p e = elim (Option-cases (R.json_loads content)) [
    | inr (v, q) ↦ proposal_from_dict-IsProposal R v p (ground (arith, e, q))
    | inl q ↦ ground (arith, e, q)
  ]

  planned_from-IsPlanned :
      (settings : OllamaConfig R) (observation : String) (ran : Ran R (OllamaResponse R))
      → strip observation ≢ ""
      → str_length observation ≤ 16000
      → All (IsChatPost settings.base_url) ran.calls
      → ((r : OllamaResponse R) → ran.result ≡ ok r → (call : Call R) × (ran.calls ≡ call ∷ []))
      → IsPlanned settings observation (planned_from R ran)
  unfolding planned_from
  planned_from-IsPlanned settings observation ran named small posts one =
      elim (Result-cases ran.result) [
        | inr (x, q) ↦ rw q (posts, λ p e. ground (arith, e))
        | inl (r, q) ↦
            rw q (posts, λ p e. (read_proposal-IsProposal r.content p e, named, small, one r q))
      ]

  plan-IsPlanned :
      (settings : OllamaConfig R) (urlopen : Call R → Reply) (c : EngagementConfig R)
      (observation : String)
      → IsPlanned settings observation (plan R settings urlopen c observation)
  unfolding plan
  plan-IsPlanned settings urlopen c observation =
      let ran : Ran R (OllamaResponse R) =
        chat R settings urlopen (plan_messages R c observation) []
          (some (task_proposal_schema R)) in
      elim (Bool-cases (strip observation == "")) [
        | inl empty ↦ rw empty (tt, λ p e. ground (arith, e))
        | inr named ↦ elim (Bool-cases (ltb 16000 (str_length observation))) [
          | inl large ↦ rw (named, large) (tt, λ p e. ground (arith, e))
          | inr small ↦
              rw (named, small)
                (planned_from-IsPlanned settings observation ran
                  (λ h. ground (arith, named, h, eq_iff (strip observation) ""))
                  (ground (arith, small))
                  (elim (chat_calls R settings urlopen (plan_messages R c observation) []
                    (some (task_proposal_schema R))) [
                      | inl nothing ↦ rw nothing tt
                      | inr sent ↦ (SendsChat-IsChatPost settings c observation ran.calls sent).0
                    ])
                  (λ r e.
                    (SendsChat-IsChatPost settings c observation ran.calls
                      (chat-response_of R settings urlopen (plan_messages R c observation) []
                        (some (task_proposal_schema R)) r e).0).1))
        ]
      ]

  -- When `plan` returns a proposal, its task kind is a listed one, its reference is the stripped
  -- form of a text that is no URL and does not begin with a slash or backslash and is not empty,
  -- its reason is stripped and not empty, its confidence lies between 0 and 1 by the tests of the
  -- code, it requires approval unless its risk is read-only, the observation was neither blank
  -- nor longer than 16000 characters, and exactly one call was made.
  pub plan-IsProposal :
      (settings : OllamaConfig R) (urlopen : Call R → Reply) (c : EngagementConfig R)
      (observation : String) (p : TaskProposal R)
      → (plan R settings urlopen c observation).result ≡ ok p
      → IsProposal R p
        × (strip observation ≢ "")
        × (str_length observation ≤ 16000)
        × ((call : Call R) × ((plan R settings urlopen c observation).calls ≡ call ∷ []))
  plan-IsProposal settings urlopen c observation p e =
      (plan-IsPlanned settings urlopen c observation).1 p e

  -- For a configuration of the client that `__post_init__` has accepted, every call that `plan`
  -- makes, whatever comes of it, is a POST to the chat endpoint below its base URL; and that base
  -- URL has scheme http or https, a host, no credentials, no path but the root, no query and no
  -- fragment, and unless remote servers are allowed its host is 127.0.0.1, localhost or ::1.
  pub plan-post_init :
      (given settings : OllamaConfig R) (urlopen : Call R → Reply) (c : EngagementConfig R)
      (observation : String)
      → post_init R given ≡ ok settings
      → All (IsChatPost settings.base_url) (plan R settings urlopen c observation).calls
        × ((parsed : SplitResult) × (urlsplit R settings.base_url ≡ ok parsed)
            × IsRoot R given.allow_remote parsed)
  plan-post_init given settings urlopen c observation e =
      let checked = post_init-IsLocal R given settings e in
      (
        (plan-IsPlanned settings urlopen c observation).0,
        (
          checked.parsed,
          checked.splits,
          subst (λ waived. IsRoot R waived checked.parsed) checked.same_waiver checked.at_root,
        ),
      )
