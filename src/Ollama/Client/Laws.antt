-- ===== src/Ollama/Client/Laws.antt =====
-- What a chat sends, and what its response rests on.
use nighwatch.Common.{
  String, Option, some, List, [], ◌∷◌, ◌≡◌, ◌⊎◌, refl, arith, Memᴰ, ok, err, bind_ok, contains_iff,
  subst, sym, Result-cases, inl, inr, All,
}
use nighwatch.Python.Json.{Json, str, obj, Items, nil, item, Fields}
use nighwatch.Python.Runtime.{Runtime}
use nighwatch.Models.FromDict.{get}
use nighwatch.Ollama.Config.{OllamaConfig}
use nighwatch.Ollama.Client.{
  Call, Reply, Ran, ToolDefinition, OllamaResponse, chat_roles, call_of, read_reply, check_role,
  check_content, validate_messages, chat_payload, response_of, message_of, content_of, calls_in,
  chat, send_chat,
}

module _ (R : Runtime) where
  -- Every message is an object with a role that is known and a text.
  abbrev pub IsMessages : Items R.Float → Type 0
  IsMessages nil = Unit
  IsMessages (item (obj fs) vs) =
      ((role : String) × (get fs "role" ≡ some (str role)) × Memᴰ role chat_roles)
      × ((content : String) × (get fs "content" ≡ some (str content)))
      × IsMessages vs
  IsMessages (item v vs) = ⊥

  check_role-Mem :
      (v : Option (Json R.Float))
      → check_role R v ≡ ok tt
      → (role : String) × (v ≡ some (str role)) × Memᴰ role chat_roles
  unfolding check_role
  check_role-Mem (some (str s)) e = (s, refl, (contains_iff chat_roles s).0 (ground (arith, e)))
  check_role-Mem v e = ground (arith, e)

  check_content_text :
      (v : Option (Json R.Float))
      → check_content R v ≡ ok tt
      → (content : String) × (v ≡ some (str content))
  check_content_text (some (str s)) e = (s, refl)
  check_content_text v e = ground (arith, e)

  validate_messages-IsMessages :
      (vs : Items R.Float) (passed : List (Json R.Float))
      → validate_messages R vs ≡ ok passed
      → IsMessages vs
  unfolding validate_messages
  validate_messages-IsMessages nil passed e = tt
  validate_messages-IsMessages (item (obj fs) vs) passed e =
      let (u, p1, e1) = bind_ok (check_role R (get fs "role")) _ passed e in
      let (w, p2, e2) = bind_ok (check_content R (get fs "content")) _ passed e1 in
      let (rest, p3, e3) = bind_ok (validate_messages R vs) _ passed e2 in
      (
        check_role-Mem (get fs "role") p1,
        check_content_text (get fs "content") p2,
        validate_messages-IsMessages vs rest p3,
      )
  validate_messages-IsMessages (item v vs) passed e = ground (arith, e)

  chat_payload-IsMessages :
      (c : OllamaConfig R) (messages : Items R.Float) (tools : List (ToolDefinition R))
      (schema : Option (Json R.Float)) (payload : Json R.Float)
      → chat_payload R c messages tools schema ≡ ok payload
      → IsMessages messages
  unfolding chat_payload
  chat_payload-IsMessages c messages tools schema payload e =
      let (passed, p, e1) = bind_ok (validate_messages R messages) _ payload e in
      validate_messages-IsMessages messages passed p

  response_of_raw :
      (c : OllamaConfig R) (fs : Fields R.Float) (r : OllamaResponse R)
      → response_of R c fs ≡ ok r
      → r.raw ≡ fs
  unfolding response_of
  response_of_raw c fs r e =
      let (message, p1, e1) = bind_ok (message_of R (get fs "message")) _ r e in
      let (content, p2, e2) = bind_ok (content_of R (get message "content")) _ r e1 in
      let (calls, p3, e3) = bind_ok (calls_in R (get message "tool_calls")) _ r e2 in
      ground (arith, e3)

  -- What a chat may send: nothing, or its payload once, to the endpoint of the configuration.
  abbrev pub SendsChat :
      OllamaConfig R
      → Items R.Float
      → List (ToolDefinition R)
      → Option (Json R.Float)
      → List (Call R)
      → Type 0
  SendsChat c messages tools schema calls =
      (payload : Json R.Float) × (chat_payload R c messages tools schema ≡ ok payload)
      × (calls ≡ call_of R c "POST" "chat" (some payload) ∷ [])
      × IsMessages messages

  -- What the calls and the response of a chat may be.
  abbrev pub IsChat :
      OllamaConfig R
      → (Call R → Reply)
      → Items R.Float
      → List (ToolDefinition R)
      → Option (Json R.Float)
      → Ran R (OllamaResponse R)
      → Type 0
  IsChat c urlopen messages tools schema ran =
      ((ran.calls ≡ []) ⊎ SendsChat c messages tools schema ran.calls)
      × ((r : OllamaResponse R)
          → ran.result ≡ ok r
          → SendsChat c messages tools schema ran.calls
            × All (λ call. read_reply R c (urlopen call) ≡ ok r.raw) ran.calls
            × (response_of R c r.raw ≡ ok r))

  send_chat-IsChat :
      (c : OllamaConfig R) (urlopen : Call R → Reply) (messages : Items R.Float)
      (tools : List (ToolDefinition R)) (schema : Option (Json R.Float)) (payload : Json R.Float)
      → chat_payload R c messages tools schema ≡ ok payload
      → IsChat c urlopen messages tools schema (send_chat R c urlopen payload)
  unfolding send_chat
  send_chat-IsChat c urlopen messages tools schema payload p =
      let call : Call R = call_of R c "POST" "chat" (some payload) in
      let sent : SendsChat c messages tools schema (call ∷ []) =
        (payload, p, refl, chat_payload-IsMessages c messages tools schema payload p) in
      (
        inr sent,
        λ r e.
            let (fs, p1, e1) = bind_ok (read_reply R c (urlopen call)) (response_of R c) r e in
            let same : r.raw ≡ fs = response_of_raw c fs r e1 in
            (sent, (rw same p1, tt), subst (λ raw. response_of R c raw ≡ ok r) (sym same) e1),
      )

  chat-IsChat :
      (c : OllamaConfig R) (urlopen : Call R → Reply) (messages : Items R.Float)
      (tools : List (ToolDefinition R)) (schema : Option (Json R.Float))
      → IsChat c urlopen messages tools schema (chat R c urlopen messages tools schema)
  chat-IsChat c urlopen messages tools schema =
      elim (Result-cases (chat_payload R c messages tools schema)) [
        | inr (x, p) ↦
            let made : Ran R (OllamaResponse R) = record { calls = []; result = err x } in
            let same : chat R c urlopen messages tools schema ≡ made =
              unfold chat in ground (arith, p) in
            rw same (inl refl, λ r e. ground (arith, e))
        | inl (payload, p) ↦
            let same : chat R c urlopen messages tools schema ≡ send_chat R c urlopen payload =
              unfold chat in ground (arith, p) in
            rw same (send_chat-IsChat c urlopen messages tools schema payload p)
      ]

  -- A response comes from the answer to the one call that was made, for messages that were checked.
  pub chat-response_of :
      (c : OllamaConfig R) (urlopen : Call R → Reply) (messages : Items R.Float)
      (tools : List (ToolDefinition R)) (schema : Option (Json R.Float)) (r : OllamaResponse R)
      → (chat R c urlopen messages tools schema).result ≡ ok r
      → SendsChat c messages tools schema (chat R c urlopen messages tools schema).calls
        × All
            (λ call. read_reply R c (urlopen call) ≡ ok r.raw)
            (chat R c urlopen messages tools schema).calls
        × (response_of R c r.raw ≡ ok r)
  chat-response_of c urlopen messages tools schema r e =
      (chat-IsChat c urlopen messages tools schema).1 r e

  -- A chat makes no call, or one call with its payload, for messages that were checked.
  pub chat_calls :
      (c : OllamaConfig R) (urlopen : Call R → Reply) (messages : Items R.Float)
      (tools : List (ToolDefinition R)) (schema : Option (Json R.Float))
      → ((chat R c urlopen messages tools schema).calls ≡ [])
        ⊎ SendsChat c messages tools schema (chat R c urlopen messages tools schema).calls
  chat_calls c urlopen messages tools schema = (chat-IsChat c urlopen messages tools schema).0
