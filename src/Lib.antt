-- ===== src/Lib.antt =====
-- Nighwatch: a verification library for the agentsec package (src/agentsec), the policy gateway,
-- evidence and HTTP boundary of the Nighwatch security-testing agent.
--
-- The program. An engagement configuration (src/agentsec/models.py) says which origins, methods
-- and paths are in scope, which risks are allowed, and the limits. Every adapter asks the tool
-- gateway (src/agentsec/gateway.py) before it acts; the gateway consults the scope, the kill
-- switch, the approval policy and the rate limiter (src/agentsec/security.py), and writes a
-- receipt for each decision. The HTTP executor (src/agentsec/http_executor.py) checks a request,
-- waits for the gateway, resolves credentials and an admissible address, sends, and writes redacted
-- evidence (src/agentsec/evidence.py) and an entry of the application map (src/agentsec/mapping.py).
-- The authorization validator (src/agentsec/findings.py) compares four such responses. The planner
-- (src/agentsec/planner.py) asks a local model (src/agentsec/llm.py) for the next task, and the
-- reasoning loop (src/agentsec/reasoning.py) plans, validates and records steps in the
-- investigation's file (src/agentsec/state.py). Active probes (src/agentsec/active.py) send bounded
-- payloads through the executor, the egress proxy (src/agentsec/proxy.py) forwards the requests
-- of a tool through it, and the tool runner (src/agentsec/tools.py) launches registered tools.
--
-- The files.
--   Common      shared names: the conditional, membership, All, results that return or raise
--   Python      what the source uses of Python: strings, JSON, bytes, dictionaries and sets as
--               lists, urlsplit and its fields; Runtime is the part that is a parameter
--   Models      models.py: the configuration, to_dict, policy_hash, normalize_host, _path_matches,
--               check_url; FromDict, Origin and Engagement read a configuration from JSON
--               (from_dict, from_file), and Template is template_config of config.py
--   Security    security.py: ActionApprover (Approval), RateLimiter (Rate, with a Ledger as its
--               abstract view), KillSwitch (Kill),
--               redact_url and redact_headers (Redact), ActionReceipt and ReceiptLogger (Receipt)
--   Gateway     gateway.py: ToolGateway with authorize, record_decision and dry_run; Sessions is
--               about any sequence of authorize calls on one gateway, and Slots models
--               execution_slot: threads that share the semaphore, moved by a schedule
--   Evidence    evidence.py: _redact_json, redact_body_preview, append, record_http
--   Mapping     mapping.py: _path_template, _json_field_names, observe
--   Http        http_executor.py: Headers, Credentials, Address, Request (_request) and Execute
--               (execute); the modules below them hold the proofs
--   Ollama      llm.py: Config is OllamaConfig, Client is list_models and chat
--   Planner     planner.py: Proposal is TaskProposal, Plan the prompt and plan
--   Findings    findings.py: _signature, and compare with _finish
--   State       state.py: _read and append over the JSON value that the file holds
--   Reasoning   reasoning.py: run, run_many; Runs and Many are about any number of passes
--   Active      active.py: run over the executor
--   Proxy       proxy.py: the handler of the egress proxy, over the executor
--   Tools       tools.py: Registry (the specs, get, plan) and Runner (run)
--   Tests       runs of the model and the theorems at concrete inputs
--
-- State and effects. An operation that changes an object takes the object and returns it beside its
-- result: the limiter and the receipts for the gateway; the gateway, the evidence file and the map
-- for the executor, whose sends are listed. A file that is appended to is the list of its records.
-- The clock, uuid4, the process environment and the file system are arguments: each call of
-- authorize gets its own reading of them, so the theorems hold for any timing and any change of the
-- surroundings between calls. An exception is an err of Result with its message or its object.
--
-- Parameters. Python.Runtime holds Unicode case mapping, repr, IDNA, the check of network
-- locations, form encoding, SHA-256, floats, json.dumps and json.loads, UTF-8 decoding, the texts
-- that UTF-8 refuses to encode, and regular expressions, and int, bool and str of floats and
-- texts. Three facts of float arithmetic are hypotheses (IsFloat): b - a is positive where a < b,
-- zero equals itself, and a positive number is not zero; IEEE 754 doubles satisfy them. The call
-- of urlopen is an argument of the client of the model server. Http.Request.Network holds the
-- resolver, the classification of addresses and the exchange with the server. Python.Ascii is a
-- runtime that computes, for texts of ASCII characters.
--
-- Loops and bounds. All functions are by structural recursion, without fuel. The loop of execute
-- around authorize recurses on the list of readings of the clock and surroundings; a list that is
-- used up is a run that still waits. run_many makes at most max_steps passes, each with its own
-- surroundings, and recurses on their number. Numbers are natural numbers without bound, as in Python; a
-- text that is parsed to a port is bounded by 65535 as urlsplit does.
--
-- Not modelled. A text of an argument is taken to be one that UTF-8 encodes, except where evidence
-- and the investigation's file are written. The sockets and TLS of the pinned connections, and
-- file permissions and rewriting, are input and output. The checks of the constructors of
-- EvidenceStore and HttpExecutor, the polling of a tool's process, the server of the egress proxy,
-- the browser adapter and the command line are not modelled. vendor/strix is a copy of another
-- project that the package does not call.
pub mod Common
pub mod Python
pub mod Models
pub mod Ollama
pub mod Planner
pub mod Security
pub mod Gateway
pub mod Evidence
pub mod Mapping
pub mod Http
pub mod Findings
pub mod State
pub mod Reasoning
pub mod Active
pub mod Tools
pub mod Proxy
mod Tests
