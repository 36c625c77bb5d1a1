-- ===== src/Lib.antt =====
-- Verification of Anglerfish AI, an SSH honeypot whose shell is played by a language model.
--
-- The program. An attacker connects to the lure (src/anglerfish/lure/), an SSH server that caps the
-- connections of each source address and sends every command line to the bridge
-- (src/anglerfish/bridge/). The bridge cleans the line, scores it for prompt injection, answers `cd`
-- itself, and otherwise asks the model through the client of src/anglerfish/llm/, under a token bucket
-- and a semaphore (rate_limit.py) and the session's token budget (budget.py). What the model says is
-- capped and filtered; every failure becomes a scripted reply. The threat engine
-- (src/anglerfish/threat/) scores a session by the techniques its commands show; the bridge service
-- keeps what it knows of each session in maps that end with the session, and may decide to mislead a
-- dangerous one. All parts write to the audit log (src/anglerfish/audit.py), which a shipper copies to
-- a collector. The operator's dashboard (src/anglerfish/dashboard/) reads the log: a tailer turns its
-- events into the stored sessions, and the alerts are a view of it.
--
-- The model. Python strings are lists of code points (Base.Text), dictionaries and sets are lists of
-- pairs (Base.Dict), exceptions are values (Base.Result), and mutated objects are passed and returned.
--   Audit.Log                 `AuditLog.record` of audit.py
--   Audit.Shipper             audit_shipper.py; Audit.Lines is how bytes are cut into lines
--   Audit.Reader              dashboard/audit_reader.py
--   Base                      shared tests, lists, keys, dictionaries, texts, exceptions
--   Bridge.Sanitize           bridge/sanitize.py
--   Bridge.Path               bridge/path.py; Path.Split is str.split and str.join at slashes
--   Bridge.Defense            bridge/defense.py: `OutputFilter.check`, `InjectionScorer.score`
--   Bridge.RateLimit          bridge/rate_limit.py: `TokenBucket`, `BridgeRateLimiter.slot`
--   Bridge.CounterDeception   bridge/strategies/counter_deception.py
--   Bridge.Registry           the per-session maps of `AIBridgeService` in bridge/service.py
--   Bridge.Session            `SessionContext` of bridge/session.py
--   Bridge.Service            `handle_command` of bridge/service.py; Service.Cd is `_handle_cd`
--                             and Service.Detectors gives it the detectors of Bridge.Defense
--   Bridge.Service.Stream     `handle_command_stream`; what is yielded is a list of chunks
--   Dashboard.Alerts          `list_alerts` of dashboard/alerts.py; the cursor is the parsed pair
--   Dashboard.Fanout          `publish` of dashboard/state.py
--   Dashboard.Sessions        `update_session`, `end_session` of dashboard/state.py over the tables of
--                             sessions/store.py
--   Dashboard.Tailer          dashboard/audit_tailer.py; Tailer.Events has its events and
--                             their routes, Tailer.Poll is `_poll_once`
--   Dashboard.Login           `LoginRateLimiter` of dashboard/rate_limit.py
--   Persona                   persona/selector.py, with `PersonaRegistry` of persona/registry.py
--   Llm.Budget, Llm.Client    llm/budget.py; `chat` and `stream_chat` of llm/client.py
--   Lure.Limiter              `_PerIPLimiter` of lure/server.py
--   Threat                    threat/techniques.py, scorer.py, alerter.py, service.py
-- Below a component, the modules are named for what they prove; each `Tests` has runs of the code and
-- the theorems at concrete inputs.
--
-- Choices. Clock readings are natural numbers of ticks. A call that reads the clock more than once is
-- given one reading for all of them. Tokens of a bucket are counted in units so that a tick refills a
-- whole number of them; the floating-point rounding of the source is not modelled. Loops are
-- structural recursion over the list that the source walks; only the batches of Audit.Shipper are cut
-- on fuel, the number of lines, which is enough for a batch size from 1, as the configuration has it.
-- Concurrency in the bridge is between `await`s of one event loop: the calls for the semaphore and
-- the streams that share a budget are step relations over every interleaving.
--
-- Parameters. `shlex.split`, compiled regular expressions, Unicode decomposition, the HTTP client and
-- the model's server are arguments, and so are the digest of an address and the store's queries in
-- Persona. In Bridge.Service the detectors of bridge/defense.py, the prompt builder and the scripted
-- replies are a record of operations (Service.Data), most of which may raise.
--
-- Files, the collector and the database are values: a log is its bytes, the collector is a function
-- of the number of requests so far, and a database statement fails where a function of its number
-- says so. A stream that stops reading the model's chunks settles the budget at once, where the
-- source leaves it to the closing of the generator. A write to the log that raises is taken to have
-- written nothing, where the source can leave part of a line, or all of one whose fsync failed. JSON,
-- UTF-8 and ISO times are arguments; in Dashboard.Tailer reading a line can raise, as it does on
-- bytes that are not UTF-8. In Dashboard.Tailer the handlers of the events that enrich a session are
-- an argument too.
--
-- Not modelled: the lure's shell and transport, the bridge's HTTP server, prompts, the persistence
-- classifier, extraction of intelligence, the rest of the dashboard, the configuration and the wizard;
-- the SSH and web frameworks and the files that wire them. Log lines are left out; of the audit events,
-- those of the registry and the command handler are kept.
pub mod Audit
pub mod Base
pub mod Bridge
pub mod Dashboard
pub mod Llm
pub mod Lure
pub mod Persona
pub mod Threat
