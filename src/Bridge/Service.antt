-- ===== src/Bridge/Service.antt =====
-- `handle_command` of src/anglerfish/bridge/service.py: one command of an attacker, from the raw line
-- to the reply. The defence of src/anglerfish/bridge/defense.py, the prompt builder, the scripted
-- replies and `shlex.split` are the parts the handler calls: a record of operations, most of which may
-- raise. The model's server is a function from messages to a response.
mod Data
pub mod Detectors
pub mod Cd
pub mod Replies
pub mod Defended
pub mod Recorded
pub mod Stream
mod Tests
pub use Data.*
use anglerfish_ai.Base.{
  ℕ, ◌+◌, Bool, true, false, not, ◌||◌, List, [], ◌∷◌, ◌++◌, Option, none, some, ltb, if◌then◌else◌,
  length, text_same, number_key,
}
use anglerfish_ai.Base.Dict
use anglerfish_ai.Base.Text.{Text, text, strip}
use anglerfish_ai.Base.Result.{
  Exception, Result, ok, raise, ◌>>=◌, budget_exhausted, ollama_unavailable, ollama_response,
  output_filter_fired, session_rate_limited, global_queue_timeout, injection_detected, value_error,
  type_error, key_error, os_error, unexpected,
}
use anglerfish_ai.Llm.Budget.{TokenBudget, fast}
use anglerfish_ai.Llm.Client.{Response, ChatResult, chat}
use anglerfish_ai.Bridge.Sanitize.{sanitize_command, cap_output}
use anglerfish_ai.Bridge.RateLimit.{RateLimitConfig, RateLimiter, Wait, slot}
use anglerfish_ai.Bridge.CounterDeception.{ChatMessage}
use anglerfish_ai.Bridge.Registry.{Settings, Registry, Event, budget_for, amend_prompt_for_session}
use anglerfish_ai.Bridge.Session.{
  SessionContext, ResponseSource, ai, fallback, rejected, record_turn,
}
use anglerfish_ai.Threat.Technique.{split_blank}
use anglerfish_ai.Bridge.Service.Cd.{handle_cd}

unfoldable pub head_or_empty : List Text → Text
head_or_empty [] = []
head_or_empty (head ∷ rest) = head

unfoldable pub head_of : Text → Result (List Text) → Text
unfolding head_or_empty
head_of stripped (raise x) = head_or_empty (split_blank stripped)
head_of stripped (ok tokens) = head_or_empty tokens

unfoldable pub events_of : List Event → List HandlerEvent
events_of [] = []
events_of (e ∷ es) = registry_event e ∷ events_of es

-- The exceptions that `_run_command` turns into a fallback itself.
unfoldable pub is_caught : Exception → Bool
is_caught budget_exhausted = true
is_caught ollama_unavailable = true
is_caught ollama_response = true
is_caught output_filter_fired = true
is_caught session_rate_limited = true
is_caught global_queue_timeout = true
is_caught injection_detected = false
is_caught value_error = false
is_caught type_error = false
is_caught key_error = false
is_caught os_error = false
is_caught unexpected = false

unfoldable pub event_of : Exception → List HandlerEvent
event_of budget_exhausted = budget_exhausted_event ∷ []
event_of x = []

module _ (p : Parts) (unit : ℕ) (c : BridgeConfig) where
  -- `_first_token`
  unfoldable pub first_token : Text → Text
  unfolding head_of
  first_token command =
      let stripped = strip command in
      if text_same stripped [] then [] else head_of stripped (p.shell_split stripped)

  unfoldable pub scripted_or_not_found : Text → Option Text → Text
  unfolding first_token
  scripted_or_not_found command (some scripted) = scripted
  scripted_or_not_found command none =
      let head = first_token command in
      if text_same head [] then [] else text "bash: " ++ head ++ text ": command not found"

  -- `_fallback`
  unfoldable pub fallback_for : SessionContext → Text → Text × ResponseSource
  unfolding scripted_or_not_found
  fallback_for session command =
      if not c.enable_fallback
      then ([], rejected)
      else (scripted_or_not_found command (p.fallback_response command session), fallback)

  -- `session.record` and the response, which end every branch.
  unfoldable pub reply :
      Bridge → World → Text → Text × ResponseSource → ℕ → Bridge × Result BridgeResponse
  reply b w command (shown, source) latency_ms = (
    record b { session = record_turn b.session command shown source latency_ms w.timestamp },
    ok (record { text = shown; source = source; latency_ms = latency_ms }),
  )

  unfoldable pub judge : Text → List HandlerEvent → TokenBudget → Text → Result Verdict → Work
  judge content events budget shown (raise x) = record {
    shown = raise x;
    budget = budget;
    events = events;
  }
  judge content events budget shown (ok verdict) =
      let long = ltb c.max_response_chars (length content) in
      let told = if long then scan_truncated_output (length content) ∷ events else events in
      if verdict.fired
      then record {
        shown = raise output_filter_fired;
        budget = budget;
        events = defense_fire verdict ∷ told;
      }
      else record { shown = ok shown; budget = budget; events = told }

  unfoldable pub filter_output : Text → List HandlerEvent → TokenBudget → Result Text → Work
  unfolding judge
  filter_output content events budget (raise x) = record {
    shown = raise x;
    budget = budget;
    events = events;
  }
  filter_output content events budget (ok shown) = judge content events budget shown (p.check shown)

  unfoldable pub read_answer : List HandlerEvent → Result ChatResult × TokenBudget → Work
  unfolding filter_output
  read_answer events (raise x, budget) = record {
    shown = raise x;
    budget = budget;
    events = events;
  }
  read_answer events (ok answer, budget) =
      filter_output answer.content events budget (cap_output answer.content c.max_response_chars)

  -- The body of the `async with` of the limiter.
  unfoldable pub ask_built : Bridge → World → TokenBudget → Result (List ChatMessage) → Work
  unfolding read_answer events_of
  ask_built b w budget (raise x) = record { shown = raise x; budget = budget; events = b.events }
  ask_built b w budget (ok messages) =
      let (amended, events) =
        amend_prompt_for_session c.registry b.registry b.session.session_id messages
          b.session.command_count in
      read_answer (events_of events ++ b.events) (chat fast budget (w.model amended))

  unfoldable pub finish : Bridge → World → Text → Result Text → Bridge × Result BridgeResponse
  unfolding is_caught event_of reply fallback_for
  finish b w command (ok shown) = reply b w command (shown, ai) w.latency_ms
  finish b w command (raise x) =
      if is_caught x
      then reply (record b { events = event_of x ++ b.events }) w command
          (fallback_for b.session command) w.latency_ms
      else (b, raise x)

  -- The end of the limiter's block: what the work did is seen only if it ran.
  unfoldable pub after_slot :
      Bridge → World → Text → Result Work × RateLimiter → Bridge × Result BridgeResponse
  unfolding finish
  after_slot b w command (raise x, limiter) =
      finish (record b { limiter = limiter }) w command (raise x)
  after_slot b w command (ok work, limiter) =
      let kept = Dict.put b.session.session_id work.budget b.registry.budgets in
      finish
        (record b {
          limiter = limiter;
          registry = record b.registry { budgets = kept };
          events = work.events;
        })
        w command work.shown

  unfoldable pub ask : Bridge → World → Text → Bridge × Result BridgeResponse
  unfolding ask_built after_slot
  ask b w command =
      let (registry, budget) = budget_for c.registry b.registry b.session.session_id in
      let known = record b { registry = registry } in
      after_slot known w command (
        slot unit c.rate_limit b.limiter b.session.session_id w.now w.wait (λ limiter.
          (ok (ask_built known w budget (p.build_messages command b.session)), limiter)))

  unfoldable pub run_moved :
      Bridge → World → Text → Result (SessionContext × Bool) → Bridge × Result BridgeResponse
  unfolding ask reply
  run_moved b w command (raise x) = (b, raise x)
  run_moved b w command (ok (session, true)) =
      reply (record b { session = session }) w command ([], ai) 0
  run_moved b w command (ok (session, false)) = ask b w command

  unfoldable pub run_scored :
      Bridge → World → Text → Result Verdict → Bridge × Result BridgeResponse
  unfolding run_moved
  run_scored b w command (raise x) = (b, raise x)
  run_scored b w command (ok verdict) =
      let told = record b {
        events =
            if verdict.truncated
            then scan_truncated_injection (length command) ∷ b.events
            else b.events;
      } in
      if verdict.fired
      then reply (record told { events = defense_fire verdict ∷ told.events }) w command
          (fallback_for b.session command) w.latency_ms
      else run_moved told w command (handle_cd p.shell_split told.session command)

  unfoldable pub run_sanitised : Bridge → World → Result Text → Bridge × Result BridgeResponse
  unfolding run_scored
  run_sanitised b w (raise x) = (b, raise x)
  run_sanitised b w (ok sanitised) =
      if text_same (strip sanitised) []
      then reply b w sanitised ([], ai) 0
      else run_scored b w sanitised (p.score sanitised)

  unfoldable pub run_command : Bridge → World → Text → Bridge × Result BridgeResponse
  unfolding run_sanitised
  run_command b w command = run_sanitised b w (sanitize_command command c.max_input_chars)

  unfoldable pub fail_closed : SessionContext → Result Text → Text × ResponseSource
  unfolding fallback_for
  fail_closed session (raise x) = ([], rejected)
  fail_closed session (ok sanitised) = fallback_for session sanitised

  unfoldable pub guard_errors : Text → Bridge × Result BridgeResponse → Bridge × BridgeResponse
  unfolding fail_closed
  guard_errors command (b, ok response) = (b, response)
  guard_errors command (b, raise x) =
      let (shown, source) = fail_closed b.session (sanitize_command command c.max_input_chars) in
      (
        record b { events = handler_error x ∷ b.events },
        record { text = shown; source = source; latency_ms = 0 },
      )

  unfoldable pub handle_command : Bridge → World → Text → Bridge × BridgeResponse
  unfolding run_command guard_errors
  handle_command b w command = guard_errors command (run_command b w command)
