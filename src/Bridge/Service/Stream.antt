-- ===== src/Bridge/Service/Stream.antt =====
-- `handle_command_stream` of src/anglerfish/bridge/service.py, with the choice of a wasting strategy.
-- What it yields is a list of chunks. The light and the aggressive strategy, which draw random
-- numbers, are arguments, and so are the clarification prompt and the file of overrides.
mod Wasting
mod Pieces
unfoldable pub use Wasting.*
unfoldable pub use Pieces.*
mod Chunks
mod Closing
mod Asked
mod Agrees
mod Tests
use anglerfish_ai.Base.{
  ℕ, suc, ◌+◌, Bool, true, false, not, ◌&&◌, ◌||◌, Option, none, some, List, [], ◌∷◌, ◌++◌, map,
  if◌then◌else◌, ltb, length, any, text_same, number_key,
}
use anglerfish_ai.Base.Dict
use anglerfish_ai.Base.Text.{Text, strip}
use anglerfish_ai.Base.Result.{
  Exception, Result, ok, raise, ollama_unavailable, session_rate_limited, global_queue_timeout,
}
use anglerfish_ai.Llm.Budget.{TokenBudget, fast, check}
use anglerfish_ai.Llm.Client.{ChatChunk, Limits, StreamResponse, stream_chunks, stream_chat}
use anglerfish_ai.Bridge.Sanitize.{sanitize_command, cap_output}
use anglerfish_ai.Bridge.RateLimit.{RateLimiter, slot}
use anglerfish_ai.Bridge.CounterDeception.{ChatMessage}
use anglerfish_ai.Bridge.Registry.{budget_for, amend_prompt_for_session, accumulate_wasted_ms}
use anglerfish_ai.Bridge.Session.{
  SessionContext, ResponseSource, ai, fallback, rejected, record_turn,
}
use anglerfish_ai.Bridge.Service.Cd.{handle_cd}
use anglerfish_ai.Bridge.Service.{
  Verdict, Parts, BridgeConfig, HandlerEvent, Bridge, World, scan_truncated_injection, defense_fire,
  handler_error, wasting_applied, fallback_for, fail_closed, event_of, events_of,
}

module _ (p : Parts) (wasting : WastingParts) (unit : ℕ) (c : BridgeConfig) (limits : Limits)
    (answer : List ChatMessage → StreamResponse) where
  unfoldable pub delays_ms : Strategy → StrategyContext → ℕ → List Text → ℕ
  delays_ms strategy ctx chunk_index [] = 0
  delays_ms strategy ctx chunk_index (delta ∷ deltas) =
      strategy.between_chunks ctx delta chunk_index
      + delays_ms strategy ctx (suc chunk_index) deltas

  -- What is told and counted of the time that a command was made to take.
  unfoldable pub apply_waste : Bridge → Strategy → StrategyPreEffect → ℕ → Bridge
  apply_waste b strategy effect wasted =
      let told =
        if ltb 0 wasted || effect.inject_clarification
        then wasting_applied strategy.name wasted (is_given effect.pre_message)
            effect.inject_clarification
          ∷ b.events
        else b.events in
      record b {
        events = told;
        registry = accumulate_wasted_ms c.registry b.registry b.session.session_id wasted;
      }

  unfoldable pub finish_wasted :
      Bridge
      → World
      → Text
      → Strategy
      → StrategyContext
      → StrategyPreEffect
      → List Text
      → Option Exception
      → StreamRun
  unfolding finish_stream apply_waste delays_ms
  finish_wasted b w command strategy ctx effect deltas error =
      finish_stream p wasting unit c limits answer
        (apply_waste b strategy effect (total_added_ms effect + delays_ms strategy ctx 0 deltas)) w
        command (pre_texts effect.pre_message ++ deltas) error

  abbrev pub after_work :
      Bridge
      → World
      → Text
      → Strategy
      → StrategyContext
      → StrategyPreEffect
      → Result (List Text × Option Exception)
      → StreamRun
  after_work b w command strategy ctx effect (raise x) =
      fail_stream p wasting unit c limits answer b (pre_texts effect.pre_message) x
  after_work b w command strategy ctx effect (ok (deltas, error)) =
      finish_wasted b w command strategy ctx effect deltas error

  unfoldable pub after_stream_slot :
      Bridge
      → World
      → Text
      → Strategy
      → StrategyContext
      → StrategyPreEffect
      → Result StreamWork × RateLimiter
      → StreamRun
  unfolding finish_wasted
  after_stream_slot b w command strategy ctx effect (raise x, limiter) =
      let left = record b { limiter = limiter } in
      if is_slot_error x
      then finish_wasted left w command strategy ctx effect [] (some x)
      else fail_stream p wasting unit c limits answer left (pre_texts effect.pre_message) x
  after_stream_slot b w command strategy ctx effect (ok work, limiter) =
      let kept = Dict.put b.session.session_id work.budget b.registry.budgets in
      after_work
        (record b {
          limiter = limiter;
          registry = record b.registry { budgets = kept };
          events = work.events;
        })
        w command strategy ctx effect work.outcome

  abbrev pub context_of : Bridge → StrategyContext
  context_of b = record {
    session_id = b.session.session_id;
    command_count = b.session.command_count;
    last_clarification_command_count = Dict.get b.session.session_id b.registry.last_clarification;
  }

  -- A clarification is remembered by the number of commands before it.
  abbrev pub remember_clarification : Bool → Bridge → Bridge
  remember_clarification false b = b
  remember_clarification true b = record b {
    registry = record b.registry {
      last_clarification =
          Dict.put b.session.session_id b.session.command_count b.registry.last_clarification;
    };
  }

  -- The call for a slot and what follows it.
  unfoldable pub ask_with :
      Bridge
      → World
      → Text
      → TokenBudget
      → Strategy
      → StrategyContext
      → StrategyPreEffect
      → Result (List ChatMessage)
      → StreamRun
  unfolding after_stream_slot
  ask_with asked w command budget strategy ctx effect messages =
      after_stream_slot asked w command strategy ctx effect (
        slot unit c.rate_limit asked.limiter asked.session.session_id w.now w.wait (λ limiter.
          (ok (stream_built p wasting unit c limits answer asked budget messages), limiter)))

  abbrev pub messages_for : Bool → Bridge → Text → Result (List ChatMessage)
  messages_for clarify b command =
      if clarify
      then wasting.build_clarification_messages command b.session
      else p.build_messages command b.session

  unfoldable pub ask_strategy : Bridge → World → Text → TokenBudget → Strategy → StreamRun
  unfolding ask_with
  ask_strategy known w command budget strategy =
      let ctx = context_of known in
      let effect = strategy.pre_command ctx in
      ask_with (remember_clarification effect.inject_clarification known) w command budget strategy
        ctx effect (messages_for effect.inject_clarification known command)

  unfoldable pub ask_stream : Bridge → World → Text → StreamRun
  unfolding ask_strategy
  ask_stream b w command =
      let (registry, budget) = budget_for c.registry b.registry b.session.session_id in
      ask_strategy (record b { registry = registry }) w command budget
        (current_strategy wasting registry b.session.session_id)

  -- One chunk, with what is recorded.
  unfoldable pub reply_once : Bridge → World → Text → Text × ResponseSource → ℕ → StreamRun
  reply_once b w command (shown, source) latency = record {
    chunks = last_chunk (shown, source) latency ∷ [];
    bridge = record b { session = record_turn b.session command shown source latency w.timestamp };
    failed = none;
  }

  unfoldable pub stream_moved : Bridge → World → Text → Result (SessionContext × Bool) → StreamRun
  unfolding ask_stream reply_once
  stream_moved b w command (raise x) = fail_stream p wasting unit c limits answer b [] x
  stream_moved b w command (ok (session, true)) =
      reply_once (record b { session = session }) w command ([], ai) 0
  stream_moved b w command (ok (session, false)) = ask_stream b w command

  unfoldable pub stream_scored : Bridge → World → Text → Result Verdict → StreamRun
  unfolding stream_moved
  stream_scored b w command (raise x) = fail_stream p wasting unit c limits answer b [] x
  stream_scored b w command (ok verdict) =
      let told = record b {
        events =
            if verdict.truncated
            then scan_truncated_injection (length command) ∷ b.events
            else b.events;
      } in
      if verdict.fired
      then reply_once (record told { events = defense_fire verdict ∷ told.events }) w command
          (fallback_for p unit c b.session command) w.latency_ms
      else stream_moved told w command (handle_cd p.shell_split told.session command)

  unfoldable pub stream_sanitised : Bridge → World → Result Text → StreamRun
  unfolding stream_scored
  stream_sanitised b w (raise x) = fail_stream p wasting unit c limits answer b [] x
  stream_sanitised b w (ok sanitised) =
      if text_same (strip sanitised) []
      then reply_once b w sanitised ([], ai) 0
      else stream_scored b w sanitised (p.score sanitised)

  unfoldable pub run_command_stream : Bridge → World → Text → StreamRun
  unfolding stream_sanitised
  run_command_stream b w command = stream_sanitised b w (sanitize_command command c.max_input_chars)

  abbrev pub is_ai_text : BridgeChunk → Bool
  is_ai_text chunk = is_ai chunk.source && not (text_same chunk.delta [])

  -- The outer guard: after an exception the stream is closed, with a reply if no text was sent.
  unfoldable pub guard_stream : Text → StreamRun → Option Exception → Bridge × List BridgeChunk
  guard_stream command run none = (run.bridge, run.chunks)
  guard_stream command run (some x) =
      let last =
        if any is_ai_text run.chunks
        then ([], ai)
        else fail_closed p unit c run.bridge.session (sanitize_command command c.max_input_chars) in
      (
        record run.bridge { events = handler_error x ∷ run.bridge.events },
        run.chunks ++ (last_chunk last 0 ∷ []),
      )

  unfoldable pub handle_command_stream : Bridge → World → Text → Bridge × List BridgeChunk
  unfolding run_command_stream guard_stream
  handle_command_stream b w command =
      let run = run_command_stream b w command in guard_stream command run run.failed
