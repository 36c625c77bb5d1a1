-- ===== src/Bridge/Service/Stream/Pieces.antt =====
-- The pieces of `_run_command_stream`: the loop over the model's chunks, and how a stream ends.
use anglerfish_ai.Base.{
  ℕ, suc, ◌+◌, Bool, true, false, Option, none, some, List, [], ◌∷◌, ◌++◌, map, if◌then◌else◌, ltb,
  length, text_same, number_key,
}
use anglerfish_ai.Base.Text.{Text}
use anglerfish_ai.Base.Result.{
  Exception, Result, ok, raise, ollama_unavailable, session_rate_limited, global_queue_timeout,
}
use anglerfish_ai.Llm.Budget.{TokenBudget, fast, check}
use anglerfish_ai.Llm.Client.{ChatChunk, Limits, StreamResponse, stream_chunks, stream_chat}
use anglerfish_ai.Bridge.Sanitize.{cap_output}
use anglerfish_ai.Bridge.CounterDeception.{ChatMessage}
use anglerfish_ai.Bridge.Registry.{amend_prompt_for_session}
use anglerfish_ai.Bridge.Session.{ResponseSource, ai, fallback, rejected, record_turn}
use anglerfish_ai.Bridge.Service.{
  Verdict, Parts, BridgeConfig, HandlerEvent, Bridge, World, defense_fire, fallback_for, event_of,
  events_of,
}
use anglerfish_ai.Bridge.Service.Stream.Wasting.{WastingParts}

pub record BridgeChunk : Type 0 where
  pub delta : Text
  pub source : ResponseSource
  pub done : Bool
  pub latency_ms : Option ℕ

-- What was yielded, the state at the end, and the exception that ended it, if one did.
pub record StreamRun : Type 0 where
  pub chunks : List BridgeChunk
  pub bridge : Bridge
  pub failed : Option Exception

-- What the loop over the model's chunks yields, how many chunks it takes, and whether the last of
-- those went over the cap.
pub record Shipped : Type 0 where
  pub deltas : List Text
  pub taken : ℕ
  pub over : Bool

unfoldable pub ship_chunks : ℕ → ℕ → List ChatChunk → Shipped
ship_chunks cap chars [] = record { deltas = []; taken = 0; over = false }
ship_chunks cap chars (chunk ∷ chunks) =
    let rest = ship_chunks cap (chars + length chunk.delta) chunks in
    if text_same chunk.delta []
    then record rest { taken = suc rest.taken }
    else if ltb cap (chars + length chunk.delta)
    then record { deltas = []; taken = 1; over = true }
    else record rest { deltas = chunk.delta ∷ rest.deltas; taken = suc rest.taken }

-- What happens inside the limiter's slot.
pub record StreamWork : Type 0 where
  pub outcome : Result (List Text × Option Exception)
  pub budget : TokenBudget
  pub events : List HandlerEvent

abbrev pub partial_chunk : Text → BridgeChunk
partial_chunk delta = record { delta = delta; source = ai; done = false; latency_ms = none }

abbrev pub last_chunk : Text × ResponseSource → ℕ → BridgeChunk
last_chunk (shown, source) latency = record {
  delta = shown;
  source = source;
  done = true;
  latency_ms = some latency;
}

-- `"".join(accumulated)`
abbrev pub concat : List Text → Text
concat [] = []
concat (s ∷ texts) = s ++ concat texts

-- `_apply_pre_effect`: the message, if there is one.
abbrev pub pre_texts : Option Text → List Text
pre_texts none = []
pre_texts (some message) = message ∷ []

abbrev pub is_given : Option Text → Bool
is_given none = false
is_given (some message) = true

abbrev pub is_ai : ResponseSource → Bool
is_ai ai = true
is_ai fallback = false
is_ai rejected = false

abbrev pub is_slot_error : Exception → Bool
is_slot_error session_rate_limited = true
is_slot_error global_queue_timeout = true
is_slot_error other = false

abbrev pub events_of_error : Option Exception → List HandlerEvent
events_of_error none = []
events_of_error (some x) = event_of x

abbrev pub fire_event : Verdict → List HandlerEvent → List HandlerEvent
fire_event verdict events = if verdict.fired then defense_fire verdict ∷ events else events

module _ (p : Parts) (wasting : WastingParts) (unit : ℕ) (c : BridgeConfig) (limits : Limits)
    (answer : List ChatMessage → StreamResponse) where
  -- The chunks that the client has, if the budget lets the call start.
  unfoldable pub available : TokenBudget → StreamResponse → List ChatChunk
  available budget response = elim (check fast budget) [
    | raise x ↦ []
    | ok u ↦ (stream_chunks limits.max_chunk_chars response).0
  ]

  unfoldable pub read_stream : TokenBudget → List HandlerEvent → StreamResponse → StreamWork
  unfolding available
  read_stream budget events response =
      let shipped = ship_chunks c.max_response_chars 0 (available budget response) in
      let ((seen, end), settled) = stream_chat limits fast budget response shipped.taken in
      let error = if shipped.over then some ollama_unavailable else end in
      record {
        outcome = ok (shipped.deltas, error);
        budget = settled;
        events = events_of_error error ++ events;
      }

  unfoldable pub stream_built : Bridge → TokenBudget → Result (List ChatMessage) → StreamWork
  unfolding read_stream
  stream_built b budget (raise x) = record { outcome = raise x; budget = budget; events = b.events }
  stream_built b budget (ok messages) =
      let (amended, events) =
        amend_prompt_for_session c.registry b.registry b.session.session_id messages
          b.session.command_count in
      read_stream budget (events_of events ++ b.events) (answer amended)

  -- Record the reply and close the stream.
  unfoldable pub close_stream :
      Bridge → World → Text → List Text → Text → Text × ResponseSource → StreamRun
  close_stream b w command sent shown (last, source) = record {
    chunks = map partial_chunk sent ++ (last_chunk (last, source) w.latency_ms ∷ []);
    bridge = record b {
      session = record_turn b.session command shown source w.latency_ms w.timestamp;
    };
    failed = none;
  }

  abbrev pub fail_stream : Bridge → List Text → Exception → StreamRun
  fail_stream b sent x = record { chunks = map partial_chunk sent; bridge = b; failed = some x }

  -- The output filter sees the whole text when it has been shipped, and only reports.
  unfoldable pub check_shipped :
      Bridge → World → Text → List Text → Text → Result Verdict → StreamRun
  unfolding close_stream
  check_shipped b w command sent full (raise x) = fail_stream b sent x
  check_shipped b w command sent full (ok verdict) =
      close_stream (record b { events = fire_event verdict b.events }) w command sent full ([], ai)

  unfoldable pub finish_whole : Bridge → World → Text → List Text → Result Text → StreamRun
  unfolding check_shipped
  finish_whole b w command sent (raise x) = fail_stream b sent x
  finish_whole b w command sent (ok full) = check_shipped b w command sent full (p.check full)

  unfoldable pub finish_broken : Bridge → World → Text → List Text → StreamRun
  unfolding check_shipped
  finish_broken b w command [] =
      let (shown, source) = fallback_for p unit c b.session command in
      close_stream b w command [] shown (shown, source)
  finish_broken b w command (s ∷ sent) =
      check_shipped b w command (s ∷ sent) (concat (s ∷ sent)) (p.check (concat (s ∷ sent)))

  unfoldable pub finish_stream : Bridge → World → Text → List Text → Option Exception → StreamRun
  unfolding finish_whole finish_broken
  finish_stream b w command sent none =
      finish_whole b w command sent (cap_output (concat sent) c.max_response_chars)
  finish_stream b w command sent (some x) = finish_broken b w command sent
