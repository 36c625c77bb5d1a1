-- ===== src/Bridge/Service/Stream/Closing.antt =====
-- How every stream of `handle_command_stream` goes and ends.
use anglerfish_ai.Base.{
  ℕ, ◌+◌, ◌≤◌, ◌≡◌, refl, ap, Bool, true, false, Option, none, some, List, [], ◌∷◌, ◌++◌, map,
  if◌then◌else◌, any, text_same, number_key, Bool-cases, inl, inr, arith,
}
use anglerfish_ai.Base.Text.{Text, strip}
use anglerfish_ai.Base.Result.{Exception, Result, ok, raise}
use anglerfish_ai.Llm.Client.{Limits, StreamResponse}
use anglerfish_ai.Bridge.Sanitize.{sanitize_command}
use anglerfish_ai.Bridge.CounterDeception.{ChatMessage}
use anglerfish_ai.Bridge.Registry.{budget_for}
use anglerfish_ai.Bridge.Session.{SessionContext, ResponseSource, ai}
use anglerfish_ai.Bridge.Service.Cd.{handle_cd}
use anglerfish_ai.Bridge.Service.{
  Verdict, Parts, BridgeConfig, Bridge, World, fallback_for, fail_closed,
}
use anglerfish_ai.Bridge.Service.Stream
use anglerfish_ai.Bridge.Service.Stream.Chunks.{chars_of, Shape, IsBounded, fail_stream-IsBounded}
use anglerfish_ai.Bridge.Service.Stream.Asked.{
  IsBrief, current_strategy-IsBrief, ask_strategy-IsBounded,
}

module _ (p : Parts) (wasting : Stream.WastingParts) (unit : ℕ) (c : BridgeConfig) (limits : Limits)
    (answer : List ChatMessage → StreamResponse) (n : ℕ) (light : IsBrief n wasting.light)
    (aggressive : IsBrief n wasting.aggressive) where
  abbrev bound : ℕ
  bound = n + c.max_response_chars

  ask_stream-IsBounded :
      (b : Bridge) (w : World) (command : Text)
      → IsBounded bound (Stream.ask_stream p wasting unit c limits answer b w command)
  unfolding Stream.ask_stream
  ask_stream-IsBounded b w command =
      let known = budget_for c.registry b.registry b.session.session_id in
      ask_strategy-IsBounded p wasting unit c limits answer n (record b { registry = known.0 }) w
        command known.1 (Stream.current_strategy wasting known.0 b.session.session_id)
        (current_strategy-IsBrief wasting n light aggressive known.0 b.session.session_id)

  reply_once-IsBounded :
      (b : Bridge) (w : World) (command : Text) (shown : Text × ResponseSource) (latency : ℕ)
      → IsBounded bound (Stream.reply_once p wasting unit c limits answer b w command shown latency)
  unfolding Stream.reply_once
  reply_once-IsBounded b w command (shown, source) latency = record {
    sent = [];
    fits = omega arith;
    shape = ((shown, source), latency, refl);
  }

  stream_moved-IsBounded :
      (b : Bridge) (w : World) (command : Text) (r : Result (SessionContext × Bool))
      → IsBounded bound (Stream.stream_moved p wasting unit c limits answer b w command r)
  unfolding Stream.stream_moved
  stream_moved-IsBounded b w command (raise x) =
      fail_stream-IsBounded p wasting unit c limits answer bound b [] x (omega arith)
  stream_moved-IsBounded b w command (ok (session, true)) =
      reply_once-IsBounded (record b { session = session }) w command ([], ai) 0
  stream_moved-IsBounded b w command (ok (session, false)) = ask_stream-IsBounded b w command

  stream_scored-IsBounded :
      (b : Bridge) (w : World) (command : Text) (r : Result Verdict)
      → IsBounded bound (Stream.stream_scored p wasting unit c limits answer b w command r)
  unfolding Stream.stream_scored
  stream_scored-IsBounded b w command (raise x) =
      fail_stream-IsBounded p wasting unit c limits answer bound b [] x (omega arith)
  stream_scored-IsBounded b w command (ok verdict) = elim (Bool-cases verdict.fired) [
    | inl fired ↦
        simp fired
          (reply_once-IsBounded _ w command (fallback_for p unit c b.session command) w.latency_ms)
    | inr quiet ↦
        simp quiet (stream_moved-IsBounded _ w command (handle_cd p.shell_split b.session command))
  ]

  stream_sanitised-IsBounded :
      (b : Bridge) (w : World) (r : Result Text)
      → IsBounded bound (Stream.stream_sanitised p wasting unit c limits answer b w r)
  unfolding Stream.stream_sanitised
  stream_sanitised-IsBounded b w (raise x) =
      fail_stream-IsBounded p wasting unit c limits answer bound b [] x (omega arith)
  stream_sanitised-IsBounded b w (ok sanitised) =
      elim (Bool-cases (text_same (strip sanitised) [])) [
        | inl blank ↦ rw blank (reply_once-IsBounded b w sanitised ([], ai) 0)
        | inr line ↦ rw line (stream_scored-IsBounded b w sanitised (p.score sanitised))
      ]

  -- What the guard makes of a run.
  guard_stream-closes :
      (command : Text) (r : Stream.StreamRun) (failed : Option Exception) (sent : List Text)
      → Shape sent failed r.chunks
      → (last : Text × ResponseSource) × (latency : ℕ) × ((Stream.guard_stream p wasting unit c
            limits answer command r failed).1
          ≡ map Stream.partial_chunk sent ++ (Stream.last_chunk last latency ∷ []))
  unfolding Stream.guard_stream
  guard_stream-closes command r none sent shape = shape
  guard_stream-closes command r (some x) sent shape =
      let last =
        if any (Stream.is_ai_text p wasting unit c limits answer) r.chunks
        then ([], ai)
        else fail_closed p unit c r.bridge.session (sanitize_command command c.max_input_chars) in
      (last, 0, ap (λ chunks. chunks ++ (Stream.last_chunk last 0 ∷ [])) shape)

  -- Whatever the model streams, whichever part raises, and however the queue and the limiter
  -- answer, a stream is some partial chunks and then exactly one last chunk, which is marked done.
  -- The partial chunks have no more characters than the cap on the model's answer and the
  -- strategy's message before it, which has at most `n` in the light and in the aggressive strategy.
  pub handle_command_stream-closes :
      (b : Bridge) (w : World) (command : Text)
      → (sent : List Text) × (last : Text × ResponseSource) × (latency : ℕ)
        × ((Stream.handle_command_stream p wasting unit c limits answer b w command).1
            ≡ map Stream.partial_chunk sent ++ (Stream.last_chunk last latency ∷ []))
        × (chars_of sent ≤ n + c.max_response_chars)
  unfolding Stream.handle_command_stream Stream.run_command_stream
  handle_command_stream-closes b w command =
      let run = stream_sanitised-IsBounded b w (sanitize_command command c.max_input_chars) in
      let (last, latency, closed) =
        guard_stream-closes command
          (Stream.run_command_stream p wasting unit c limits answer b w command)
          (Stream.run_command_stream p wasting unit c limits answer b w command).failed run.sent
          run.shape in
      (run.sent, last, latency, closed, run.fits)
