-- ===== src/Bridge/Service/Stream/Agrees.antt =====
-- Where the model is not asked, the stream says what the plain handler says.
use anglerfish_ai.Base.{
  ℕ, ◌≡◌, refl, true, false, ◌⊎◌, inl, inr, none, List, [], ◌∷◌, if◌then◌else◌, length, text_same,
  Bool-cases,
}
use anglerfish_ai.Base.Text.{Text, strip}
use anglerfish_ai.Base.Result.{Result, ok}
use anglerfish_ai.Llm.Client.{Limits, StreamResponse}
use anglerfish_ai.Bridge.Sanitize.{sanitize_command}
use anglerfish_ai.Bridge.CounterDeception.{ChatMessage}
use anglerfish_ai.Bridge.Session.{SessionContext, ResponseSource, ai}
use anglerfish_ai.Bridge.Service.Cd.{handle_cd}
use anglerfish_ai.Bridge.Service.{
  Verdict, Parts, BridgeConfig, Bridge, BridgeResponse, World, fallback_for, reply, run_moved,
  run_scored, run_sanitised, run_command, guard_errors, handle_command,
}
use anglerfish_ai.Bridge.Service.Stream

-- The plain handler returned, and the stream is its reply in one chunk.
abbrev Agrees : Bridge × Result BridgeResponse → Stream.StreamRun → Type 0
Agrees plain run =
    (response : BridgeResponse) × (plain.1 ≡ ok response)
    × (run ≡ record {
      chunks = Stream.last_chunk (response.text, response.source) response.latency_ms ∷ [];
      bridge = plain.0;
      failed = none;
    })

-- A command that is answered without the model: `cd`, or one that the injection scorer flags.
abbrev pub IsHandled : Parts → SessionContext → Text → Type 0
IsHandled p session sanitised =
    (verdict : Verdict) × (p.score sanitised ≡ ok verdict)
    × ((verdict.fired ≡ true)
        ⊎ ((verdict.fired ≡ false)
            × (moved : SessionContext) × (handle_cd p.shell_split session sanitised
                ≡ ok (moved, true))))

module _ (p : Parts) (wasting : Stream.WastingParts) (unit : ℕ) (c : BridgeConfig) (limits : Limits)
    (answer : List ChatMessage → StreamResponse) where
  reply-Agrees :
      (b : Bridge) (w : World) (command : Text) (shown : Text × ResponseSource) (latency : ℕ)
      → Agrees
          (reply p unit c b w command shown latency)
          (Stream.reply_once p wasting unit c limits answer b w command shown latency)
  unfolding reply Stream.reply_once
  reply-Agrees b w command (shown, source) latency =
      (record { text = shown; source = source; latency_ms = latency }, refl, refl)

  run_moved-Agrees :
      (b : Bridge) (w : World) (command : Text) (session : SessionContext)
      → Agrees
          (run_moved p unit c b w command (ok (session, true)))
          (Stream.stream_moved p wasting unit c limits answer b w command (ok (session, true)))
  unfolding run_moved Stream.stream_moved
  run_moved-Agrees b w command session =
      reply-Agrees (record b { session = session }) w command ([], ai) 0

  run_scored-Agrees :
      (b : Bridge) (w : World) (command : Text)
      → IsHandled p b.session command
      → Agrees
          (run_scored p unit c b w command (p.score command))
          (Stream.stream_scored p wasting unit c limits answer b w command (p.score command))
  unfolding run_scored Stream.stream_scored
  run_scored-Agrees b w command (verdict, scored, inl fired) =
      simp (scored, fired)
        (reply-Agrees _ w command (fallback_for p unit c b.session command) w.latency_ms)
  run_scored-Agrees b w command (verdict, scored, inr (quiet, moved, cd)) =
      simp (scored, quiet, cd)
        (run_moved-Agrees
          (record b {
            events =
                if verdict.truncated
                then Stream.scan_truncated_injection (length command) ∷ b.events
                else b.events;
          })
          w command moved)

  run_sanitised-Agrees :
      (b : Bridge) (w : World) (sanitised : Text)
      → (text_same (strip sanitised) [] ≡ true) ⊎ IsHandled p b.session sanitised
      → Agrees
          (run_sanitised p unit c b w (ok sanitised))
          (Stream.stream_sanitised p wasting unit c limits answer b w (ok sanitised))
  unfolding run_sanitised Stream.stream_sanitised
  run_sanitised-Agrees b w sanitised (inl blank) = rw blank (reply-Agrees b w sanitised ([], ai) 0)
  run_sanitised-Agrees b w sanitised (inr handled) =
      elim (Bool-cases (text_same (strip sanitised) [])) [
        | inl blank ↦ rw blank (reply-Agrees b w sanitised ([], ai) 0)
        | inr line ↦ rw line (run_scored-Agrees b w sanitised handled)
      ]

  guard-Agrees :
      (command : Text) (plain : Bridge × Result BridgeResponse) (run : Stream.StreamRun)
      → Agrees plain run
      → let answered = guard_errors p unit c command plain in
        Stream.guard_stream p wasting unit c limits answer command run run.failed ≡ (
          answered.0,
          Stream.last_chunk (answered.1.text, answered.1.source) answered.1.latency_ms ∷ [],
        )
  unfolding guard_errors Stream.guard_stream
  guard-Agrees command (b, result) run (response, returned, same) = rw (same, returned) refl

  -- A blank line, a `cd` that the bridge handles and a command that the injection scorer flags are
  -- answered alike by both handlers: the stream is the plain handler's reply as one chunk, and leaves
  -- the bridge in the same state, whatever the model would say. The line can be sanitised.
  pub handle_command_stream-handle_command :
      (b : Bridge) (w : World) (command sanitised : Text)
      → sanitize_command command c.max_input_chars ≡ ok sanitised
      → (text_same (strip sanitised) [] ≡ true) ⊎ IsHandled p b.session sanitised
      → let answered = handle_command p unit c b w command in
        Stream.handle_command_stream p wasting unit c limits answer b w command ≡ (
          answered.0,
          Stream.last_chunk (answered.1.text, answered.1.source) answered.1.latency_ms ∷ [],
        )
  unfolding handle_command run_command Stream.handle_command_stream Stream.run_command_stream
  handle_command_stream-handle_command b w command sanitised clean handled = rw clean (
      guard-Agrees command (run_sanitised p unit c b w (ok sanitised))
        (Stream.stream_sanitised p wasting unit c limits answer b w (ok sanitised))
        (run_sanitised-Agrees b w sanitised handled))
