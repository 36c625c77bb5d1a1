-- ===== src/Bridge/Service/Defended.antt =====
-- What `handle_command` keeps for every command, and what it does with an injection.
use anglerfish_ai.Base.{
  ℕ, ◌+◌, ◌≡◌, refl, ap, ◌∙◌, true, false, [], ◌∷◌, if◌then◌else◌, length, text_same,
}
use anglerfish_ai.Base.Text.{Text, strip}
use anglerfish_ai.Base.Result.{ok}
use anglerfish_ai.Bridge.Sanitize.{sanitize_command}
use anglerfish_ai.Bridge.Session.{ai}
use anglerfish_ai.Bridge.Service.{
  scan_truncated_injection, defense_fire, Verdict, Parts, BridgeConfig, Bridge, World, fallback_for,
  reply, run_scored, run_sanitised, run_command, guard_errors, handle_command,
}
use anglerfish_ai.Bridge.Service.Replies.{
  IsShowable, IsClean, run_command-clean, guard_errors-IsClean,
}
use anglerfish_ai.Bridge.Session.{record_turn}

module _ (p : Parts) (unit : ℕ) (c : BridgeConfig) where
  -- What `handle_command` answers as coming from the model is nothing, or a text within
  -- `max_response_chars` that the output filter has checked and let pass; whatever the model says,
  -- whichever part raises, and however the queue and the limiter answer.
  pub handle_command-IsShowable :
      (b : Bridge) (w : World) (command : Text)
      → (handle_command p unit c b w command).1.source ≡ ai
      → IsShowable p unit c (handle_command p unit c b w command).1.text
  unfolding handle_command IsClean
  handle_command-IsShowable b w command =
      guard_errors-IsClean p unit c command (run_command p unit c b w command)
        (run_command-clean p unit c b w command)

  -- The bridge when the injection scorer has fired.
  warned : Bridge → Text → Verdict → Bridge
  warned b sanitised verdict = record b {
    events =
        defense_fire verdict
        ∷ (if verdict.truncated
            then scan_truncated_injection (length sanitised) ∷ b.events
            else b.events);
  }

  run_scored-fired :
      (b : Bridge) (w : World) (sanitised : Text) (verdict : Verdict)
      → verdict.fired ≡ true
      → run_scored p unit c b w sanitised (ok verdict)
        ≡ reply p unit c
            (warned b sanitised verdict)
            w
            sanitised
            (fallback_for p unit c b.session sanitised)
            w.latency_ms
  unfolding run_scored warned
  run_scored-fired b w sanitised verdict fired = simp fired refl

  run_sanitised-line :
      (b : Bridge) (w : World) (sanitised : Text)
      → text_same (strip sanitised) [] ≡ false
      → run_sanitised p unit c b w (ok sanitised)
        ≡ run_scored p unit c b w sanitised (p.score sanitised)
  unfolding run_sanitised
  run_sanitised-line b w sanitised line = simp line refl

  run_command-fired :
      (b : Bridge) (w : World) (command sanitised : Text) (verdict : Verdict)
      → sanitize_command command c.max_input_chars ≡ ok sanitised
      → text_same (strip sanitised) [] ≡ false
      → p.score sanitised ≡ ok verdict
      → verdict.fired ≡ true
      → run_command p unit c b w command
        ≡ reply p unit c
            (warned b sanitised verdict)
            w
            sanitised
            (fallback_for p unit c b.session sanitised)
            w.latency_ms
  unfolding run_command
  run_command-fired b w command sanitised verdict e line scored fired =
      ap (run_sanitised p unit c b w) e
      ∙ run_sanitised-line b w sanitised line
      ∙ ap (run_scored p unit c b w sanitised) scored
      ∙ run_scored-fired b w sanitised verdict fired

  -- A command that the injection scorer flags gets the scripted reply, whatever the model would
  -- say; it spends no token and no slot, and it is recorded like any other.
  pub handle_command-injection :
      (b : Bridge) (w : World) (command sanitised : Text) (verdict : Verdict)
      → sanitize_command command c.max_input_chars ≡ ok sanitised
      → text_same (strip sanitised) [] ≡ false
      → p.score sanitised ≡ ok verdict
      → verdict.fired ≡ true
      → ((
        (handle_command p unit c b w command).1.text,
        (handle_command p unit c b w command).1.source,
      )
          ≡ fallback_for p unit c b.session sanitised)
        × ((handle_command p unit c b w command).0.registry ≡ b.registry)
        × ((handle_command p unit c b w command).0.limiter ≡ b.limiter)
        × ((handle_command p unit c b w command).0.session.command_count
            ≡ b.session.command_count + 1)
  unfolding handle_command guard_errors reply record_turn warned
  handle_command-injection b w command sanitised verdict e line scored fired =
      rw (run_command-fired b w command sanitised verdict e line scored fired)
        (refl, refl, refl, refl)
