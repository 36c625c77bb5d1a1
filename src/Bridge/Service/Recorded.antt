-- ===== src/Bridge/Service/Recorded.antt =====
-- How often `handle_command` records a command.
use anglerfish_ai.Base.{
  ℕ, ◌+◌, ◌≡◌, refl, ap, Bool, true, false, [], ◌∷◌, ◌++◌, inl, inr, Bool-cases, if◌then◌else◌,
  length, text_same, arith,
}
use anglerfish_ai.Base.Text.{Text, strip}
use anglerfish_ai.Base.Result.{Result, ok, raise}
use anglerfish_ai.Bridge.Sanitize.{sanitize_command}
use anglerfish_ai.Bridge.RateLimit.{RateLimiter}
use anglerfish_ai.Bridge.Registry.{budget_for}
use anglerfish_ai.Bridge.Session.{SessionContext, ResponseSource, ai, record_turn}
use anglerfish_ai.Bridge.Service.Cd.{handle_cd}
use anglerfish_ai.Bridge.Service.Cd.Moves.{IsMoved, handle_cd-IsMoved}
use anglerfish_ai.Bridge.Service.{
  scan_truncated_injection, defense_fire, Verdict, Parts, BridgeConfig, Bridge, BridgeResponse,
  World, Work, is_caught, event_of, fallback_for, reply, finish, after_slot, ask, run_moved,
  run_scored, run_sanitised, run_command, guard_errors, handle_command,
}

-- One more command than `n` on a session that was answered, and `n` where the handler raised.
unfoldable pub IsTallied : ℕ → Bridge × Result BridgeResponse → Type 0
IsTallied n (b, ok r) = b.session.command_count ≡ n + 1
IsTallied n (b, raise x) = b.session.command_count ≡ n

module _ (p : Parts) (unit : ℕ) (c : BridgeConfig) where
  reply-IsTallied :
      (b : Bridge) (w : World) (command : Text) (r : Text × ResponseSource) (ms : ℕ)
      → IsTallied b.session.command_count (reply p unit c b w command r ms)
  unfolding IsTallied reply record_turn
  reply-IsTallied b w command r ms = refl

  finish-IsTallied :
      (b : Bridge) (w : World) (command : Text) (r : Result Text)
      → IsTallied b.session.command_count (finish p unit c b w command r)
  unfolding finish IsTallied
  finish-IsTallied b w command (ok shown) = reply-IsTallied b w command (shown, ai) w.latency_ms
  finish-IsTallied b w command (raise x) = elim (Bool-cases (is_caught x)) [
    | inl caught ↦ simp caught (
        reply-IsTallied (record b { events = event_of x ++ b.events }) w command
          (fallback_for p unit c b.session command) w.latency_ms)
    | inr other ↦ simp other refl
  ]

  after_slot-IsTallied :
      (b : Bridge) (w : World) (command : Text) (r : Result Work × RateLimiter)
      → IsTallied b.session.command_count (after_slot p unit c b w command r)
  unfolding after_slot
  after_slot-IsTallied b w command (raise x, l) = finish-IsTallied _ w command (raise x)
  after_slot-IsTallied b w command (ok work, l) = finish-IsTallied _ w command work.shown

  ask-IsTallied :
      (b : Bridge) (w : World) (command : Text)
      → IsTallied b.session.command_count (ask p unit c b w command)
  unfolding ask
  ask-IsTallied b w command =
      after_slot-IsTallied
        (record b { registry = (budget_for c.registry b.registry b.session.session_id).0 }) w
        command _

  run_moved-IsTallied :
      (b : Bridge) (w : World) (command : Text) (t : SessionContext) (handled : Bool)
      → t.command_count ≡ b.session.command_count
      → IsTallied b.session.command_count (run_moved p unit c b w command (ok (t, handled)))
  unfolding run_moved
  run_moved-IsTallied b w command t false same = ask-IsTallied b w command
  run_moved-IsTallied b w command t true same =
      rw⁻¹ same (reply-IsTallied (record b { session = t }) w command ([], ai) 0)

  moved-count : (s t : SessionContext) → IsMoved s t → t.command_count ≡ s.command_count
  moved-count s t (inl same) = ap (λ (x : SessionContext). x.command_count) same
  moved-count s t (inr (_, same)) = ap (λ (x : SessionContext). x.command_count) same

  run_cd-IsTallied :
      (b : Bridge) (w : World) (command : Text)
      → IsTallied b.session.command_count
          (run_moved p unit c b w command (handle_cd p.shell_split b.session command))
  run_cd-IsTallied b w command =
      let (t, handled, e, moves) = handle_cd-IsMoved p.shell_split b.session command in
      rw e (run_moved-IsTallied b w command t handled (moved-count b.session t moves))

  run_scored-IsTallied :
      (b : Bridge) (w : World) (command : Text) (r : Result Verdict)
      → IsTallied b.session.command_count (run_scored p unit c b w command r)
  unfolding run_scored IsTallied
  run_scored-IsTallied b w command (raise x) = refl
  run_scored-IsTallied b w command (ok verdict) =
      let told = record b {
        events =
            if verdict.truncated
            then scan_truncated_injection (length command) ∷ b.events
            else b.events;
      } in
      let warned = record told { events = defense_fire verdict ∷ told.events } in
      elim (Bool-cases verdict.fired) [
        | inl fired ↦ simp fired (
            reply-IsTallied warned w command (fallback_for p unit c b.session command) w.latency_ms)
        | inr quiet ↦ simp quiet (run_cd-IsTallied told w command)
      ]

  run_sanitised-IsTallied :
      (b : Bridge) (w : World) (r : Result Text)
      → IsTallied b.session.command_count (run_sanitised p unit c b w r)
  unfolding run_sanitised IsTallied
  run_sanitised-IsTallied b w (raise x) = refl
  run_sanitised-IsTallied b w (ok s) = elim (Bool-cases (text_same (strip s) [])) [
    | inl blank ↦ simp blank (reply-IsTallied b w s ([], ai) 0)
    | inr line ↦ simp line (run_scored-IsTallied b w s (p.score s))
  ]

  abbrev pub answered : Result BridgeResponse → ℕ
  answered (ok r) = 1
  answered (raise x) = 0

  guard_errors-count :
      (n : ℕ) (command : Text) (r : Bridge × Result BridgeResponse)
      → IsTallied n r
      → (guard_errors p unit c command r).0.session.command_count ≡ n + answered r.1
  unfolding guard_errors IsTallied
  guard_errors-count n command (b, ok response) h = h
  guard_errors-count n command (b, raise x) h = omega (arith, h)

  -- `handle_command` records a command once if some branch of the handler answered it, whichever
  -- that was, and not at all if an exception reached the outer guard.
  pub handle_command-records :
      (b : Bridge) (w : World) (command : Text)
      → (handle_command p unit c b w command).0.session.command_count
        ≡ b.session.command_count + answered (run_command p unit c b w command).1
  unfolding handle_command run_command
  handle_command-records b w command =
      guard_errors-count b.session.command_count command (run_command p unit c b w command)
        (run_sanitised-IsTallied b w (sanitize_command command c.max_input_chars))
