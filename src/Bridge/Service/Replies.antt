-- ===== src/Bridge/Service/Replies.antt =====
-- What a reply of the model has passed before an attacker sees it.
use anglerfish_ai.Base.{
  ℕ, ◌≤◌, ◌≡◌, ◌≢◌, refl, Bool, true, false, List, [], ◌∷◌, ◌++◌, inl, inr, ◌⊎◌, Bool-cases,
  if◌then◌else◌, length, text_same, arith,
}
use anglerfish_ai.Base.Text.{Text, strip}
use anglerfish_ai.Base.Result.{Result, ok, raise}
use anglerfish_ai.Llm.Budget.{TokenBudget}
use anglerfish_ai.Llm.Client.{ChatResult}
use anglerfish_ai.Bridge.Sanitize.{sanitize_command, cap_output}
use anglerfish_ai.Bridge.Sanitize.Trim.{cap_output-IsPrefix}
use anglerfish_ai.Bridge.RateLimit.{
  RateLimiter, Uuid, Wait, granted, timed_out, admit, hold, slot_after, slot,
}
use anglerfish_ai.Bridge.CounterDeception.{ChatMessage}
use anglerfish_ai.Bridge.Registry.{budget_for}
use anglerfish_ai.Bridge.Session.{SessionContext, ResponseSource, ai}
use anglerfish_ai.Bridge.Service.Cd.{handle_cd}
use anglerfish_ai.Bridge.Service.{
  scan_truncated_injection, defense_fire, Verdict, Parts, BridgeConfig, HandlerEvent, Bridge,
  BridgeResponse, World, Work, is_caught, event_of, fallback_for, reply, judge, filter_output,
  read_answer, ask_built, finish, after_slot, ask, run_moved, run_scored, run_sanitised,
  run_command, fail_closed, guard_errors,
}

-- The limiter's block returns what its body returned, or raises.
module _ {ℓ} {A : Type ℓ} (unit : ℕ) (work : A) where
  abbrev body : RateLimiter → Result A × RateLimiter
  body l = (ok work, l)

  IsBody : Result A → Type ℓ
  IsBody (ok x) = x ≡ work
  IsBody (raise x) = Unit {ℓ}

  slot_after-IsBody :
      (r : Result (RateLimiter × Bool)) (s : RateLimiter) (w : Wait)
      → IsBody (slot_after unit r s w body).0
  unfolding IsBody slot_after hold
  slot_after-IsBody (raise x) s w = tt
  slot_after-IsBody (ok (l, false)) s w = tt
  slot_after-IsBody (ok (l, true)) s granted = refl
  slot_after-IsBody (ok (l, true)) s timed_out = tt

module _ (p : Parts) (unit : ℕ) (c : BridgeConfig) where
  -- A text that may be shown: nothing, or a text that the output filter has let pass, within the cap.
  abbrev pub IsShowable : Text → Type 0
  IsShowable shown =
      (shown ≡ [])
      ⊎ ((length shown ≤ c.max_response_chars)
          × ((verdict : Verdict) × (p.check shown ≡ ok verdict) × (verdict.fired ≡ false)))

  ShowableWork : Result Text → Type 0
  ShowableWork (ok shown) = IsShowable shown
  ShowableWork (raise x) = Unit {0}

  judge-ShowableWork :
      (content : Text) (events : List HandlerEvent) (budget : TokenBudget) (shown : Text)
      (r : Result Verdict)
      → p.check shown ≡ r
      → length shown ≤ c.max_response_chars
      → ShowableWork (judge p unit c content events budget shown r).shown
  unfolding judge ShowableWork
  judge-ShowableWork content events budget shown (raise x) e short = tt
  judge-ShowableWork content events budget shown (ok verdict) e short =
      elim (Bool-cases verdict.fired) [
        | inl fired ↦ rw fired tt
        | inr clean ↦ simp clean (inr (short, (verdict, e, clean)))
      ]

  filter_output-ShowableWork :
      (content : Text) (events : List HandlerEvent) (budget : TokenBudget) (r : Result Text)
      → cap_output content c.max_response_chars ≡ r
      → ShowableWork (filter_output p unit c content events budget r).shown
  unfolding filter_output ShowableWork
  filter_output-ShowableWork content events budget (raise x) e = tt
  filter_output-ShowableWork content events budget (ok shown) e =
      let (short, _, _) = cap_output-IsPrefix content c.max_response_chars shown e in
      judge-ShowableWork content events budget shown (p.check shown) refl short

  read_answer-ShowableWork :
      (events : List HandlerEvent) (r : Result ChatResult × TokenBudget)
      → ShowableWork (read_answer p unit c events r).shown
  unfolding read_answer ShowableWork
  read_answer-ShowableWork events (raise x, budget) = tt
  read_answer-ShowableWork events (ok answer, budget) =
      filter_output-ShowableWork answer.content events budget _ refl

  ask_built-ShowableWork :
      (b : Bridge) (w : World) (budget : TokenBudget) (r : Result (List ChatMessage))
      → ShowableWork (ask_built p unit c b w budget r).shown
  unfolding ask_built ShowableWork
  ask_built-ShowableWork b w budget (raise x) = tt
  ask_built-ShowableWork b w budget (ok messages) = read_answer-ShowableWork _ _

  -- A response from the model is showable.
  unfoldable pub IsClean : BridgeResponse → Type 0
  IsClean r = r.source ≡ ai → IsShowable r.text

  unfoldable pub IsCleanResult : Result BridgeResponse → Type 0
  unfolding IsClean
  IsCleanResult (ok r) = IsClean r
  IsCleanResult (raise x) = Unit {0}

  pub fallback_for-source :
      (s : SessionContext) (command : Text) → (fallback_for p unit c s command).1 ≢ ai
  unfolding fallback_for
  fallback_for-source s command = ground arith

  reply-clean :
      (b : Bridge) (w : World) (command : Text) (r : Text × ResponseSource) (n : ℕ)
      → (r.1 ≡ ai → IsShowable r.0)
      → IsCleanResult (reply p unit c b w command r n).1
  unfolding reply IsCleanResult
  reply-clean b w command (shown, source) n h = h

  reply-fallback :
      (b : Bridge) (w : World) (command : Text) (s : SessionContext) (n : ℕ)
      → IsCleanResult (reply p unit c b w command (fallback_for p unit c s command) n).1
  reply-fallback b w command s n =
      reply-clean b w command (fallback_for p unit c s command) n
        (λ h. elim (fallback_for-source s command h) [ ])

  finish-clean :
      (b : Bridge) (w : World) (command : Text) (r : Result Text)
      → ShowableWork r
      → IsCleanResult (finish p unit c b w command r).1
  unfolding finish ShowableWork IsCleanResult
  finish-clean b w command (ok shown) h = reply-clean b w command (shown, ai) w.latency_ms (λ _. h)
  finish-clean b w command (raise x) h = elim (Bool-cases (is_caught x)) [
    | inl caught ↦ simp caught (
        reply-fallback (record b { events = event_of x ++ b.events }) w command b.session
          w.latency_ms)
    | inr other ↦ simp other tt
  ]

  after_slot-clean :
      (b : Bridge) (w : World) (command : Text) (work : Work) (r : Result Work × RateLimiter)
      → IsBody unit work r.0
      → ShowableWork work.shown
      → IsCleanResult (after_slot p unit c b w command r).1
  unfolding after_slot IsBody ShowableWork
  after_slot-clean b w command work (raise x, l) e h = finish-clean _ w command (raise x) tt
  after_slot-clean b w command work (ok done, l) e h = finish-clean _ w command done.shown (rw e h)

  slot-IsBody :
      (work : Work) (l : RateLimiter) (sid : Uuid) (now : ℕ) (w : Wait)
      → IsBody unit work (slot unit c.rate_limit l sid now w (body unit work)).0
  unfolding slot
  slot-IsBody work l sid now w = slot_after-IsBody unit work (admit unit c.rate_limit l sid now) l w

  ask-clean : (b : Bridge) (w : World) (command : Text) → IsCleanResult (ask p unit c b w command).1
  unfolding ask
  ask-clean b w command =
      let (registry, budget) = budget_for c.registry b.registry b.session.session_id in
      let known = record b { registry = registry } in
      let work = ask_built p unit c known w budget (p.build_messages command b.session) in
      after_slot-clean known w command work
        (slot unit c.rate_limit b.limiter b.session.session_id w.now w.wait (body unit work))
        (slot-IsBody work b.limiter b.session.session_id w.now w.wait)
        (ask_built-ShowableWork known w budget (p.build_messages command b.session))

  run_moved-clean :
      (b : Bridge) (w : World) (command : Text) (r : Result (SessionContext × Bool))
      → IsCleanResult (run_moved p unit c b w command r).1
  unfolding run_moved IsCleanResult
  run_moved-clean b w command (raise x) = tt
  run_moved-clean b w command (ok (session, true)) =
      reply-clean (record b { session = session }) w command ([], ai) 0 (λ _. inl refl)
  run_moved-clean b w command (ok (session, false)) = ask-clean b w command

  run_scored-clean :
      (b : Bridge) (w : World) (command : Text) (r : Result Verdict)
      → IsCleanResult (run_scored p unit c b w command r).1
  unfolding run_scored IsCleanResult
  run_scored-clean b w command (raise x) = tt
  run_scored-clean b w command (ok verdict) =
      let told = record b {
        events =
            if verdict.truncated
            then scan_truncated_injection (length command) ∷ b.events
            else b.events;
      } in
      let warned = record told { events = defense_fire verdict ∷ told.events } in
      elim (Bool-cases verdict.fired) [
        | inl fired ↦ simp fired (reply-fallback warned w command b.session w.latency_ms)
        | inr quiet ↦
            simp quiet
              (run_moved-clean told w command (handle_cd p.shell_split told.session command))
      ]

  run_sanitised-clean :
      (b : Bridge) (w : World) (r : Result Text) → IsCleanResult (run_sanitised p unit c b w r).1
  unfolding run_sanitised IsCleanResult
  run_sanitised-clean b w (raise x) = tt
  run_sanitised-clean b w (ok s) = elim (Bool-cases (text_same (strip s) [])) [
    | inl blank ↦ simp blank (reply-clean b w s ([], ai) 0 (λ _. inl refl))
    | inr line ↦ simp line (run_scored-clean b w s (p.score s))
  ]

  pub run_command-clean :
      (b : Bridge) (w : World) (command : Text) → IsCleanResult (run_command p unit c b w command).1
  unfolding run_command
  run_command-clean b w command =
      run_sanitised-clean b w (sanitize_command command c.max_input_chars)

  fail_closed-source : (s : SessionContext) (r : Result Text) → (fail_closed p unit c s r).1 ≢ ai
  unfolding fail_closed
  fail_closed-source s (raise x) = ground arith
  fail_closed-source s (ok command) = fallback_for-source s command

  pub guard_errors-IsClean :
      (command : Text) (r : Bridge × Result BridgeResponse)
      → IsCleanResult r.1
      → IsClean (guard_errors p unit c command r).1
  unfolding guard_errors IsClean IsCleanResult
  guard_errors-IsClean command (b, ok response) h = h
  guard_errors-IsClean command (b, raise x) h =
      λ e. elim (fail_closed-source b.session (sanitize_command command c.max_input_chars) e) [ ]
