-- ===== src/Bridge/Service/Stream/Asked.antt =====
-- What asking the model streams, under a strategy with a short message before the answer.
use anglerfish_ai.Base.{
  ℕ, ◌+◌, ◌≤◌, Bool, true, false, Option, some, List, [], ◌++◌, text_same, number_key, Bool-cases,
  inl, inr, arith,
}
use anglerfish_ai.Base.Text.{Text, text}
use anglerfish_ai.Base.Result.{Exception, Result, ok, raise}
use anglerfish_ai.Llm.Budget.{TokenBudget}
use anglerfish_ai.Llm.Client.{Limits, StreamResponse}
use anglerfish_ai.Bridge.RateLimit.{
  RateLimiter, Wait, granted, timed_out, admit, hold, slot_after, slot,
}
use anglerfish_ai.Bridge.CounterDeception.{ChatMessage}
use anglerfish_ai.Bridge.Registry.{Registry, member}
use anglerfish_ai.Bridge.Service.{Parts, BridgeConfig, Bridge, World}
use anglerfish_ai.Bridge.Service.Stream
use anglerfish_ai.Bridge.Service.Stream.Chunks.{
  chars_of, chars_of-append, ship_chunks-fits, IsBounded, fail_stream-IsBounded,
  finish_stream-IsBounded,
}

-- A strategy whose message before the answer has at most `n` characters.
abbrev pub IsBrief : ℕ → Stream.Strategy → Type 0
IsBrief n strategy =
    (ctx : Stream.StrategyContext)
    → chars_of (Stream.pre_texts (strategy.pre_command ctx).pre_message) ≤ n

module _ (wasting : Stream.WastingParts) (n : ℕ) (light : IsBrief n wasting.light)
    (aggressive : IsBrief n wasting.aggressive) where
  off_strategy-IsBrief : IsBrief n Stream.off_strategy
  unfolding Stream.off_strategy
  off_strategy-IsBrief ctx = omega arith

  strategy_named-IsBrief : (name : Text) → IsBrief n (Stream.strategy_named wasting name)
  unfolding Stream.strategy_named
  strategy_named-IsBrief name = elim (Bool-cases (text_same name (text "off"))) [
    | inl off ↦ rw off off_strategy-IsBrief
    | inr other ↦ elim (Bool-cases (text_same name (text "light"))) [
      | inl is_light ↦ rw (other, is_light) light
      | inr unlit ↦ elim (Bool-cases (text_same name (text "aggressive"))) [
        | inl is_aggressive ↦ rw (other, unlit, is_aggressive) aggressive
        | inr unknown ↦ rw (other, unlit, unknown) off_strategy-IsBrief
      ]
    ]
  ]

  pub current_strategy-IsBrief :
      (registry : Registry) (sid : ℕ) → IsBrief n (Stream.current_strategy wasting registry sid)
  unfolding Stream.current_strategy
  current_strategy-IsBrief registry sid = elim (Bool-cases (member sid registry.wasted_exhausted)) [
    | inl exhausted ↦ rw exhausted off_strategy-IsBrief
    | inr live ↦ rw live (
        strategy_named-IsBrief
          (Stream.name_or wasting.wasting_strategy wasting.current_wasting_strategy))
  ]

module _ (p : Parts) (wasting : Stream.WastingParts) (unit : ℕ) (c : BridgeConfig) (limits : Limits)
    (answer : List ChatMessage → StreamResponse) (n : ℕ) where
  abbrev bound : ℕ
  bound = n + c.max_response_chars

  -- What a piece of work may have shipped.
  abbrev Fits : Result (List Text × Option Exception) → Type 0
  Fits (raise x) = Unit
  Fits (ok (deltas, error)) = chars_of deltas ≤ c.max_response_chars

  stream_built-Fits :
      (b : Bridge) (budget : TokenBudget) (messages : Result (List ChatMessage))
      → Fits (Stream.stream_built p wasting unit c limits answer b budget messages).outcome
  unfolding Stream.stream_built Stream.read_stream
  stream_built-Fits b budget (raise x) = tt
  stream_built-Fits b budget (ok messages) =
      omega (arith, ship_chunks-fits c.max_response_chars 0 _ (omega arith))

  finish_wasted-IsBounded :
      (b : Bridge) (w : World) (command : Text) (strategy : Stream.Strategy)
      (ctx : Stream.StrategyContext) (effect : Stream.StrategyPreEffect) (deltas : List Text)
      (error : Option Exception)
      → chars_of (Stream.pre_texts effect.pre_message) ≤ n
      → chars_of deltas ≤ c.max_response_chars
      → IsBounded bound (
          Stream.finish_wasted p wasting unit c limits answer b w command strategy ctx effect deltas
            error)
  unfolding Stream.finish_wasted
  finish_wasted-IsBounded b w command strategy ctx effect deltas error brief fits =
      finish_stream-IsBounded p wasting unit c limits answer bound _ w command
        (Stream.pre_texts effect.pre_message ++ deltas) error
        (omega (arith, chars_of-append (Stream.pre_texts effect.pre_message) deltas))

  after_work-IsBounded :
      (b : Bridge) (w : World) (command : Text) (strategy : Stream.Strategy)
      (ctx : Stream.StrategyContext) (effect : Stream.StrategyPreEffect)
      (outcome : Result (List Text × Option Exception))
      → chars_of (Stream.pre_texts effect.pre_message) ≤ n
      → Fits outcome
      → IsBounded bound
          (Stream.after_work p wasting unit c limits answer b w command strategy ctx effect outcome)
  after_work-IsBounded b w command strategy ctx effect (raise x) brief fits =
      fail_stream-IsBounded p wasting unit c limits answer bound b _ x (omega arith)
  after_work-IsBounded b w command strategy ctx effect (ok (deltas, error)) brief fits =
      finish_wasted-IsBounded b w command strategy ctx effect deltas error brief fits

  -- The slot gives the work that was done in it, or raises.
  abbrev IsWork : Stream.StreamWork → Result Stream.StreamWork → Type 0
  IsWork work (raise x) = Unit
  IsWork work (ok done) = Fits done.outcome

  slot_after-IsWork :
      (work : Stream.StreamWork) (admitted : Result (RateLimiter × Bool)) (l : RateLimiter)
      (wait : Wait)
      → Fits work.outcome
      → IsWork work (slot_after unit admitted l wait (λ limiter. (ok work, limiter))).0
  unfolding slot_after hold
  slot_after-IsWork work (raise x) l wait fits = tt
  slot_after-IsWork work (ok (held, false)) l wait fits = tt
  slot_after-IsWork work (ok (held, true)) l granted fits = fits
  slot_after-IsWork work (ok (held, true)) l timed_out fits = tt

  slot-IsWork :
      (work : Stream.StreamWork) (l : RateLimiter) (sid now : ℕ) (wait : Wait)
      → Fits work.outcome
      → IsWork work (slot unit c.rate_limit l sid now wait (λ limiter. (ok work, limiter))).0
  unfolding slot
  slot-IsWork work l sid now wait fits =
      slot_after-IsWork work (admit unit c.rate_limit l sid now) l wait fits

  after_stream_slot-IsBounded :
      (b : Bridge) (w : World) (command : Text) (strategy : Stream.Strategy)
      (ctx : Stream.StrategyContext) (effect : Stream.StrategyPreEffect) (work : Stream.StreamWork)
      (r : Result Stream.StreamWork × RateLimiter)
      → chars_of (Stream.pre_texts effect.pre_message) ≤ n
      → IsWork work r.0
      → IsBounded bound (
          Stream.after_stream_slot p wasting unit c limits answer b w command strategy ctx effect r)
  unfolding Stream.after_stream_slot
  after_stream_slot-IsBounded b w command strategy ctx effect work (raise x, l) brief fits =
      elim (Bool-cases (Stream.is_slot_error x)) [
        | inl expected ↦ rw expected (
            finish_wasted-IsBounded _ w command strategy ctx effect [] (some x) brief (omega arith))
        | inr other ↦
            rw other
              (fail_stream-IsBounded p wasting unit c limits answer bound _ _ x (omega arith))
      ]
  after_stream_slot-IsBounded b w command strategy ctx effect work (ok done, l) brief fits =
      after_work-IsBounded _ w command strategy ctx effect done.outcome brief fits

  ask_with-IsBounded :
      (b : Bridge) (w : World) (command : Text) (budget : TokenBudget) (strategy : Stream.Strategy)
      (ctx : Stream.StrategyContext) (effect : Stream.StrategyPreEffect)
      (messages : Result (List ChatMessage))
      → chars_of (Stream.pre_texts effect.pre_message) ≤ n
      → IsBounded bound (
          Stream.ask_with p wasting unit c limits answer b w command budget strategy ctx effect
            messages)
  unfolding Stream.ask_with
  ask_with-IsBounded b w command budget strategy ctx effect messages brief =
      let work = Stream.stream_built p wasting unit c limits answer b budget messages in
      after_stream_slot-IsBounded b w command strategy ctx effect work
        (slot unit c.rate_limit b.limiter b.session.session_id w.now w.wait
          (λ limiter. (ok work, limiter)))
        brief
        (slot-IsWork work b.limiter b.session.session_id w.now w.wait
          (stream_built-Fits b budget messages))

  pub ask_strategy-IsBounded :
      (b : Bridge) (w : World) (command : Text) (budget : TokenBudget) (strategy : Stream.Strategy)
      → IsBrief n strategy
      → IsBounded bound
          (Stream.ask_strategy p wasting unit c limits answer b w command budget strategy)
  unfolding Stream.ask_strategy
  ask_strategy-IsBounded b w command budget strategy brief =
      let ctx = Stream.context_of p wasting unit c limits answer b in
      let effect = strategy.pre_command ctx in
      ask_with-IsBounded
        (Stream.remember_clarification p wasting unit c limits answer effect.inject_clarification b)
        w command budget strategy ctx effect
        (Stream.messages_for p wasting unit c limits answer effect.inject_clarification b command)
        (brief ctx)
