-- ===== src/Bridge/Service/Data.antt =====
-- What `handle_command` of src/anglerfish/bridge/service.py works on: the parts it calls, the state it
-- changes, the world outside, and what it answers.
use anglerfish_ai.Base.{ℕ, Bool, List, Option, number_key}
use anglerfish_ai.Base.Text.{Text}
use anglerfish_ai.Base.Result.{Exception, Result}
use anglerfish_ai.Llm.Budget.{TokenBudget}
use anglerfish_ai.Llm.Client.{Response}
use anglerfish_ai.Bridge.RateLimit.{RateLimitConfig, RateLimiter, Wait}
use anglerfish_ai.Bridge.CounterDeception.{ChatMessage}
use anglerfish_ai.Bridge.Registry.{Settings, Registry, Event}
use anglerfish_ai.Bridge.Session.{SessionContext, ResponseSource}

-- A detector's verdict.
pub record Verdict : Type 0 where
  pub fired : Bool
  pub truncated : Bool

pub record Parts : Type 0 where
  pub shell_split : Text → Result (List Text)
  pub score : Text → Result Verdict
  pub check : Text → Result Verdict
  pub build_messages : Text → SessionContext → Result (List ChatMessage)
  pub fallback_response : Text → SessionContext → Option Text

pub record BridgeConfig : Type 0 where
  pub max_input_chars : ℕ
  pub max_response_chars : ℕ
  pub enable_fallback : Bool
  pub rate_limit : RateLimitConfig
  pub registry : Settings

-- What the handler's own events tell, beside those of the registry.
pub data HandlerEvent : Type 0 where
  scan_truncated_injection : ℕ → HandlerEvent
  scan_truncated_output : ℕ → HandlerEvent
  defense_fire : Verdict → HandlerEvent
  budget_exhausted_event : HandlerEvent
  handler_error : Exception → HandlerEvent
  registry_event : Event → HandlerEvent
  wasting_applied : Text → ℕ → Bool → Bool → HandlerEvent

pub record Bridge : Type 0 where
  pub session : SessionContext
  pub registry : Registry
  pub limiter : RateLimiter
  pub events : List HandlerEvent

pub record BridgeResponse : Type 0 where
  pub text : Text
  pub source : ResponseSource
  pub latency_ms : ℕ

-- What the outside does during one command: the clocks, the queue, the model.
pub record World : Type 0 where
  pub now : ℕ
  pub timestamp : ℕ
  pub latency_ms : ℕ
  pub wait : Wait
  pub model : List ChatMessage → Response

-- What one call of the model comes to, with the budget after it and the events on the way.
pub record Work : Type 0 where
  pub shown : Result Text
  pub budget : TokenBudget
  pub events : List HandlerEvent
