-- ===== src/Bridge/Registry/State.antt =====
-- The maps that `AIBridgeService.__init__` of src/anglerfish/bridge/service.py sets up for sessions, its
-- settings for them, and the events it audits of them.
use anglerfish_ai.Base.{ℕ, Bool, List, Option, number_key, text_key}
use anglerfish_ai.Base.Dict.{Dict}
use anglerfish_ai.Base.Text.{Text}
use anglerfish_ai.Llm.Budget.{TokenBudget}
use anglerfish_ai.Threat.Scorer.{ThreatAssessment}
use anglerfish_ai.Bridge.RateLimit.{Uuid}
use anglerfish_ai.Bridge.CounterDeception.{CounterDeceptionConfig, CounterDeceptionState}

pub data Trigger : Type 0 where
  threat pin : Trigger

pub data Intensity : Type 0 where
  mild severe : Intensity

pub data Event : Type 0 where
  counter_deception_engaged :
      Uuid → Option Text → CounterDeceptionState → Trigger → Option ℕ → Event
  timebomb_applied : Uuid → ℕ → Intensity → Event
  wasting_budget_exhausted : Uuid → ℕ → ℕ → Event
  placement_scheduled : Uuid → Text → Event

-- `counter_deception` is the strategy's configuration, if one is wired.
pub record Settings : Type 0 where
  pub session_fast_token_cap : ℕ
  pub session_deep_token_cap : ℕ
  pub session_embed_token_cap : ℕ
  pub session_idle_eviction_s : ℕ
  pub session_wasted_ms_cap : ℕ
  pub honeytokens_enabled : Bool
  pub honeytoken_placement_wired : Bool
  pub placement_threshold : ℕ
  pub counter_deception_enabled : Bool
  pub engagement_threshold : ℕ
  pub counter_deception : Option CounterDeceptionConfig

abbrev pub Uuids : Type 0
Uuids = Dict Uuid (Unit {0})

pub record Registry : Type 0 where
  pub budgets : Dict Uuid TokenBudget
  pub last_clarification : Dict Uuid ℕ
  pub wasted_ms : Dict Uuid ℕ
  pub wasted_exhausted : Uuids
  pub latest_threat : Dict Uuid ThreatAssessment
  pub honeytoken_placed_for : Uuids
  pub source_ip_by_session : Dict Uuid Text
  pub counter_deception_state : Dict Uuid CounterDeceptionState
  pub counter_deception_engaged_for : Uuids
  pub session_last_activity : Dict Uuid ℕ
  pub counter_deception_paths_by_source_ip : Dict Text (List Text)
  pub log : List Event
