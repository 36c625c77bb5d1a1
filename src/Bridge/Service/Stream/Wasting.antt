-- ===== src/Bridge/Service/Stream/Wasting.antt =====
-- src/anglerfish/bridge/strategies/base.py and off.py, and `_current_strategy` of
-- src/anglerfish/bridge/service.py. Delays are whole milliseconds.
use anglerfish_ai.Base.{
  ℕ, ◌+◌, Bool, false, Option, none, some, List, if◌then◌else◌, text_same, number_key,
}
use anglerfish_ai.Base.Text.{Text, text}
use anglerfish_ai.Base.Result.{Result}
use anglerfish_ai.Bridge.RateLimit.{Uuid}
use anglerfish_ai.Bridge.CounterDeception.{ChatMessage}
use anglerfish_ai.Bridge.Registry.{Registry, member}
use anglerfish_ai.Bridge.Session.{SessionContext}

pub record StrategyContext : Type 0 where
  pub session_id : Uuid
  pub command_count : ℕ
  pub last_clarification_command_count : Option ℕ

pub record StrategyPreEffect : Type 0 where
  pub pre_message : Option Text
  pub pre_message_delay_ms : ℕ
  pub pre_delay_ms : ℕ
  pub inject_clarification : Bool

unfoldable pub total_added_ms : StrategyPreEffect → ℕ
total_added_ms effect = effect.pre_message_delay_ms + effect.pre_delay_ms

pub record Strategy : Type 0 where
  pub name : Text
  pub pre_command : StrategyContext → StrategyPreEffect
  pub between_chunks : StrategyContext → Text → ℕ → ℕ

unfoldable pub off_strategy : Strategy
off_strategy = record {
  name = text "off";
  pre_command = λ ctx. record {
    pre_message = none;
    pre_message_delay_ms = 0;
    pre_delay_ms = 0;
    inject_clarification = false;
  };
  between_chunks = λ ctx delta chunk_index. 0;
}

-- The two other strategies, the configured one's name, what the reader of overrides gives if there is
-- one (a name, or nothing for a `ValueError`), and the clarification prompt.
pub record WastingParts : Type 0 where
  pub light : Strategy
  pub aggressive : Strategy
  pub wasting_strategy : Text
  pub current_wasting_strategy : Option (Option Text)
  pub build_clarification_messages : Text → SessionContext → Result (List ChatMessage)

-- `get_strategy`, with `off` for a name that is unknown.
unfoldable pub strategy_named : WastingParts → Text → Strategy
strategy_named wasting name =
    if text_same name (text "off")
    then off_strategy
    else if text_same name (text "light")
    then wasting.light
    else if text_same name (text "aggressive")
    then wasting.aggressive
    else off_strategy

abbrev pub name_or : Text → Option (Option Text) → Text
name_or configured none = configured
name_or configured (some none) = configured
name_or configured (some (some name)) = name

unfoldable pub current_strategy : WastingParts → Registry → Uuid → Strategy
unfolding strategy_named
current_strategy wasting registry sid =
    if member sid registry.wasted_exhausted
    then off_strategy
    else strategy_named wasting (name_or wasting.wasting_strategy wasting.current_wasting_strategy)
