-- ===== src/Llm/Budget.antt =====
-- src/anglerfish/llm/budget.py: the tokens a session may still spend, for each role. The caps are
-- natural numbers, so the refusal of a negative cap or count has no counterpart here.
pub mod Streams
mod Tests
use anglerfish_ai.Base.{ℕ, ◌+◌, ◌-◌, leb, if◌then◌else◌}
use anglerfish_ai.Base.Result.{Result, ok, raise, budget_exhausted}

pub data LlmRole : Type 0 where
  fast deep embed : LlmRole

pub record TokenBudget : Type 0 where
  pub fast_token_cap : ℕ
  pub deep_token_cap : ℕ
  pub embed_token_cap : ℕ
  pub consumed_fast : ℕ
  pub consumed_deep : ℕ
  pub consumed_embed : ℕ

unfoldable pub cap_and_consumed : LlmRole → TokenBudget → ℕ × ℕ
cap_and_consumed fast b = (b.fast_token_cap, b.consumed_fast)
cap_and_consumed deep b = (b.deep_token_cap, b.consumed_deep)
cap_and_consumed embed b = (b.embed_token_cap, b.consumed_embed)

unfoldable pub cap_of : LlmRole → TokenBudget → ℕ
unfolding cap_and_consumed
cap_of role b = (cap_and_consumed role b).0

unfoldable pub consumed : LlmRole → TokenBudget → ℕ
unfolding cap_and_consumed
consumed role b = (cap_and_consumed role b).1

unfoldable pub set_consumed : LlmRole → ℕ → TokenBudget → TokenBudget
set_consumed fast n b = record b { consumed_fast = n }
set_consumed deep n b = record b { consumed_deep = n }
set_consumed embed n b = record b { consumed_embed = n }

-- `max(0, cap - consumed)`
unfoldable pub remaining : LlmRole → TokenBudget → ℕ
unfolding cap_and_consumed
remaining role b = let (cap, used) = cap_and_consumed role b in cap - used

unfoldable pub check : LlmRole → TokenBudget → Result (Unit {0})
unfolding remaining
check role b = if leb (remaining role b) 0 then raise budget_exhausted else ok tt

unfoldable pub consume : LlmRole → ℕ → TokenBudget → TokenBudget
consume fast tokens b = record b { consumed_fast = b.consumed_fast + tokens }
consume deep tokens b = record b { consumed_deep = b.consumed_deep + tokens }
consume embed tokens b = record b { consumed_embed = b.consumed_embed + tokens }

-- `max(0, consumed + actual - reserved)`
unfoldable pub settle : LlmRole → ℕ → ℕ → TokenBudget → TokenBudget
unfolding consumed set_consumed
settle role reserved actual b = set_consumed role (consumed role b + actual - reserved) b
