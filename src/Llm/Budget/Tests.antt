-- ===== src/Llm/Budget/Tests.antt =====
-- Runs of llm/budget.py and its theorems at concrete budgets.
use anglerfish_ai.Base.{◌+◌, ◌*◌, ◌≤◌, ◌<◌, ◌≡◌, ◌≢◌, ◌↔◌, refl, arith}
use anglerfish_ai.Base.Result.{ok}
use anglerfish_ai.Llm.Budget.{fast, deep, TokenBudget, cap_of, consumed, check, consume, settle}
use anglerfish_ai.Llm.Budget.Streams.{
  Streams, Reach, here, next, reserve, finish, streams_accounted,
}

program : Unit {0}
unfolding check consume settle consumed cap_of
program = tt

abbrev fresh : TokenBudget
fresh = record {
  fast_token_cap = 100;
  deep_token_cap = 0;
  embed_token_cap = 0;
  consumed_fast = 0;
  consumed_deep = 0;
  consumed_embed = 0;
}

-- Two streams of 60 reserved tokens start, and one ends with 25 used.
abbrev later : Streams
later = record { budget = record fresh { consumed_fast = 85 }; in_flight = 1; settled = 25 }

reached : Reach fast 60 (record { budget = fresh; in_flight = 0; settled = 0 }) later
unfolding program
reached =
    next (next (next here (reserve refl refl)) (reserve refl refl)) (finish 25 (omega arith) refl)

streams_accounted_example :
    (consumed fast later.budget ≡ 25 + 1 * 60)
    × (1 * 60 ≤ cap_of fast fresh + 60)
    × ((check fast later.budget ≡ ok tt) ↔ (25 + 1 * 60 < cap_of fast fresh))
unfolding program
streams_accounted_example = streams_accounted fast 60 fresh refl reached

fast-ne-deep : fast ≢ deep
fast-ne-deep h = cc
