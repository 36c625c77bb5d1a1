-- ===== src/Llm/Client/Tests.antt =====
-- Runs of llm/client.py and its theorems at concrete answers.
use anglerfish_ai.Base.{◌+◌, ◌≡◌, ◌≤◌, ◌↔◌, refl, true, false, [], ◌∷◌, All, some}
use anglerfish_ai.Base.Text.{text}
use anglerfish_ai.Base.Result.{raise, budget_exhausted, ollama_unavailable}
use anglerfish_ai.Llm.Budget.{fast, TokenBudget, check, consume, settle, consumed, cap_of}
use anglerfish_ai.Llm.Client.{
  Response, StreamResponse, Body, Line, count, missing, Limits, chat, stream_chat, actual_usage,
}
use anglerfish_ai.Llm.Client.Charges.{cost, IsShort, chat-cost, stream_chat-cost}

program : Unit {0}
unfolding chat stream_chat check consume settle consumed
program = tt

abbrev budget : TokenBudget
budget = record {
  fast_token_cap = 100;
  deep_token_cap = 0;
  embed_token_cap = 0;
  consumed_fast = 40;
  consumed_deep = 0;
  consumed_embed = 0;
}

abbrev answer : Response
answer = Response.http 200 (Body.message (text "root") (count 12) (count 3))

chat_runs : (chat fast budget answer).1.consumed_fast ≡ 55
unfolding program
chat_runs = refl

chat-cost_example :
    (consumed fast (chat fast budget answer).1
      ≡ consumed fast budget + cost fast budget (chat fast budget answer).0)
    × (((chat fast budget answer).0 ≡ raise budget_exhausted)
        ↔ (cap_of fast budget ≤ consumed fast budget))
chat-cost_example = chat-cost fast budget answer

abbrev limits : Limits
limits = record { max_response_tokens = 30; max_chunk_chars = 8 }

-- The third chunk is too long, and ends the stream.
abbrev lines : StreamResponse
lines = StreamResponse.http 200 (
    Line.chunk (text "ro") false missing missing
    ∷ Line.chunk (text "ot") true (count 12) (count 3)
    ∷ Line.chunk (text "far too long") false missing missing
    ∷ [])

stream_runs :
    ((stream_chat limits fast budget lines 9).0.1 ≡ some ollama_unavailable)
    × ((stream_chat limits fast budget lines 9).1.consumed_fast ≡ 55)
    × ((stream_chat limits fast budget lines 1).1.consumed_fast ≡ 40)
unfolding program
stream_runs = (refl, refl, refl)

stream_chat-cost_example :
    (consumed fast (stream_chat limits fast budget lines 9).1
      ≡ consumed fast budget + actual_usage 0 (stream_chat limits fast budget lines 9).0.0)
    × All (IsShort 8) (stream_chat limits fast budget lines 9).0.0
stream_chat-cost_example = stream_chat-cost limits fast budget lines 9
