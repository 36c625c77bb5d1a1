-- ===== src/Llm/Client.antt =====
-- src/anglerfish/llm/client.py: one call of the model under a session's token budget. What Ollama
-- answers is an argument, read as the code reads it: the status first, then the body's shape.
pub mod Charges
mod Tests
use anglerfish_ai.Base.{
  ℕ, ◌+◌, Bool, true, false, ◌&&◌, List, [], ◌∷◌, Option, none, some, leb, ltb, if◌then◌else◌,
  length, take,
}
use anglerfish_ai.Base.Text.{Text}
use anglerfish_ai.Base.Result.{
  Exception, Result, ok, raise, ◌>>=◌, budget_exhausted, ollama_unavailable, ollama_response,
}
use anglerfish_ai.Llm.Budget.{LlmRole, TokenBudget, check, consume, settle}

-- A usage field of the answer: missing or no integer, below zero, or a count.
pub data Count : Type 0 where
  missing negative : Count
  count : ℕ → Count

unfoldable pub int_or_zero : Count → ℕ
int_or_zero missing = 0
int_or_zero negative = 0
int_or_zero (count n) = n

pub record TokenUsage : Type 0 where
  pub prompt_tokens : ℕ
  pub completion_tokens : ℕ

unfoldable pub parse_usage : Count → Count → TokenUsage
unfolding int_or_zero
parse_usage prompt_eval_count eval_count = record {
  prompt_tokens = int_or_zero prompt_eval_count;
  completion_tokens = int_or_zero eval_count;
}

abbrev pub total : TokenUsage → ℕ
total u = u.prompt_tokens + u.completion_tokens

pub data Body : Type 0 where
  malformed not_object no_message no_content : Body
  message : Text → Count → Count → Body

pub data Response : Type 0 where
  transport_error : Response
  http : ℕ → Body → Response

pub record ChatResult : Type 0 where
  pub content : Text
  pub usage : TokenUsage

unfoldable pub read_body : Body → Result ChatResult
unfolding parse_usage
read_body malformed = raise ollama_response
read_body not_object = raise ollama_response
read_body no_message = raise ollama_response
read_body no_content = raise ollama_response
read_body (message content prompt_eval_count eval_count) =
    ok (record { content = content; usage = parse_usage prompt_eval_count eval_count })

unfoldable pub read_response : Response → Result ChatResult
unfolding read_body
read_response transport_error = raise ollama_unavailable
read_response (http status body) =
    if leb 500 status && ltb status 600
    then raise ollama_unavailable
    else if leb 400 status
    then raise ollama_response
    else read_body body

-- The end of `_chat`: the usage is consumed only if the answer was read.
unfoldable pub charge : LlmRole → TokenBudget → Result ChatResult → Result ChatResult × TokenBudget
charge role b (raise x) = (raise x, b)
charge role b (ok r) = (ok r, consume role (total r.usage) b)

unfoldable pub chat_checked :
    Result (Unit {0}) → LlmRole → TokenBudget → Response → Result ChatResult × TokenBudget
unfolding charge read_response
chat_checked (raise x) role b response = (raise x, b)
chat_checked (ok _) role b response = charge role b (read_response response)

unfoldable pub chat : LlmRole → TokenBudget → Response → Result ChatResult × TokenBudget
unfolding chat_checked
chat role b response = chat_checked (check role b) role b response

-- A line of a streamed answer; `broken` is the transport failing there.
pub data Line : Type 0 where
  blank malformed not_object broken : Line
  chunk : Text → Bool → Count → Count → Line

pub record ChatChunk : Type 0 where
  pub delta : Text
  pub done : Bool
  pub usage : Option TokenUsage

-- The chunks that are yielded, and the exception that ends the stream, if one does.
unfoldable pub iter_stream_lines : ℕ → List Line → List ChatChunk × Option Exception
iter_stream_lines chunk_cap [] = ([], none)
iter_stream_lines chunk_cap (blank ∷ lines) = iter_stream_lines chunk_cap lines
iter_stream_lines chunk_cap (malformed ∷ lines) = ([], some ollama_unavailable)
iter_stream_lines chunk_cap (not_object ∷ lines) = ([], some ollama_unavailable)
iter_stream_lines chunk_cap (broken ∷ lines) = ([], some ollama_unavailable)
iter_stream_lines chunk_cap (chunk delta done prompt_eval_count eval_count ∷ lines) =
    let (chunks, end) = iter_stream_lines chunk_cap lines in
    if ltb chunk_cap (length delta) then ([], some ollama_unavailable) else (
      record {
        delta = delta;
        done = done;
        usage = if done then some (parse_usage prompt_eval_count eval_count) else none;
      }
          ∷ chunks,
      end,
    )

pub data StreamResponse : Type 0 where
  transport_error : StreamResponse
  http : ℕ → List Line → StreamResponse

unfoldable pub stream_chunks : ℕ → StreamResponse → List ChatChunk × Option Exception
unfolding iter_stream_lines
stream_chunks chunk_cap transport_error = ([], some ollama_unavailable)
stream_chunks chunk_cap (http status lines) =
    if leb 500 status && ltb status 600
    then ([], some ollama_unavailable)
    else if leb 400 status
    then ([], some ollama_response)
    else iter_stream_lines chunk_cap lines

-- `actual` after the chunks that the consumer took.
unfoldable pub actual_usage : ℕ → List ChatChunk → ℕ
actual_usage actual [] = actual
actual_usage actual (c ∷ chunks) =
    actual_usage (if c.done then elim c.usage [ none ↦ actual | some u ↦ total u ] else actual)
      chunks

pub record Limits : Type 0 where
  pub max_response_tokens : ℕ
  pub max_chunk_chars : ℕ

-- A consumer takes at most `taken` chunks: where it stops early, the `finally` block runs all the
-- same.
unfoldable pub stream_checked :
    Result (Unit {0})
    → Limits
    → LlmRole
    → TokenBudget
    → StreamResponse
    → ℕ
    → (List ChatChunk × Option Exception) × TokenBudget
unfolding stream_chunks actual_usage
stream_checked (raise x) limits role b response taken = (([], some x), b)
stream_checked (ok _) limits role b response taken =
    let projected = limits.max_response_tokens in
    let (chunks, end) = stream_chunks limits.max_chunk_chars response in
    let seen = take taken chunks in
    (
      (seen, if ltb taken (length chunks) then none else end),
      settle role projected (actual_usage 0 seen) (consume role projected b),
    )

unfoldable pub stream_chat :
    Limits
    → LlmRole
    → TokenBudget
    → StreamResponse
    → ℕ
    → (List ChatChunk × Option Exception) × TokenBudget
unfolding stream_checked
stream_chat limits role b response taken =
    stream_checked (check role b) limits role b response taken
