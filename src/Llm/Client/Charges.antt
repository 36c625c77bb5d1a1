-- ===== src/Llm/Client/Charges.antt =====
-- What a call of the model costs its session, on every branch of llm/client.py.
use anglerfish_ai.Base.{
  ℕ, zero, suc, ◌↔◌, ◌+◌, ◌≤◌, ◌≡◌, refl, ◌∙◌, sym, Bool, true, false, ◌&&◌, List, [], ◌∷◌, Option,
  some, leb, ltb, if◌then◌else◌, length, take, All, arith, Bool-cases, inl, inr,
}
use anglerfish_ai.Base.Result.{
  Exception, Result, ok, raise, budget_exhausted, ollama_unavailable, ollama_response,
}
use anglerfish_ai.Llm.Budget.{LlmRole, TokenBudget, cap_of, remaining, check, consume, consumed}
use anglerfish_ai.Llm.Budget.Streams.{consumed-consume, consumed-settle}
use anglerfish_ai.Llm.Client.{
  Response, no_message, no_content, message, transport_error, http, ChatResult, total,
  read_response, charge, chat_checked, chat, Line, blank, malformed, not_object, broken, chunk,
  ChatChunk, iter_stream_lines, StreamResponse, stream_chunks, actual_usage, Limits, stream_checked,
  stream_chat,
}

-- The model's answer never looks like an exhausted budget.
read_response-exhausted : (r : Response) → ¬ (read_response r ≡ raise budget_exhausted)
unfolding read_response
read_response-exhausted transport_error h = cc
read_response-exhausted (http status malformed) h = ground arith
read_response-exhausted (http status not_object) h = ground arith
read_response-exhausted (http status no_message) h = ground arith
read_response-exhausted (http status no_content) h = ground arith
read_response-exhausted (http status (message content p c)) h = ground arith

charge-result : (role : LlmRole) (b : TokenBudget) (r : Result ChatResult) → (charge role b r).0 ≡ r
unfolding charge
charge-result role b (raise x) = refl
charge-result role b (ok r) = refl

module _ (role : LlmRole) (b : TokenBudget) where
  -- What is consumed by a call that ends in the given result.
  abbrev pub cost : Result ChatResult → ℕ
  cost (ok r) = total r.usage
  cost (raise x) = 0

  chat_checked-cost :
      (passed : Result (Unit {0})) (response : Response)
      → consumed role (chat_checked passed role b response).1
        ≡ consumed role b + cost (chat_checked passed role b response).0
  unfolding chat_checked
  chat_checked-cost (raise x) response = omega arith
  chat_checked-cost (ok _) response = charged (read_response response)
    where
      charged :
          (r : Result ChatResult)
          → consumed role (charge role b r).1 ≡ consumed role b + cost (charge role b r).0
      charged (raise x) = omega arith
      charged (ok r) = (consumed-consume role (total r.usage) b).0

  check-refuses : (check role b ≡ raise budget_exhausted) ↔ (cap_of role b ≤ consumed role b)
  unfolding check remaining cap_of consumed
  check-refuses = ground arith

  chat-refuses :
      (response : Response) (passed : Result (Unit {0}))
      → ((chat_checked passed role b response).0 ≡ raise budget_exhausted)
        ↔ (passed ≡ raise budget_exhausted)
  unfolding chat_checked
  chat-refuses response (raise x) = ((λ h. cc), (λ h. cc))
  chat-refuses response (ok _) = (
    (λ h. absurd (
        read_response-exhausted response
          (sym (charge-result role b (read_response response)) ∙ h))),
    (λ h. cc),
  )

  -- A call is refused just if the tokens consumed for its role have reached the cap, whatever the
  -- model would answer; any call costs exactly the usage of the answer it returns, and nothing if it
  -- is refused or raises.
  pub chat-cost :
      (response : Response)
      → (consumed role (chat role b response).1 ≡ consumed role b + cost (chat role b response).0)
        × (((chat role b response).0 ≡ raise budget_exhausted) ↔ (cap_of role b ≤ consumed role b))
  unfolding chat
  chat-cost response =
      let (to_check, of_check) = chat-refuses response (check role b) in
      let (to_cap, of_cap) = check-refuses in
      (
        chat_checked-cost (check role b) response,
        ((λ h. to_cap (to_check h)), (λ h. of_check (of_cap h))),
      )

module _ (chunk_cap : ℕ) where
  abbrev pub IsShort : ChatChunk → Type 0
  IsShort c = length c.delta ≤ chunk_cap

  iter_stream_lines-IsShort :
      (lines : List Line) → All IsShort (iter_stream_lines chunk_cap lines).0
  unfolding iter_stream_lines
  iter_stream_lines-IsShort [] = tt
  iter_stream_lines-IsShort (blank ∷ lines) = iter_stream_lines-IsShort lines
  iter_stream_lines-IsShort (malformed ∷ lines) = tt
  iter_stream_lines-IsShort (not_object ∷ lines) = tt
  iter_stream_lines-IsShort (broken ∷ lines) = tt
  iter_stream_lines-IsShort (chunk delta done p c ∷ lines) =
      elim (Bool-cases (ltb chunk_cap (length delta))) [
        | inl long ↦ rw long tt
        | inr short ↦ rw short (omega (arith, not_ltb short), iter_stream_lines-IsShort lines)
      ]
    where
      not_ltb : ltb chunk_cap (length delta) ≡ false → length delta ≤ chunk_cap
      not_ltb h = ground arith

  if-IsShort :
      (t : Bool) (x y : List ChatChunk × Option Exception)
      → All IsShort x.0
      → All IsShort y.0
      → All IsShort (if t then x else y).0
  if-IsShort true x y h k = h
  if-IsShort false x y h k = k

  stream_chunks-IsShort : (r : StreamResponse) → All IsShort (stream_chunks chunk_cap r).0
  unfolding stream_chunks
  stream_chunks-IsShort transport_error = tt
  stream_chunks-IsShort (http status lines) =
      let rest = iter_stream_lines chunk_cap lines in
      let body : List ChatChunk × Option Exception =
        if leb 400 status then ([], some ollama_response) else rest in
      if-IsShort (leb 500 status && ltb status 600) ([], some ollama_unavailable) body tt
        (if-IsShort (leb 400 status) ([], some ollama_response) rest tt
          (iter_stream_lines-IsShort lines))

  take-IsShort :
      (n : ℕ) (chunks : List ChatChunk) → All IsShort chunks → All IsShort (take n chunks)
  take-IsShort zero chunks h = tt
  take-IsShort (suc n) [] h = tt
  take-IsShort (suc n) (c ∷ chunks) h = (h.0, take-IsShort n chunks h.1)

module _ (limits : Limits) (role : LlmRole) (b : TokenBudget) (response : StreamResponse)
    (taken : ℕ) where
  -- A stream costs the usage of the chunks that its consumer took, wherever the consumer or the
  -- transport stopped: the reservation is given back on every branch. No chunk is longer than the
  -- cap.
  pub stream_chat-cost :
      (consumed role (stream_chat limits role b response taken).1
        ≡ consumed role b + actual_usage 0 (stream_chat limits role b response taken).0.0)
      × All (IsShort limits.max_chunk_chars) (stream_chat limits role b response taken).0.0
  unfolding stream_chat
  stream_chat-cost = checked (check role b)
    where
      checked :
          (passed : Result (Unit {0}))
          → (consumed role (stream_checked passed limits role b response taken).1
              ≡ consumed role b
                + actual_usage 0 (stream_checked passed limits role b response taken).0.0)
            × All
                (IsShort limits.max_chunk_chars)
                (stream_checked passed limits role b response taken).0.0
      checked (raise x) = (omega arith, tt)
      checked (ok _) =
          let seen = take taken (stream_chunks limits.max_chunk_chars response).0 in
          let (reserved, _) = consumed-consume role limits.max_response_tokens b in
          let (paid, _) =
            consumed-settle role limits.max_response_tokens (actual_usage 0 seen)
              (consume role limits.max_response_tokens b) in
          (
            omega (arith, reserved, paid),
            take-IsShort limits.max_chunk_chars taken _
                (stream_chunks-IsShort limits.max_chunk_chars response),
          )
