-- ===== src/Bridge/Service/Stream/Chunks.antt =====
-- What a stream sends: partial chunks within the cap, and one last chunk.
use anglerfish_ai.Base.{
  ℕ, ◌+◌, ◌≤◌, ◌≡◌, refl, ap, Option, none, some, List, [], ◌∷◌, ◌++◌, map, ltb, length, text_same,
  text_iff, number_key, Bool-cases, inl, inr, arith,
}
use anglerfish_ai.Base.Text.{Text}
use anglerfish_ai.Base.Result.{Exception, Result, ok, raise}
use anglerfish_ai.Llm.Client.{ChatChunk, Limits, StreamResponse}
use anglerfish_ai.Bridge.CounterDeception.{ChatMessage}
use anglerfish_ai.Bridge.Session.{ResponseSource, ai}
use anglerfish_ai.Bridge.Service.{Verdict, Parts, BridgeConfig, Bridge, World}
use anglerfish_ai.Bridge.Service.Stream

-- The characters of some texts.
abbrev pub chars_of : List Text → ℕ
chars_of [] = 0
chars_of (s ∷ texts) = length s + chars_of texts

pub chars_of-append : (xs ys : List Text) → chars_of (xs ++ ys) ≡ chars_of xs + chars_of ys
chars_of-append [] ys = omega arith
chars_of-append (x ∷ xs) ys = omega (arith, chars_of-append xs ys)

-- Whatever chunks the model sends, what is passed on fits the cap.
pub ship_chunks-fits :
    (most chars : ℕ) (chunks : List ChatChunk)
    → chars ≤ most
    → chars + chars_of (Stream.ship_chunks most chars chunks).deltas ≤ most
unfolding Stream.ship_chunks
ship_chunks-fits most chars [] h = omega arith
ship_chunks-fits most chars (chunk ∷ chunks) h =
    let rest = ship_chunks-fits most (chars + length chunk.delta) chunks in
    elim (Bool-cases (text_same chunk.delta [])) [
      | inl empty ↦
          let none_added : length chunk.delta ≡ 0 =
            ap (λ s. length s) ((text_iff chunk.delta []).0 empty) in
          rw empty (omega (arith, none_added, rest (omega (arith, none_added))))
      | inr filled ↦ elim (Bool-cases (ltb most (chars + length chunk.delta))) [
        | inl over ↦ rw (filled, over) (omega arith)
        | inr within ↦
            let fits : chars + length chunk.delta ≤ most = ground arith in
            rw (filled, within) (omega (arith, rest fits))
      ]
    ]

-- The chunks of a run that returns or raises.
abbrev pub Shape : List Text → Option Exception → List Stream.BridgeChunk → Type 0
Shape sent none chunks =
    (last : Text × ResponseSource) × (latency : ℕ) × (chunks
      ≡ map Stream.partial_chunk sent ++ (Stream.last_chunk last latency ∷ []))
Shape sent (some x) chunks = chunks ≡ map Stream.partial_chunk sent

pub record IsBounded (bound : ℕ) (r : Stream.StreamRun) : Type 0 where
  pub sent : List Text
  pub fits : chars_of sent ≤ bound
  pub shape : Shape sent r.failed r.chunks

module _ (p : Parts) (wasting : Stream.WastingParts) (unit : ℕ) (c : BridgeConfig) (limits : Limits)
    (answer : List ChatMessage → StreamResponse) (bound : ℕ) where
  pub fail_stream-IsBounded :
      (b : Bridge) (sent : List Text) (x : Exception)
      → chars_of sent ≤ bound
      → IsBounded bound (Stream.fail_stream p wasting unit c limits answer b sent x)
  fail_stream-IsBounded b sent x h = record { sent = sent; fits = h; shape = refl }

  close_stream-IsBounded :
      (b : Bridge) (w : World) (command : Text) (sent : List Text) (shown : Text)
      (last : Text × ResponseSource)
      → chars_of sent ≤ bound
      → IsBounded bound
          (Stream.close_stream p wasting unit c limits answer b w command sent shown last)
  unfolding Stream.close_stream
  close_stream-IsBounded b w command sent shown (last, source) h = record {
    sent = sent;
    fits = h;
    shape = ((last, source), w.latency_ms, refl);
  }

  check_shipped-IsBounded :
      (b : Bridge) (w : World) (command : Text) (sent : List Text) (full : Text)
      (verdict : Result Verdict)
      → chars_of sent ≤ bound
      → IsBounded bound
          (Stream.check_shipped p wasting unit c limits answer b w command sent full verdict)
  unfolding Stream.check_shipped
  check_shipped-IsBounded b w command sent full (raise x) h = fail_stream-IsBounded b sent x h
  check_shipped-IsBounded b w command sent full (ok verdict) h =
      close_stream-IsBounded _ w command sent full ([], ai) h

  finish_whole-IsBounded :
      (b : Bridge) (w : World) (command : Text) (sent : List Text) (full : Result Text)
      → chars_of sent ≤ bound
      → IsBounded bound (Stream.finish_whole p wasting unit c limits answer b w command sent full)
  unfolding Stream.finish_whole
  finish_whole-IsBounded b w command sent (raise x) h = fail_stream-IsBounded b sent x h
  finish_whole-IsBounded b w command sent (ok full) h =
      check_shipped-IsBounded b w command sent full (p.check full) h

  pub finish_stream-IsBounded :
      (b : Bridge) (w : World) (command : Text) (sent : List Text) (error : Option Exception)
      → chars_of sent ≤ bound
      → IsBounded bound (Stream.finish_stream p wasting unit c limits answer b w command sent error)
  unfolding Stream.finish_stream Stream.finish_broken
  finish_stream-IsBounded b w command sent none h = finish_whole-IsBounded b w command sent _ h
  finish_stream-IsBounded b w command [] (some x) h = close_stream-IsBounded b w command [] _ _ h
  finish_stream-IsBounded b w command (s ∷ sent) (some x) h =
      check_shipped-IsBounded b w command (s ∷ sent) _ _ h
