-- ===== src/Bridge/CounterDeception/Bands.antt =====
-- What a session is told and what is audited, band by band, under the thresholds that
-- `CounterDeceptionConfig` of src/anglerfish/config/models.py accepts.
use anglerfish_ai.Base.{ℕ, ◌≤◌, ◌<◌, ◌≡◌, refl, ap, List, [], ◌∷◌, ◌++◌, leb, if◌then◌else◌, arith}
use anglerfish_ai.Bridge.CounterDeception.{
  CounterDeceptionMode, CounterDeceptionConfig, ChatMessage, mild_instruction, severe_instruction,
  bombs, state_with, amend_prompt,
}

-- `_validate_timebomb_bands`, with the field's own lower bound.
pub record IsAccepted (config : CounterDeceptionConfig) : Type 0 where
  pub positive : 1 ≤ config.timebomb_cold_to_mild
  pub increasing : config.timebomb_cold_to_mild < config.timebomb_mild_to_severe

-- What the band of a command adds to its prompt.
abbrev pub band : CounterDeceptionConfig → CounterDeceptionMode → ℕ → List ChatMessage
band config mode n =
    if bombs mode
    then if leb config.timebomb_mild_to_severe n
      then mild_instruction ∷ severe_instruction ∷ []
      else if leb config.timebomb_cold_to_mild n
      then mild_instruction ∷ []
      else []
    else []

append-two :
    (ms : List ChatMessage) (a b : ChatMessage) → (ms ++ a ∷ []) ++ b ∷ [] ≡ ms ++ a ∷ b ∷ []
append-two [] a b = refl
append-two (m ∷ ms) a b = ap (λ xs. m ∷ xs) (append-two ms a b)

append-none : (ms : List ChatMessage) → ms ++ [] ≡ ms
append-none [] = refl
append-none (m ∷ ms) = ap (λ xs. m ∷ xs) (append-none ms)

-- With accepted thresholds, the prompt of the n-th command is the old one and what its band adds.
pub amend_prompt-band :
    (config : CounterDeceptionConfig) (mode : CounterDeceptionMode) (messages : List ChatMessage)
    (n : ℕ)
    → IsAccepted config
    → amend_prompt messages n (state_with config mode) ≡ messages ++ band config mode n
unfolding amend_prompt state_with
amend_prompt-band config mode messages n h = ground (
  arith,
  h.positive,
  h.increasing,
  append-two messages mild_instruction severe_instruction,
  append-none messages,
)
