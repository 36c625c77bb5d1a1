-- ===== src/Bridge/CounterDeception.antt =====
-- src/anglerfish/bridge/strategies/counter_deception.py: what a session whose attacker is to be
-- misled gets, by mode, and what its prompts are told.
pub mod Bands
use anglerfish_ai.Base.{
  ℕ, Bool, true, false, ◌||◌, ◌&&◌, List, [], ◌∷◌, ◌++◌, Option, none, some, ltb, leb, ◌==◌,
  if◌then◌else◌,
}
use anglerfish_ai.Base.Text.{Text, text}

pub data CounterDeceptionMode : Type 0 where
  off garble timebomb both : CounterDeceptionMode

pub record CounterDeceptionState : Type 0 where
  pub mode : CounterDeceptionMode
  pub garble_paths : List Text
  pub timebomb_thresholds : ℕ × ℕ

pub record CounterDeceptionConfig : Type 0 where
  pub mode : CounterDeceptionMode
  pub garble_paths : List Text
  pub timebomb_cold_to_mild : ℕ
  pub timebomb_mild_to_severe : ℕ

pub record ChatMessage : Type 0 where
  pub role : Text
  pub content : Text

unfoldable pub garbles : CounterDeceptionMode → Bool
garbles off = false
garbles garble = true
garbles timebomb = false
garbles both = true

unfoldable pub bombs : CounterDeceptionMode → Bool
bombs off = false
bombs garble = false
bombs timebomb = true
bombs both = true

unfoldable pub state_with : CounterDeceptionConfig → CounterDeceptionMode → CounterDeceptionState
unfolding garbles bombs
state_with config mode = record {
  mode = mode;
  garble_paths = if garbles mode then config.garble_paths else [];
  timebomb_thresholds =
      if bombs mode then (config.timebomb_cold_to_mild, config.timebomb_mild_to_severe) else (0, 0);
}

unfoldable pub state_for_mode :
    CounterDeceptionConfig → CounterDeceptionMode → Option CounterDeceptionState
unfolding state_with
state_for_mode config off = none
state_for_mode config garble = some (state_with config garble)
state_for_mode config timebomb = some (state_with config timebomb)
state_for_mode config both = some (state_with config both)

unfoldable pub state_for_session : CounterDeceptionConfig → Option CounterDeceptionState
unfolding state_for_mode
state_for_session config = state_for_mode config config.mode

abbrev pub mild_instruction : ChatMessage
mild_instruction = record {
  role = text "system";
  content =
      text
        "When describing file or process state, introduce ONE small factual error per response: wrong PID, slightly wrong file size in bytes, wrong port number off by 1-10, or a plausibly-named-but-nonexistent path. Do not announce the error. Do not introduce errors in security-relevant text the operator would notice in audit logs (no fake credentials, no fake IP addresses outside RFC 1918, no fake CVE numbers).";
}

abbrev pub severe_instruction : ChatMessage
severe_instruction = record {
  role = text "system";
  content =
      text
        "Increase the error rate. Two to three small factual errors per response. Confidently assert the wrong values. The same rules apply: no security-sensitive errors, no fake threat indicators.";
}

unfoldable pub amend_prompt : List ChatMessage → ℕ → CounterDeceptionState → List ChatMessage
amend_prompt messages command_count state =
    let (cold_to_mild, mild_to_severe) = state.timebomb_thresholds in
    if cold_to_mild == 0 && mild_to_severe == 0
    then messages
    else if ltb command_count cold_to_mild
    then messages
    else if leb mild_to_severe command_count
    then (messages ++ mild_instruction ∷ []) ++ severe_instruction ∷ []
    else messages ++ mild_instruction ∷ []
