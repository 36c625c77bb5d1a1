-- ===== src/Bridge/Registry/Tests.antt =====
-- Runs of the registry of sessions and its theorems at concrete inputs.
use anglerfish_ai.Base.{
  ◌≤◌, ◌≡◌, refl, true, false, ◌&&◌, [], ◌∷◌, ◌++◌, none, some, leb, ◌==◌, if◌then◌else◌, any,
  number_key, arith,
}
use anglerfish_ai.Base.Dict
use anglerfish_ai.Base.Text.{text}
use anglerfish_ai.Threat.Scorer.{ThreatAssessment}
use anglerfish_ai.Bridge.CounterDeception.{
  CounterDeceptionConfig, off, both, state_with, state_for_session,
}
use anglerfish_ai.Bridge.CounterDeception.Bands.{band}
use anglerfish_ai.Bridge.Registry.{
  Settings, Registry, member, end_session_budget, evict_idle_sessions,
  maybe_schedule_honeytoken_placement, engage_counter_deception, record_threat_assessment,
  apply_counter_deception_pin, amend_prompt_for_session, idle_sessions, end_all, is_in,
}
use anglerfish_ai.Bridge.Registry.Forgetting.{view, nothing, evict_idle_sessions-view}
use anglerfish_ai.Bridge.Registry.Engagement.{count_engaged, record_all, record_all-once}
use anglerfish_ai.Bridge.Registry.Wasting.{count_spent, sum, accumulate_all, accumulate_all-metered}
use anglerfish_ai.Bridge.Registry.Pins.{audited, off_pin-whitelists, amend_prompt_for_session-band}

abbrev strategy : CounterDeceptionConfig
strategy = record {
  mode = both;
  garble_paths = text "/etc/passwd" ∷ [];
  timebomb_cold_to_mild = 6;
  timebomb_mild_to_severe = 16;
}

abbrev settings : Settings
settings = record {
  session_fast_token_cap = 1000;
  session_deep_token_cap = 500;
  session_embed_token_cap = 500;
  session_idle_eviction_s = 3600;
  session_wasted_ms_cap = 90;
  honeytokens_enabled = true;
  honeytoken_placement_wired = true;
  placement_threshold = 40;
  counter_deception_enabled = true;
  engagement_threshold = 60;
  counter_deception = some strategy;
}

abbrev empty : Registry
empty = record {
  budgets = [];
  last_clarification = [];
  wasted_ms = [];
  wasted_exhausted = [];
  latest_threat = [];
  honeytoken_placed_for = [];
  source_ip_by_session = [];
  counter_deception_state = [];
  counter_deception_engaged_for = [];
  session_last_activity = [];
  counter_deception_paths_by_source_ip = [];
  log = [];
}

abbrev two_sessions : Registry
two_sessions = record empty {
  source_ip_by_session = (1, text "10.0.0.7") ∷ (2, text "10.0.0.8") ∷ [];
  session_last_activity = (1, 100) ∷ (2, 5000) ∷ [];
}

abbrev severe_threat : ThreatAssessment
severe_threat = record {
  session_id = 1;
  score = 80;
  techniques = [];
  persistence_attempted = false;
  high_severity = true;
  notes = [];
}

program : Unit {0}
unfolding idle_sessions end_all end_session_budget evict_idle_sessions engage_counter_deception
    maybe_schedule_honeytoken_placement record_threat_assessment record_all is_in state_for_session
program = tt

engages_once :
    count_engaged 1 (record_all settings two_sessions 1 (severe_threat ∷ severe_threat ∷ [])).log
    ≡ 1
unfolding program
engages_once = refl

one_is_idle : (evict_idle_sessions settings two_sessions 5100).1 ≡ 1 ∷ []
unfolding program
one_is_idle = refl

evict_idle_sessions-view_example : view 2 (evict_idle_sessions settings two_sessions 5100).0 ≡ (
    if any (λ sid. sid == 2) (evict_idle_sessions settings two_sessions 5100).1
    then nothing
    else view 2 two_sessions)
evict_idle_sessions-view_example = evict_idle_sessions-view settings two_sessions 5100 2

record_all-once_example :
    count_engaged 1 (record_all settings two_sessions 1 (severe_threat ∷ severe_threat ∷ [])).log
    ≤ 1
record_all-once_example =
    record_all-once settings two_sessions 1 (severe_threat ∷ severe_threat ∷ []) refl

unmarked : member 1 two_sessions.counter_deception_engaged_for ≡ false
unfolding program
unmarked = refl

off_pin-whitelists_example :
    (Dict.get 1
        (record_all settings
          (apply_counter_deception_pin settings two_sessions 1 (text "10.0.0.7") off)
          1
          (severe_threat ∷ [])).counter_deception_state
      ≡ none)
    × (count_engaged 1
          (record_all settings
            (apply_counter_deception_pin settings two_sessions 1 (text "10.0.0.7") off)
            1
            (severe_threat ∷ [])).log
        ≡ 0)
    × (amend_prompt_for_session settings
          (record_all settings
            (apply_counter_deception_pin settings two_sessions 1 (text "10.0.0.7") off)
            1
            (severe_threat ∷ []))
          1
          []
          9
        ≡ ([], []))
off_pin-whitelists_example =
    off_pin-whitelists settings strategy two_sessions 1 (text "10.0.0.7") (severe_threat ∷ []) [] 9
      refl unmarked refl

abbrev misled : Registry
misled = record two_sessions { counter_deception_state = (1, state_with strategy both) ∷ [] }

amend_prompt_for_session-band_example :
    amend_prompt_for_session settings misled 1 [] 9
    ≡ ([] ++ band strategy both 9, audited 1 9 (band strategy both 9))
amend_prompt_for_session-band_example =
    amend_prompt_for_session-band settings strategy misled 1 both [] 9
      (record { positive = omega arith; increasing = omega arith }) refl refl

accumulate_all-metered_example :
    (member 1 (accumulate_all settings two_sessions 1 (40 ∷ 60 ∷ 5 ∷ [])).wasted_exhausted
      ≡ (leb 1 90 && leb 90 (sum (40 ∷ 60 ∷ 5 ∷ []))))
    × (count_spent 1 (accumulate_all settings two_sessions 1 (40 ∷ 60 ∷ 5 ∷ [])).log
        ≡ (if leb 1 90 && leb 90 (sum (40 ∷ 60 ∷ 5 ∷ [])) then 1 else 0))
accumulate_all-metered_example =
    accumulate_all-metered settings two_sessions 1 (40 ∷ 60 ∷ 5 ∷ []) refl refl refl
