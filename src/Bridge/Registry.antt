-- ===== src/Bridge/Registry.antt =====
-- What `AIBridgeService` of src/anglerfish/bridge/service.py keeps for each session, and the methods
-- that change it. A set of sessions is a dictionary to `Unit`; `log` is what the audit log was sent,
-- the newest first.
mod State
pub mod Forgetting
pub mod Engagement
pub mod Pins
pub mod Wasting
mod Tests
pub use State.*
use anglerfish_ai.Base.{
  ℕ, ◌+◌, ◌-◌, Bool, true, false, not, ◌&&◌, ◌||◌, List, [], ◌∷◌, map, Option, none, some, ltb, leb,
  ◌==◌, if◌then◌else◌, select, length, number_key, text_key,
}
use anglerfish_ai.Base.Dict
use anglerfish_ai.Base.Dict.{Dict}
use anglerfish_ai.Base.Text.{Text}
use anglerfish_ai.Llm.Budget.{TokenBudget}
use anglerfish_ai.Threat.Scorer.{ThreatAssessment}
use anglerfish_ai.Bridge.RateLimit.{Uuid}
use anglerfish_ai.Bridge.CounterDeception.{
  CounterDeceptionConfig, CounterDeceptionMode, CounterDeceptionState, ChatMessage,
  state_for_session, state_for_mode, amend_prompt,
}

unfoldable pub is_in : Option (Unit {0}) → Bool
is_in none = false
is_in (some _) = true

abbrev pub member : Uuid → Uuids → Bool
member sid s = is_in (Dict.get sid s)

unfoldable pub new_budget : Settings → TokenBudget
new_budget c = record {
  fast_token_cap = c.session_fast_token_cap;
  deep_token_cap = c.session_deep_token_cap;
  embed_token_cap = c.session_embed_token_cap;
  consumed_fast = 0;
  consumed_deep = 0;
  consumed_embed = 0;
}

unfoldable pub budget_found :
    Settings → Registry → Uuid → Option TokenBudget → Registry × TokenBudget
unfolding new_budget
budget_found c s sid (some b) = (s, b)
budget_found c s sid none =
    (record s { budgets = Dict.put sid (new_budget c) s.budgets }, new_budget c)

unfoldable pub budget_for : Settings → Registry → Uuid → Registry × TokenBudget
unfolding budget_found
budget_for c s sid = budget_found c s sid (Dict.get sid s.budgets)

unfoldable pub end_session_budget : Registry → Uuid → Registry
end_session_budget s sid = record s {
  budgets = Dict.remove sid s.budgets;
  last_clarification = Dict.remove sid s.last_clarification;
  wasted_ms = Dict.remove sid s.wasted_ms;
  wasted_exhausted = Dict.remove sid s.wasted_exhausted;
  latest_threat = Dict.remove sid s.latest_threat;
  honeytoken_placed_for = Dict.remove sid s.honeytoken_placed_for;
  source_ip_by_session = Dict.remove sid s.source_ip_by_session;
  counter_deception_state = Dict.remove sid s.counter_deception_state;
  counter_deception_engaged_for = Dict.remove sid s.counter_deception_engaged_for;
  session_last_activity = Dict.remove sid s.session_last_activity;
}

unfoldable pub record_session_activity : Registry → Uuid → ℕ → Registry
record_session_activity s sid now = record s {
  session_last_activity = Dict.put sid now s.session_last_activity;
}

unfoldable pub end_all : Registry → List Uuid → Registry
unfolding end_session_budget
end_all s [] = s
end_all s (sid ∷ sids) = end_all (end_session_budget s sid) sids

unfoldable pub idle_sessions : Settings → Registry → ℕ → List Uuid
idle_sessions c s now =
    map (λ e. e.0) (select (λ e. ltb e.1 (now - c.session_idle_eviction_s)) s.session_last_activity)

unfoldable pub evict_idle_sessions : Settings → Registry → ℕ → Registry × List Uuid
unfolding end_all idle_sessions
evict_idle_sessions c s now = let stale = idle_sessions c s now in (end_all s stale, stale)

unfoldable pub record_session_source_ip : Registry → Uuid → Text → Registry
record_session_source_ip s sid source_ip = record s {
  source_ip_by_session = Dict.put sid source_ip s.source_ip_by_session;
}

unfoldable pub place_for : Registry → Uuid → Option Text → Registry
place_for s sid none = s
place_for s sid (some source_ip) = record s {
  honeytoken_placed_for = Dict.put sid tt s.honeytoken_placed_for;
  log = placement_scheduled sid source_ip ∷ s.log;
}

unfoldable pub maybe_schedule_honeytoken_placement : Settings → Registry → Uuid → ℕ → Registry
unfolding place_for
maybe_schedule_honeytoken_placement c s sid score =
    if not c.honeytokens_enabled || not c.honeytoken_placement_wired
    then s
    else if ltb score c.placement_threshold
    then s
    else if member sid s.honeytoken_placed_for
    then s
    else place_for s sid (Dict.get sid s.source_ip_by_session)

-- The paths that the next session from an address is to find garbled.
unfoldable pub mirror_paths :
    Option Text → List Text → Dict Text (List Text) → Dict Text (List Text)
mirror_paths none paths d = d
mirror_paths (some source_ip) paths d = if length paths == 0 then d else Dict.put source_ip paths d

unfoldable pub stash :
    Registry → Uuid → Option Text → Trigger → Option ℕ → CounterDeceptionState → Registry
unfolding mirror_paths
stash s sid source_ip trigger score state = record s {
  counter_deception_state = Dict.put sid state s.counter_deception_state;
  counter_deception_engaged_for = Dict.put sid tt s.counter_deception_engaged_for;
  counter_deception_paths_by_source_ip =
      mirror_paths source_ip state.garble_paths s.counter_deception_paths_by_source_ip;
  log = counter_deception_engaged sid source_ip state trigger score ∷ s.log;
}

unfoldable pub engage_with : Registry → Uuid → ℕ → Option CounterDeceptionState → Registry
unfolding stash
engage_with s sid score none = s
engage_with s sid score (some state) =
    stash s sid (Dict.get sid s.source_ip_by_session) threat (some score) state

unfoldable pub engage_by : Settings → Registry → Uuid → ℕ → Option CounterDeceptionConfig → Registry
unfolding engage_with
engage_by c s sid score none = s
engage_by c s sid score (some strategy) =
    if member sid s.counter_deception_engaged_for
    then s
    else if ltb score c.engagement_threshold
    then s
    else engage_with s sid score (state_for_session strategy)

unfoldable pub engage_counter_deception : Settings → Registry → Uuid → ℕ → Registry
unfolding engage_by
engage_counter_deception c s sid score =
    if not c.counter_deception_enabled then s else engage_by c s sid score c.counter_deception

unfoldable pub record_threat_assessment : Settings → Registry → Uuid → ThreatAssessment → Registry
unfolding maybe_schedule_honeytoken_placement engage_counter_deception
record_threat_assessment c s sid a =
    let cached = record s { latest_threat = Dict.put sid a s.latest_threat } in
    engage_counter_deception c (maybe_schedule_honeytoken_placement c cached sid a.score) sid
      a.score

-- The session is marked before the state is made, so that an `off` pin marks it and stashes nothing.
unfoldable pub pin_with : Registry → Uuid → Text → Option CounterDeceptionState → Registry
unfolding stash
pin_with s sid source_ip none = record s {
  counter_deception_engaged_for = Dict.put sid tt s.counter_deception_engaged_for;
}
pin_with s sid source_ip (some state) = stash s sid (some source_ip) pin none state

unfoldable pub pin_by :
    Registry → Uuid → Text → CounterDeceptionMode → Option CounterDeceptionConfig → Registry
unfolding pin_with
pin_by s sid source_ip mode none = s
pin_by s sid source_ip mode (some strategy) =
    if member sid s.counter_deception_engaged_for
    then s
    else pin_with s sid source_ip (state_for_mode strategy mode)

unfoldable pub apply_counter_deception_pin :
    Settings → Registry → Uuid → Text → CounterDeceptionMode → Registry
unfolding pin_by
apply_counter_deception_pin c s sid source_ip mode = pin_by s sid source_ip mode c.counter_deception

unfoldable pub timebomb_events : Uuid → ℕ → CounterDeceptionState → List Event
timebomb_events sid command_count state =
    let (cold_to_mild, mild_to_severe) = state.timebomb_thresholds in
    if leb cold_to_mild 0
    then []
    else if leb mild_to_severe command_count
    then timebomb_applied sid command_count severe ∷ []
    else if leb cold_to_mild command_count
    then timebomb_applied sid command_count mild ∷ []
    else []

-- The amended messages, and the events to audit.
unfoldable pub amend_with :
    Option CounterDeceptionState
    → Option CounterDeceptionConfig
    → Uuid
    → List ChatMessage
    → ℕ
    → List ChatMessage × List Event
unfolding timebomb_events
amend_with none strategy sid messages command_count = (messages, [])
amend_with (some state) none sid messages command_count = (messages, [])
amend_with (some state) (some strategy) sid messages command_count =
    (amend_prompt messages command_count state, timebomb_events sid command_count state)

unfoldable pub amend_prompt_for_session :
    Settings → Registry → Uuid → List ChatMessage → ℕ → List ChatMessage × List Event
unfolding amend_with
amend_prompt_for_session c s sid messages command_count =
    amend_with (Dict.get sid s.counter_deception_state) c.counter_deception sid messages
      command_count

abbrev pub paths_or_none : Option (List Text) → List Text
paths_or_none none = []
paths_or_none (some paths) = paths

unfoldable pub get_garble_paths_for_source_ip : Registry → Text → List Text
get_garble_paths_for_source_ip s source_ip =
    paths_or_none (Dict.get source_ip s.counter_deception_paths_by_source_ip)

abbrev pub ms_or_zero : Option ℕ → ℕ
ms_or_zero none = 0
ms_or_zero (some n) = n

unfoldable pub accumulate_wasted_ms : Settings → Registry → Uuid → ℕ → Registry
accumulate_wasted_ms c s sid wasted =
    let new_total = ms_or_zero (Dict.get sid s.wasted_ms) + wasted in
    let added = record s { wasted_ms = Dict.put sid new_total s.wasted_ms } in
    if leb wasted 0
    then s
    else if leb c.session_wasted_ms_cap 0 || member sid s.wasted_exhausted
    then added
    else if leb c.session_wasted_ms_cap new_total
    then record added {
      wasted_exhausted = Dict.put sid tt s.wasted_exhausted;
      log = wasting_budget_exhausted sid new_total c.session_wasted_ms_cap ∷ s.log;
    }
    else added
