-- ===== src/Bridge/Registry/Engagement.antt =====
-- When a session is misled, and what is audited of it.
use anglerfish_ai.Base.{
  ℕ, ◌+◌, ◌≤◌, ◌≡◌, refl, ◌∙◌, Bool, true, false, List, [], ◌∷◌, Option, none, some, inl, inr,
  Bool-cases, Option-cases, ltb, ◌==◌, if◌then◌else◌, number_key, number_iff, arith,
}
use anglerfish_ai.Base.Dict
use anglerfish_ai.Base.Dict.{Dict}
use anglerfish_ai.Threat.Scorer.{ThreatAssessment}
use anglerfish_ai.Bridge.RateLimit.{Uuid}
use anglerfish_ai.Bridge.CounterDeception.{
  CounterDeceptionState, CounterDeceptionConfig, state_for_session,
}
use anglerfish_ai.Bridge.Registry.{
  Settings, Registry, Event, counter_deception_engaged, is_in, member, place_for,
  maybe_schedule_honeytoken_placement, stash, engage_with, engage_by, engage_counter_deception,
  record_threat_assessment,
}

abbrev pub is_engagement : Uuid → Event → Bool
is_engagement sid (counter_deception_engaged other source_ip state trigger score) = sid == other
is_engagement sid other = false

abbrev pub count_engaged : Uuid → List Event → ℕ
count_engaged sid [] = 0
count_engaged sid (e ∷ log) = (if is_engagement sid e then 1 else 0) + count_engaged sid log

-- What the threat scorer reports of a session, one assessment after another.
unfoldable pub record_all : Settings → Registry → Uuid → List ThreatAssessment → Registry
record_all c s sid [] = s
record_all c s sid (a ∷ later) = record_all c (record_threat_assessment c s sid a) sid later

-- How the session stands with counter-deception.
abbrev pub engaged : Uuid → Registry → Bool
engaged sid s = member sid s.counter_deception_engaged_for

placed : Settings → Registry → Uuid → ThreatAssessment → Registry
placed c s sid a =
    maybe_schedule_honeytoken_placement c
      (record s { latest_threat = Dict.put sid a s.latest_threat }) sid a.score

-- Placing honeytokens leaves counter-deception alone.
placed-apart :
    (c : Settings) (s : Registry) (sid : Uuid) (a : ThreatAssessment)
    → ((placed c s sid a).counter_deception_engaged_for ≡ s.counter_deception_engaged_for)
      × ((placed c s sid a).counter_deception_state ≡ s.counter_deception_state)
      × ((placed c s sid a).source_ip_by_session ≡ s.source_ip_by_session)
      × (count_engaged sid (placed c s sid a).log ≡ count_engaged sid s.log)
unfolding placed maybe_schedule_honeytoken_placement place_for
placed-apart c s sid a = ground arith

-- A session that is marked is not engaged again.
engage-marked :
    (c : Settings) (s : Registry) (sid : Uuid) (score : ℕ)
    → engaged sid s ≡ true
    → engage_counter_deception c s sid score ≡ s
unfolding engage_counter_deception engage_by
engage-marked c s sid score h = ground (arith, Option-cases c.counter_deception)

-- A report changes nothing of counter-deception once the session is marked.
record-marked :
    (c : Settings) (s : Registry) (sid : Uuid) (a : ThreatAssessment)
    → engaged sid s ≡ true
    → (engaged sid (record_threat_assessment c s sid a) ≡ true)
      × ((record_threat_assessment c s sid a).counter_deception_state ≡ s.counter_deception_state)
      × (count_engaged sid (record_threat_assessment c s sid a).log ≡ count_engaged sid s.log)
unfolding record_threat_assessment placed
record-marked c s sid a h =
    let (marks, states, _, events) = placed-apart c s sid a in
    let still : engaged sid (placed c s sid a) ≡ true = rw marks h in
    let same = engage-marked c (placed c s sid a) sid a.score still in
    rw same (still, states, events)

pub record_all-marked :
    (c : Settings) (s : Registry) (sid : Uuid) (reports : List ThreatAssessment)
    → engaged sid s ≡ true
    → (engaged sid (record_all c s sid reports) ≡ true)
      × ((record_all c s sid reports).counter_deception_state ≡ s.counter_deception_state)
      × (count_engaged sid (record_all c s sid reports).log ≡ count_engaged sid s.log)
unfolding record_all
record_all-marked c s sid [] h = (h, refl, refl)
record_all-marked c s sid (a ∷ later) h =
    let (still, states, events) = record-marked c s sid a h in
    let (end, states', events') =
      record_all-marked c (record_threat_assessment c s sid a) sid later still in
    (end, states' ∙ states, events' ∙ events)

-- A session is engaged with at most once, and only if it is marked.
abbrev pub IsOnce : Uuid → Registry → Type 0
IsOnce sid s = count_engaged sid s.log ≤ (if engaged sid s then 1 else 0)

engage_with-IsOnce :
    (s : Registry) (sid : Uuid) (score : ℕ) (state : Option CounterDeceptionState)
    → engaged sid s ≡ false
    → IsOnce sid s
    → IsOnce sid (engage_with s sid score state)
unfolding engage_with stash is_in
engage_with-IsOnce s sid score none h once = once
engage_with-IsOnce s sid score (some state) h once =
    ground
      (arith, h, once, number_iff sid sid, Dict.get-put sid sid tt s.counter_deception_engaged_for)

engage_by-IsOnce :
    (c : Settings) (s : Registry) (sid : Uuid) (score : ℕ)
    (strategy : Option CounterDeceptionConfig)
    → IsOnce sid s
    → IsOnce sid (engage_by c s sid score strategy)
unfolding engage_by
engage_by-IsOnce c s sid score none once = once
engage_by-IsOnce c s sid score (some config) once = elim (Bool-cases (engaged sid s)) [
  | inl marked ↦ rw marked once
  | inr fresh ↦ elim (Bool-cases (ltb score c.engagement_threshold)) [
    | inl low ↦ rw (fresh, low) once
    | inr high ↦
        rw (fresh, high) (engage_with-IsOnce s sid score (state_for_session config) fresh once)
  ]
]

engage-IsOnce :
    (c : Settings) (s : Registry) (sid : Uuid) (score : ℕ)
    → IsOnce sid s
    → IsOnce sid (engage_counter_deception c s sid score)
unfolding engage_counter_deception
engage-IsOnce c s sid score once = elim (Bool-cases c.counter_deception_enabled) [
  | inl on ↦ rw on (engage_by-IsOnce c s sid score c.counter_deception once)
  | inr disabled ↦ rw disabled once
]

record-IsOnce :
    (c : Settings) (s : Registry) (sid : Uuid) (a : ThreatAssessment)
    → IsOnce sid s
    → IsOnce sid (record_threat_assessment c s sid a)
unfolding record_threat_assessment placed
record-IsOnce c s sid a once =
    let (marks, _, _, events) = placed-apart c s sid a in
    engage-IsOnce c (placed c s sid a) sid a.score (rw (marks, events) once)

record_all-IsOnce :
    (c : Settings) (s : Registry) (sid : Uuid) (reports : List ThreatAssessment)
    → IsOnce sid s
    → IsOnce sid (record_all c s sid reports)
unfolding record_all
record_all-IsOnce c s sid [] once = once
record_all-IsOnce c s sid (a ∷ later) once =
    record_all-IsOnce c (record_threat_assessment c s sid a) sid later
      (record-IsOnce c s sid a once)

-- However often the threat scorer reports a session that was not engaged with, the log has at most
-- one engagement of it.
pub record_all-once :
    (c : Settings) (s : Registry) (sid : Uuid) (reports : List ThreatAssessment)
    → count_engaged sid s.log ≡ 0
    → count_engaged sid (record_all c s sid reports).log ≤ 1
record_all-once c s sid reports silent =
    let start : IsOnce sid s = ground (arith, silent) in
    ground (arith, record_all-IsOnce c s sid reports start)
