-- ===== src/Bridge/Registry/Pins.antt =====
-- An operator's pin on a session, and what a misled session is told.
use anglerfish_ai.Base.{
  ℕ, ◌≡◌, refl, ap, ◌∙◌, true, false, List, [], ◌∷◌, ◌++◌, none, some, number_key, number_iff,
  arith,
}
use anglerfish_ai.Base.Dict
use anglerfish_ai.Base.Dict.{Dict}
use anglerfish_ai.Base.Text.{Text}
use anglerfish_ai.Threat.Scorer.{ThreatAssessment}
use anglerfish_ai.Bridge.RateLimit.{Uuid}
use anglerfish_ai.Bridge.CounterDeception.{
  CounterDeceptionMode, CounterDeceptionState, CounterDeceptionConfig, ChatMessage, off, state_with,
  state_for_mode,
}
use anglerfish_ai.Bridge.CounterDeception.Bands.{IsAccepted, band, amend_prompt-band}
use anglerfish_ai.Bridge.Registry.{
  Settings, Registry, Event, mild, severe, timebomb_applied, is_in, pin_with, pin_by,
  apply_counter_deception_pin, timebomb_events, amend_with, amend_prompt_for_session,
}
use anglerfish_ai.Bridge.Registry.Engagement.{engaged, count_engaged, record_all, record_all-marked}

pin-off :
    (c : Settings) (config : CounterDeceptionConfig) (s : Registry) (sid : Uuid) (source_ip : Text)
    → c.counter_deception ≡ some config
    → engaged sid s ≡ false
    → (engaged sid (apply_counter_deception_pin c s sid source_ip off) ≡ true)
      × ((apply_counter_deception_pin c s sid source_ip off).counter_deception_state
          ≡ s.counter_deception_state)
      × ((apply_counter_deception_pin c s sid source_ip off).log ≡ s.log)
unfolding apply_counter_deception_pin pin_by pin_with state_for_mode is_in
pin-off c config s sid source_ip wired fresh = ground (
  arith,
  wired,
  fresh,
  number_iff sid sid,
  Dict.get-put sid sid tt s.counter_deception_engaged_for,
)

-- An operator's `off` pin at the start of a session that was not engaged with is a whitelist:
-- whatever the threat scorer reports later, the session has no state to be misled by, no engagement
-- of it is logged, and no prompt of it is amended.
pub off_pin-whitelists :
    (c : Settings) (config : CounterDeceptionConfig) (s : Registry) (sid : Uuid) (source_ip : Text)
    (reports : List ThreatAssessment) (messages : List ChatMessage) (n : ℕ)
    → c.counter_deception ≡ some config
    → engaged sid s ≡ false
    → Dict.get sid s.counter_deception_state ≡ none
    → (Dict.get sid
          (record_all c
            (apply_counter_deception_pin c s sid source_ip off)
            sid
            reports).counter_deception_state
        ≡ none)
      × (count_engaged sid
            (record_all c (apply_counter_deception_pin c s sid source_ip off) sid reports).log
          ≡ count_engaged sid s.log)
      × (amend_prompt_for_session c
            (record_all c (apply_counter_deception_pin c s sid source_ip off) sid reports)
            sid
            messages
            n
          ≡ (messages, []))
unfolding amend_prompt_for_session amend_with
off_pin-whitelists c config s sid source_ip reports messages n wired fresh stateless =
    let (marked, states, events) = pin-off c config s sid source_ip wired fresh in
    let pinned = apply_counter_deception_pin c s sid source_ip off in
    let (_, states', events') = record_all-marked c pinned sid reports marked in
    let missing : Dict.get sid (record_all c pinned sid reports).counter_deception_state ≡ none =
      ap (λ (d : Dict Uuid CounterDeceptionState). Dict.get sid d) (states' ∙ states) ∙ stateless in
    (missing, events' ∙ ap (count_engaged sid) events, rw missing refl)

-- The event that tells of what a band added.
abbrev pub audited : Uuid → ℕ → List ChatMessage → List Event
audited sid n [] = []
audited sid n (a ∷ []) = timebomb_applied sid n mild ∷ []
audited sid n (a ∷ b ∷ more) = timebomb_applied sid n severe ∷ []

timebomb_events-band :
    (config : CounterDeceptionConfig) (mode : CounterDeceptionMode) (sid : Uuid) (n : ℕ)
    → IsAccepted config
    → timebomb_events sid n (state_with config mode) ≡ audited sid n (band config mode n)
unfolding timebomb_events state_with
timebomb_events-band config mode sid n h = ground (arith, h.positive, h.increasing)

-- With accepted thresholds, a session that is misled in some mode gets its prompt with what the
-- band of its command adds, and the log tells of just that: nothing, one instruction or two.
pub amend_prompt_for_session-band :
    (c : Settings) (config : CounterDeceptionConfig) (s : Registry) (sid : Uuid)
    (mode : CounterDeceptionMode) (messages : List ChatMessage) (n : ℕ)
    → IsAccepted config
    → c.counter_deception ≡ some config
    → Dict.get sid s.counter_deception_state ≡ some (state_with config mode)
    → amend_prompt_for_session c s sid messages n
      ≡ (messages ++ band config mode n, audited sid n (band config mode n))
unfolding amend_prompt_for_session amend_with
amend_prompt_for_session-band c config s sid mode messages n h wired found =
    rw
      (
        found,
        wired,
        amend_prompt-band config mode messages n h,
        timebomb_events-band config mode sid n h,
      )
      refl
