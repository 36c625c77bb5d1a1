-- ===== src/Bridge/Service/Detectors.antt =====
-- The bridge service with the detectors that its constructor gives it, as
-- src/anglerfish/bridge/service.py makes it.
mod Tests
use anglerfish_ai.Base.{
  ℕ, ◌≡◌, refl, ◌≢◌, sym, ap, ◌∙◌, Bool, true, false, ◌&&◌, List, [], any, leb, text_same,
  Bool-cases, inl, inr, ◌⊎◌, arith,
}
use anglerfish_ai.Base.Text.{Text, strip}
use anglerfish_ai.Base.Result.{Result, ok, raise}
use anglerfish_ai.Bridge.Sanitize.{Unicode, sanitize_command}
use anglerfish_ai.Bridge.Defense.{
  DefenseVerdict, DefenseConfig, PatternSpec, check_output, score_input,
}
use anglerfish_ai.Bridge.Defense.Fires.{hits, detectors_fire}
use anglerfish_ai.Bridge.Session.{ai}
use anglerfish_ai.Bridge.Service.{Verdict, Parts, BridgeConfig, Bridge, World, handle_command}
use anglerfish_ai.Bridge.Service.Replies.{IsShowable, fallback_for-source}
use anglerfish_ai.Bridge.Service.Defended.{handle_command-IsShowable, handle_command-injection}

-- What the handler reads of a verdict.
abbrev pub seen_of : DefenseVerdict → Verdict
seen_of verdict = record { fired = verdict.fired; truncated = verdict.truncated }

fired_of : Verdict → Result Verdict → Bool
fired_of default (ok verdict) = verdict.fired
fired_of default (raise x) = default.fired

module _ (u : Unicode) (d : DefenseConfig) (specs : List PatternSpec) where
  -- Whether some pattern of at least the threshold's severity is found in what is scanned of a
  -- command: the first `scan_max_chars` characters of its canonical form.
  abbrev pub is_attack : Text → Bool
  is_attack line = any (λ spec. hits u d line spec && leb d.injection_threshold spec.severity) specs

  -- Whether some pattern of a leak is found in what is scanned of a response.
  abbrev pub is_leak : Text → Bool
  is_leak shown = any (hits u d shown) specs

module _ (u : Unicode) (d : DefenseConfig) (leaks attacks : List PatternSpec) where
  -- The service's parts with `OutputFilter` and `InjectionScorer`.
  abbrev pub with_detectors : Parts → Parts
  with_detectors p = record p {
    score = λ attacker_input. ok (seen_of (score_input u d attacks attacker_input));
    check = λ llm_response. ok (seen_of (check_output u d leaks llm_response));
  }

  module _ (p : Parts) (unit : ℕ) (c : BridgeConfig) where
    check-is_leak :
        (shown : Text) (verdict : Verdict)
        → d.output_filter_enabled ≡ true
        → (with_detectors p).check shown ≡ ok verdict
        → verdict.fired ≡ false
        → is_leak u d leaks shown ≡ false
    unfolding fired_of
    check-is_leak shown verdict enabled checked quiet =
        let fired = (detectors_fire u d leaks shown).0 in
        let same : (check_output u d leaks shown).fired ≡ verdict.fired =
          ap (fired_of verdict) checked in
        ground (arith, fired, same, enabled, quiet)

    IsShowable-is_leak :
        (shown : Text)
        → d.output_filter_enabled ≡ true
        → IsShowable (with_detectors p) unit c shown
        → (shown ≡ []) ⊎ (is_leak u d leaks shown ≡ false)
    IsShowable-is_leak shown enabled (inl empty) = inl empty
    IsShowable-is_leak shown enabled (inr (short, (verdict, checked, quiet))) =
        inr (check-is_leak shown verdict enabled checked quiet)

    attack-answered :
        (b : Bridge) (w : World) (command sanitised : Text)
        → d.injection_filter_enabled ≡ true
        → sanitize_command command c.max_input_chars ≡ ok sanitised
        → text_same (strip sanitised) [] ≡ false
        → is_attack u d attacks sanitised ≡ true
        → (handle_command (with_detectors p) unit c b w command).1.source ≢ ai
    attack-answered b w command sanitised enabled e line attack by_model =
        let fired : (score_input u d attacks sanitised).fired ≡ true =
          ground (arith, (detectors_fire u d attacks sanitised).1, enabled, attack) in
        let answer =
          (handle_command-injection (with_detectors p) unit c b w command sanitised
            (seen_of (score_input u d attacks sanitised)) e line refl fired).0 in
        fallback_for-source (with_detectors p) unit c b.session sanitised
          (sym (ap (λ r. r.1) answer) ∙ by_model)

    -- With both detectors enabled, whatever their patterns: when a command that is not blank is
    -- answered as by the model, no pattern of the threshold's severity is found in the first
    -- `scan_max_chars` characters of the sanitised command's canonical form, and the text is empty or
    -- no pattern of a leak is found in the first `scan_max_chars` characters of its canonical form.
    -- What lies behind those characters is not scanned.
    pub handle_command-screens :
        (b : Bridge) (w : World) (command sanitised : Text)
        → d.output_filter_enabled ≡ true
        → d.injection_filter_enabled ≡ true
        → sanitize_command command c.max_input_chars ≡ ok sanitised
        → text_same (strip sanitised) [] ≡ false
        → (handle_command (with_detectors p) unit c b w command).1.source ≡ ai
        → (is_attack u d attacks sanitised ≡ false)
          × (((handle_command (with_detectors p) unit c b w command).1.text ≡ [])
              ⊎ (is_leak u d leaks (handle_command (with_detectors p) unit c b w command).1.text
                  ≡ false))
    handle_command-screens b w command sanitised filters scores e line by_model = (
      elim (Bool-cases (is_attack u d attacks sanitised)) [
        | inl attack ↦
            elim (attack-answered b w command sanitised scores e line attack by_model) [ ]
        | inr harmless ↦ harmless
      ],
      IsShowable-is_leak (handle_command (with_detectors p) unit c b w command).1.text filters
          (handle_command-IsShowable (with_detectors p) unit c b w command by_model),
    )
