-- ===== src/Bridge/Defense/Fires.antt =====
-- When the detectors fire.
use anglerfish_ai.Base.{
  ℕ, ◌≡◌, refl, Bool, true, false, ◌&&◌, ◌||◌, List, [], ◌∷◌, Option, none, some, Option-cases, ltb,
  leb, if◌then◌else◌, any, length, take, arith,
}
use anglerfish_ai.Base.Text.{Text}
use anglerfish_ai.Bridge.Sanitize.{Unicode, normalise_for_scan}
use anglerfish_ai.Bridge.Defense.{
  PatternSpec, DefenseConfig, Found, quiet_verdict, first_found, with_match, all_found, best_of,
  aggregate, check_output, score_input,
}

abbrev pub is_found : Option Text → Bool
is_found none = false
is_found (some found) = true

-- Whether a pattern is found in what the detectors scan of a text.
abbrev pub hits : Unicode → DefenseConfig → Text → PatternSpec → Bool
hits u c s spec = is_found (spec.search (take c.scan_max_chars (normalise_for_scan u s)))

first_found-fired :
    (specs : List PatternSpec) (target : Text) (truncated : Bool)
    → (first_found specs target truncated).fired ≡ any (λ spec. is_found (spec.search target)) specs
unfolding first_found quiet_verdict
first_found-fired [] target truncated = refl
first_found-fired (spec ∷ specs) target truncated =
    ground (arith, Option-cases (spec.search target), first_found-fired specs target truncated)

best_of-reaches :
    (threshold : ℕ) (best : Found) (ms : List Found)
    → leb threshold (best_of best ms).severity
      ≡ (leb threshold best.severity || any (λ m. leb threshold m.severity) ms)
unfolding best_of
best_of-reaches threshold best [] = ground arith
best_of-reaches threshold best (m ∷ ms) =
    ground (arith, best_of-reaches threshold (if ltb best.severity m.severity then m else best) ms)

aggregate-fired :
    (threshold : ℕ) (truncated : Bool) (ms : List Found)
    → (aggregate threshold truncated ms).fired ≡ any (λ m. leb threshold m.severity) ms
unfolding aggregate quiet_verdict
aggregate-fired threshold truncated [] = refl
aggregate-fired threshold truncated (m ∷ ms) = best_of-reaches threshold m ms

all_found-reaches :
    (threshold : ℕ) (specs : List PatternSpec) (target : Text)
    → any (λ m. leb threshold m.severity) (all_found specs target)
      ≡ any (λ spec. is_found (spec.search target) && leb threshold spec.severity) specs
unfolding all_found with_match
all_found-reaches threshold [] target = refl
all_found-reaches threshold (spec ∷ specs) target =
    ground (arith, Option-cases (spec.search target), all_found-reaches threshold specs target)

pub detectors_fire :
    (u : Unicode) (c : DefenseConfig) (patterns : List PatternSpec) (s : Text)
    → ((check_output u c patterns s).fired ≡ (c.output_filter_enabled && any (hits u c s) patterns))
      × ((score_input u c patterns s).fired ≡ (
          c.injection_filter_enabled
          && any (λ spec. hits u c s spec && leb c.injection_threshold spec.severity) patterns))
unfolding check_output score_input quiet_verdict
detectors_fire u c patterns s =
    let target = take c.scan_max_chars (normalise_for_scan u s) in
    let truncated = ltb c.scan_max_chars (length (normalise_for_scan u s)) in
    let found = all_found patterns target in
    (
      ground (arith, first_found-fired patterns target truncated),
      ground (
        arith,
        aggregate-fired c.injection_threshold truncated found,
        all_found-reaches c.injection_threshold patterns target,
      ),
    )
