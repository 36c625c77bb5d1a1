-- ===== src/Bridge/Defense.antt =====
-- The detectors of src/anglerfish/bridge/defense.py: the filter on what the model says and the scorer of
-- what an attacker types. A severity is a number of hundredths, and a compiled pattern is what its
-- `search` finds, which is a parameter of the pattern.
pub mod Fires
mod Tests
use anglerfish_ai.Base.{
  ℕ, Bool, true, false, not, List, [], ◌∷◌, ◌++◌, Option, none, some, ltb, leb, if◌then◌else◌,
  length, take,
}
use anglerfish_ai.Base.Text.{Text, text}
use anglerfish_ai.Bridge.Sanitize.{Unicode, normalise_for_scan}

pub record DefenseVerdict : Type 0 where
  pub fired : Bool
  pub detector : Text
  pub snippet : Text
  pub score : ℕ
  pub truncated : Bool

pub record PatternSpec : Type 0 where
  pub category : Text
  pub severity : ℕ
  pub search : Text → Option Text

pub record DefenseConfig : Type 0 where
  pub output_filter_enabled : Bool
  pub injection_filter_enabled : Bool
  pub injection_threshold : ℕ
  pub scan_max_chars : ℕ

unfoldable pub quiet_verdict : Text → Bool → DefenseVerdict
quiet_verdict detector truncated = record {
  fired = false;
  detector = detector;
  snippet = [];
  score = 0;
  truncated = truncated;
}

-- The first pattern that is found.
unfoldable pub first_found : List PatternSpec → Text → Bool → DefenseVerdict
unfolding quiet_verdict
first_found [] target truncated = quiet_verdict (text "output_filter:no_match") truncated
first_found (spec ∷ specs) target truncated =
    let rest = first_found specs target truncated in
    elim (spec.search target) [
      | none ↦ rest
      | some found ↦ record {
        fired = true;
        detector = text "output_filter:" ++ spec.category;
        snippet = take 120 found;
        score = spec.severity;
        truncated = truncated;
      }
    ]

pub record Found : Type 0 where
  pub severity : ℕ
  pub category : Text
  pub snippet : Text

unfoldable pub with_match : PatternSpec → Option Text → List Found → List Found
with_match spec none rest = rest
with_match spec (some found) rest =
    record { severity = spec.severity; category = spec.category; snippet = take 120 found } ∷ rest

unfoldable pub all_found : List PatternSpec → Text → List Found
unfolding with_match
all_found [] target = []
all_found (spec ∷ specs) target = with_match spec (spec.search target) (all_found specs target)

-- `max(matches, key=...)`, which keeps the first of equals.
unfoldable pub best_of : Found → List Found → Found
best_of best [] = best
best_of best (m ∷ ms) = best_of (if ltb best.severity m.severity then m else best) ms

unfoldable pub aggregate : ℕ → Bool → List Found → DefenseVerdict
unfolding best_of quiet_verdict
aggregate threshold truncated [] = quiet_verdict (text "injection:no_match") truncated
aggregate threshold truncated (m ∷ ms) =
    let best = best_of m ms in
    record {
      fired = leb threshold best.severity;
      detector = text "injection:" ++ best.category;
      snippet = best.snippet;
      score = best.severity;
      truncated = truncated;
    }

module _ (u : Unicode) (c : DefenseConfig) (patterns : List PatternSpec) where
  -- `OutputFilter.check`
  unfoldable pub check_output : Text → DefenseVerdict
  unfolding first_found
  check_output llm_response =
      let normalised = normalise_for_scan u llm_response in
      if not c.output_filter_enabled
      then quiet_verdict (text "output_filter:disabled") false
      else first_found patterns (take c.scan_max_chars normalised)
          (ltb c.scan_max_chars (length normalised))

  -- `InjectionScorer.score`
  unfoldable pub score_input : Text → DefenseVerdict
  unfolding all_found aggregate
  score_input attacker_input =
      let normalised = normalise_for_scan u attacker_input in
      if not c.injection_filter_enabled
      then quiet_verdict (text "injection:disabled") false
      else aggregate c.injection_threshold (ltb c.scan_max_chars (length normalised))
          (all_found patterns (take c.scan_max_chars normalised))
