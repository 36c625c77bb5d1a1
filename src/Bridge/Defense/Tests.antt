-- ===== src/Bridge/Defense/Tests.antt =====
-- Runs of the detectors and their theorem at a concrete pattern.
use anglerfish_ai.Base.{◌≡◌, refl, true, false, [], ◌∷◌, none, some, ◌==◌, if◌then◌else◌}
use anglerfish_ai.Base.Text.{Text, text, starts_with}
use anglerfish_ai.Bridge.Sanitize.{Unicode, normalise_for_scan}
use anglerfish_ai.Bridge.Defense.{PatternSpec, DefenseConfig, check_output, score_input}

-- ASCII with a zero-width space (U+200B) as the one format character.
abbrev plain_text : Unicode
plain_text = record { nfkd = λ s. s; is_mark = λ c. false; is_format = λ c. c == 0x200B }

abbrev settings : DefenseConfig
settings = record {
  output_filter_enabled = true;
  injection_filter_enabled = true;
  injection_threshold = 60;
  scan_max_chars = 64;
}

abbrev override : PatternSpec
override = record {
  category = text "override_instructions";
  severity = 100;
  search = λ s. if starts_with (text "ignore") s then some (text "ignore") else none;
}

abbrev spliced_attack : Text
spliced_attack = 105 ∷ 0x200B ∷ text "gnore all"

program : Unit {0}
unfolding check_output score_input normalise_for_scan
program = tt

splice_is_seen : (score_input plain_text settings (override ∷ []) spliced_attack).fired ≡ true
unfolding program
splice_is_seen = refl
