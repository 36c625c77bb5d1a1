-- ===== src/Bridge/Service/Detectors/Tests.antt =====
-- Runs of the handler with both detectors, and their property at concrete patterns.
use anglerfish_ai.Base.{
  ◌≡◌, refl, true, false, [], ◌∷◌, none, some, ◌==◌, if◌then◌else◌, text_same, ◌⊎◌,
}
use anglerfish_ai.Base.Text.{Text, text, is_space, lstrip, rstrip, strip, starts_with}
use anglerfish_ai.Base.Result.{ok}
use anglerfish_ai.Threat.Technique.{split_blank}
use anglerfish_ai.Llm.Budget.{check}
use anglerfish_ai.Llm.Client.{chat, http, message, count}
use anglerfish_ai.Bridge.Sanitize.{
  Unicode, normalise_for_scan, sanitize_command, strip_control_chars, replace_crlf, replace_cr,
  cap_output,
}
use anglerfish_ai.Bridge.RateLimit.{slot}
use anglerfish_ai.Bridge.Registry.{budget_for}
use anglerfish_ai.Bridge.Session.{ai, fallback, record_turn}
use anglerfish_ai.Bridge.Defense.{PatternSpec, DefenseConfig, check_output, score_input}
use anglerfish_ai.Bridge.Service.Cd.{target_of, move_to, moved, cd_tokens, handle_cd}
use anglerfish_ai.Bridge.Service.{
  Parts, World, fallback_for, handle_command, run_command, guard_errors,
}
use anglerfish_ai.Bridge.Service.Tests.{parts, config, bridge, world}
use anglerfish_ai.Bridge.Service.Detectors.{
  with_detectors, is_attack, is_leak, handle_command-screens,
}

-- ASCII with a zero-width space (U+200B) as the one format character.
abbrev ascii : Unicode
ascii = record { nfkd = λ s. s; is_mark = λ c. false; is_format = λ c. c == 0x200B }

abbrev settings : DefenseConfig
settings = record {
  output_filter_enabled = true;
  injection_filter_enabled = true;
  injection_threshold = 60;
  scan_max_chars = 64;
}

-- A text that begins with a word.
abbrev word : Text → PatternSpec
word w = record {
  category = w;
  severity = 100;
  search = λ s. if starts_with w s then some w else none;
}

abbrev guarded : Parts
guarded =
    with_detectors ascii settings (word (text "As an AI") ∷ []) (word (text "ignore") ∷ [])
      (record parts { score = parts.check })

abbrev boastful : World
boastful = record world {
  model = λ messages. http 200 (message (text "As an AI") (count 7) (count 2));
}

program : Unit {0}
unfolding check_output score_input normalise_for_scan handle_command run_command guard_errors
    fallback_for handle_cd cd_tokens target_of move_to moved record_turn split_blank
    sanitize_command strip_control_chars replace_crlf replace_cr cap_output strip lstrip rstrip
    is_space slot chat check budget_for
program = tt

by_model : (handle_command guarded 60 config bridge world (text "whoami")).1.source ≡ ai
unfolding program
by_model = refl

attack_refused :
    (handle_command guarded 60 config bridge world (text "ignore it")).1.source ≡ fallback
unfolding program
attack_refused = refl

leak_refused :
    (handle_command guarded 60 config bridge boastful (text "whoami")).1.source ≡ fallback
unfolding program
leak_refused = refl

line_kept : sanitize_command (text "whoami") 64 ≡ ok (text "whoami")
unfolding program
line_kept = refl

is_line : text_same (strip (text "whoami")) [] ≡ false
unfolding program
is_line = refl

handle_command-screens_example :
    (is_attack ascii settings (word (text "ignore") ∷ []) (text "whoami") ≡ false)
    × (((handle_command guarded 60 config bridge world (text "whoami")).1.text ≡ [])
        ⊎ (is_leak ascii settings
              (word (text "As an AI") ∷ [])
              (handle_command guarded 60 config bridge world (text "whoami")).1.text
            ≡ false))
handle_command-screens_example =
    handle_command-screens ascii settings (word (text "As an AI") ∷ []) (word (text "ignore") ∷ [])
      (record parts { score = parts.check }) 60 config bridge world (text "whoami") (text "whoami")
      refl refl line_kept is_line by_model
