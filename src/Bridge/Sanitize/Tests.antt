-- ===== src/Bridge/Sanitize/Tests.antt =====
-- Runs of bridge/sanitize.py and its theorems at concrete texts.
use anglerfish_ai.Base.{◌+◌, ◌≡◌, refl, ◌≤◌, ◌==◌, ◌∷◌, ◌++◌, length, All}
use anglerfish_ai.Base.Text.{Text, text, is_space, rstrip}
use anglerfish_ai.Base.Result.{ok, raise, value_error}
use anglerfish_ai.Bridge.Sanitize.{
  truncation_marker, sanitize_command, strip_control_chars, replace_crlf, replace_cr, cap_output,
  Unicode, normalise_for_scan,
}
use anglerfish_ai.Bridge.Sanitize.Clean.{IsPrintable, sanitize_command-IsClean}

program : Unit {0}
unfolding sanitize_command strip_control_chars replace_crlf replace_cr cap_output is_space rstrip
program = tt

-- "ls\r\n-la\r\x1b[2J", capped at 6 characters.
abbrev typed : Text
typed = text "ls" ++ 13 ∷ 10 ∷ text "-la" ++ 13 ∷ 27 ∷ text "[2J"

abbrev cut : Text
cut = text "ls\n-la" ++ truncation_marker

sanitize_runs : sanitize_command typed 6 ≡ ok cut
unfolding program
sanitize_runs = refl

refuses_zero : sanitize_command typed 0 ≡ raise value_error
unfolding program
refuses_zero = refl

sanitize_command-IsClean_example :
    All IsPrintable cut
    × (length cut ≤ 6 + length truncation_marker)
    × (sanitize_command cut 6 ≡ ok cut)
sanitize_command-IsClean_example = sanitize_command-IsClean typed 6 cut sanitize_runs

cap_runs : cap_output (text "ok \n  tail") 5 ≡ ok (text "ok")
unfolding program
cap_runs = refl

-- ASCII with a zero-width space (U+200B) as the one format character.
abbrev ascii : Unicode
ascii = record { nfkd = λ s. s; is_mark = λ c. c == 0x300; is_format = λ c. c == 0x200B }

abbrev spliced : Text
spliced = text "ign" ++ 0x200B ∷ text "ore"

spliced_scan : normalise_for_scan ascii spliced ≡ text "ignore"
unfolding normalise_for_scan
spliced_scan = refl
