-- ===== src/Audit/Reader/Tests.antt =====
-- Runs of the reader, and its properties at concrete inputs.
use mathlib.Core.List.{reverse}
use anglerfish_ai.Base.{
  ℕ, ◌+◌, ◌≤◌, ◌≡◌, refl, true, Option, none, some, List, [], ◌∷◌, ◌++◌, length, select, all, arith,
}
use anglerfish_ai.Base.Text.{Text, text, is_space, strip, lstrip, rstrip}
use anglerfish_ai.Audit.Lines.{Bytes, encode}
use anglerfish_ai.Audit.Reader.{
  is_boundary, splitlines, find_newline, after_newline, Parsed, malformed, event, Source, file,
  bounded_text, events_of, iter_events, Stamp, naive, TsField, ts_text, as_utc, parse_ts_field,
  parse_event_timestamp, range_step, range_loop, events_in_range, iter_events_in_range,
}
use anglerfish_ai.Audit.Reader.Range.{is_wanted, iter_events_in_range-select}
use anglerfish_ai.Audit.Reader.Window.{is_log_char, iter_events-lines}

abbrev decode : Bytes → Text
decode s = s

-- A line is an event if it has a digit; the digit is its time.
abbrev loads : Text → Parsed ℕ
loads [] = malformed
loads (c ∷ s) = event c

abbrev ts : ℕ → TsField
ts e = ts_text (e ∷ [])

abbrev fromisoformat : Text → Option Stamp
fromisoformat [] = none
fromisoformat (c ∷ s) = some (naive c)

abbrev log : Source
log = file (text "1\n2\n\n3\n4\n")

program : Unit {0}
unfolding is_boundary splitlines find_newline after_newline bounded_text events_of iter_events
    as_utc parse_ts_field parse_event_timestamp range_step range_loop events_in_range
    iter_events_in_range is_space strip lstrip rstrip
program = tt

middle_range : iter_events_in_range decode loads ts fromisoformat log 50 51 ≡ 51 ∷ 50 ∷ []
unfolding program
middle_range = refl

iter_events_in_range-select_example :
    iter_events_in_range decode loads ts fromisoformat log 50 51
    ≡ select (is_wanted ts fromisoformat 50 51) (iter_events decode loads none log)
unfolding program
iter_events_in_range-select_example =
    iter_events_in_range-select ts fromisoformat decode loads log 50 51 (omega arith)

abbrev lines : List Bytes
lines = text "1 a" ∷ text "2 b" ∷ text "3 c" ∷ []

decode-plain : (s : Bytes) → all is_log_char s ≡ true → decode s ≡ s
decode-plain s h = refl

last_bytes : iter_events decode loads (some 6) (file (encode lines)) ≡ 51 ∷ []
unfolding program
last_bytes = refl

iter_events-lines_example :
    (iter_events decode loads none (file (encode lines)) ≡ events_of decode loads (reverse lines))
    × (front : List Bytes) × (line : Bytes) × (newer : List Bytes) × (lines
        ≡ front ++ (line ∷ newer))
    × (length (encode front) + 6 ≤ length (encode lines))
    × (length (encode lines) ≤ (length (encode front) + length line) + 6)
    × (iter_events decode loads (some 6) (file (encode lines))
        ≡ events_of decode loads (reverse newer))
iter_events-lines_example =
    iter_events-lines decode loads decode-plain lines 6 refl (omega arith) (omega arith)
