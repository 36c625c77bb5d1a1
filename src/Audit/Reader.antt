-- ===== src/Audit/Reader.antt =====
-- src/anglerfish/dashboard/audit_reader.py: the events of the audit log, newest first. Decoding
-- bytes, reading JSON and reading a time are arguments.
mod Range
mod Window
mod Tests
use mathlib.Core.List.{reverse}
use anglerfish_ai.Base.{
  ℕ, suc, ◌-◌, Bool, true, false, not, ◌&&◌, ◌||◌, Option, none, some, List, [], ◌∷◌, ◌==◌, leb,
  ltb, if◌then◌else◌, length, drop,
}
use anglerfish_ai.Base.Text.{Text, strip}
use anglerfish_ai.Audit.Lines.{Bytes, newline, grow_line, is_filled}

-- The characters at which `str.splitlines` cuts.
unfoldable pub is_boundary : ℕ → Bool
is_boundary c =
    (leb 10 c && leb c 13) || (leb 0x1C c && leb c 0x1E) || c == 0x85 || c == 0x2028 || c == 0x2029

-- `str.splitlines`, behind a carriage return or not.
unfoldable pub splitlines : Bool → Text → List Text
splitlines after_cr [] = []
splitlines after_cr (c ∷ s) =
    let rest = splitlines (c == 13) s in
    if after_cr && c == newline then rest else if is_boundary c then [] ∷ rest else grow_line c rest

-- `decoded[newline + 1 :]`, or all where no newline is found.
unfoldable pub find_newline : Text → Option ℕ
find_newline [] = none
find_newline (c ∷ s) =
    if c == newline then some 0 else elim (find_newline s) [ none ↦ none | some n ↦ some (suc n) ]

unfoldable pub after_newline : Text → Text
after_newline s = elim (find_newline s) [ none ↦ s | some n ↦ drop (suc n) s ]

-- What a line is read as: no JSON, JSON that is no object, or an event.
pub data Parsed (E : Type 0) : Type 0 where
  malformed other_json : Parsed E
  event : E → Parsed E

-- The log's path: no file, a file that cannot be read, or a file.
pub data Source : Type 0 where
  no_file read_error : Source
  file : Bytes → Source

module _ {E : Type 0} (decode : Bytes → Text) (loads : Text → Parsed E) where
  -- The last `n` bytes, less the first line; the whole file where it is no longer than that.
  unfoldable pub bounded_text : Option ℕ → Bytes → Text
  bounded_text none content = decode content
  bounded_text (some n) content =
      if ltb n (length content)
      then after_newline (decode (drop (length content - n) content))
      else decode content

  abbrev pub cons_event : Parsed E → List E → List E
  cons_event malformed events = events
  cons_event other_json events = events
  cons_event (event e) events = e ∷ events

  unfoldable pub events_of : List Text → List E
  events_of [] = []
  events_of (raw_line ∷ lines) =
      let later = events_of lines in
      let line = strip raw_line in if is_filled line then cons_event (loads line) later else later

  unfoldable pub iter_events : Option ℕ → Source → List E
  iter_events max_bytes no_file = []
  iter_events max_bytes read_error = []
  iter_events max_bytes (file content) =
      events_of (reverse (splitlines false (bounded_text max_bytes content)))

-- A time without an offset, or an instant.
pub data Stamp : Type 0 where
  naive aware : ℕ → Stamp

-- The `ts` of an event: absent or no text, or a text.
pub data TsField : Type 0 where
  not_text : TsField
  ts_text : Text → TsField

module _ {E : Type 0} (ts : E → TsField) (fromisoformat : Text → Option Stamp) where
  -- A time without an offset counts as UTC.
  unfoldable pub as_utc : Option Stamp → Option ℕ
  as_utc none = none
  as_utc (some (naive t)) = some t
  as_utc (some (aware t)) = some t

  unfoldable pub parse_ts_field : TsField → Option ℕ
  parse_ts_field not_text = none
  parse_ts_field (ts_text raw) = as_utc (fromisoformat raw)

  unfoldable pub parse_event_timestamp : E → Option ℕ
  parse_event_timestamp e = parse_ts_field (ts e)

  -- The loop over the events, which stops at the first that is older than `start`.
  unfoldable pub range_step : ℕ → ℕ → E → Option ℕ → List E → List E
  range_step start end_ e none later = later
  range_step start end_ e (some t) later =
      if ltb end_ t then later else if ltb t start then [] else e ∷ later

  unfoldable pub range_loop : ℕ → ℕ → List E → List E
  range_loop start end_ [] = []
  range_loop start end_ (e ∷ events) =
      range_step start end_ e (parse_event_timestamp e) (range_loop start end_ events)

  unfoldable pub events_in_range : ℕ → ℕ → List E → List E
  events_in_range start end_ events = if ltb end_ start then [] else range_loop start end_ events

-- `iter_events_in_range` on a log.
unfoldable pub iter_events_in_range :
    {E : Type 0} (decode : Bytes → Text) (loads : Text → Parsed E) (ts : E → TsField)
    (fromisoformat : Text → Option Stamp)
    → Source
    → ℕ
    → ℕ
    → List E
iter_events_in_range decode loads ts fromisoformat source start end_ =
    events_in_range ts fromisoformat start end_ (iter_events decode loads none source)
