-- ===== src/Dashboard/Tailer/Poll.antt =====
-- `_poll_once` of src/anglerfish/dashboard/audit_tailer.py, over any way to dispatch an event.
pub mod Rounds
mod Encoded
use anglerfish_ai.Base.{
  ℕ, suc, ◌+◌, Bool, true, false, ◌&&◌, ◌||◌, Option, none, some, List, [], ◌∷◌, ◌==◌, leb, ltb,
  if◌then◌else◌, length, drop,
}
use anglerfish_ai.Base.Result.{Result, ok, raise, ◌>>=◌}
use anglerfish_ai.Audit.Lines.{Bytes, newline, complete_part, grow_line, is_filled}
use anglerfish_ai.Audit.Reader.{Parsed, malformed, other_json, event}

-- `bytes.isspace` of one byte.
unfoldable pub is_byte_space : ℕ → Bool
is_byte_space c = (leb 9 c && leb c 13) || c == 32

unfoldable pub lstrip_bytes : Bytes → Bytes
lstrip_bytes [] = []
lstrip_bytes (c ∷ s) = let rest = lstrip_bytes s in if is_byte_space c then rest else c ∷ s

abbrev pub cons_byte : ℕ → Bytes → Bytes
cons_byte c [] = if is_byte_space c then [] else c ∷ []
cons_byte c (d ∷ s) = c ∷ d ∷ s

unfoldable pub rstrip_bytes : Bytes → Bytes
rstrip_bytes [] = []
rstrip_bytes (c ∷ s) = cons_byte c (rstrip_bytes s)

unfoldable pub strip_bytes : Bytes → Bytes
strip_bytes s = rstrip_bytes (lstrip_bytes s)

-- `bytes.splitlines`, behind a carriage return or not.
unfoldable pub byte_lines : Bool → Bytes → List Bytes
byte_lines after_cr [] = []
byte_lines after_cr (c ∷ s) =
    let rest = byte_lines (c == 13) s in
    if after_cr && c == newline
    then rest
    else if c == newline || c == 13
    then [] ∷ rest
    else grow_line c rest

-- The log at a poll: no file, a file that gives no size or no bytes, or its bytes.
pub data LogView : Type 0 where
  absent stat_error : LogView
  unreadable : ℕ → LogView
  readable : Bytes → LogView

-- The tailer's own fields beside what dispatching changes, and the offset in the cache file.
pub record Polling (S : Type 0) : Type 0 where
  pub state : S
  pub offset : ℕ
  pub consecutive_failures : ℕ
  pub cached : Option ℕ

-- `json.loads` of a line of bytes raises what is no `JSONDecodeError` where the bytes are not UTF-8
-- (`UnicodeDecodeError`); `_parse_lines` does not catch that.
module _ {E : Type 0} (loads : Bytes → Result (Parsed E)) where
  abbrev pub cons_parsed : Parsed E → List E → List E
  cons_parsed malformed events = events
  cons_parsed other_json events = events
  cons_parsed (event e) events = e ∷ events

  -- One line of `_parse_lines`, in front of what the others give.
  abbrev pub parse_line : Bytes → Result (List E) → Result (List E)
  parse_line [] rest = rest
  parse_line (c ∷ s) rest =
      loads (c ∷ s) >>= λ parsed. rest >>= λ events. ok (cons_parsed parsed events)

  unfoldable pub parse_each : List Bytes → Result (List E)
  parse_each [] = ok []
  parse_each (raw_line ∷ lines) = parse_line (strip_bytes raw_line) (parse_each lines)

  -- `_parse_lines`
  unfoldable pub parse_lines : Bytes → Result (List E)
  parse_lines blob = parse_each (byte_lines false blob)

module _ {E S : Type 0} (loads : Bytes → Result (Parsed E))
    (dispatch : E → S → S × Result (Unit {0})) where
  abbrev pub then_rest : S × Result (Unit {0}) → (S → S × Result (Unit {0})) → S × Result (Unit {0})
  then_rest (s, raise e) rest = (s, raise e)
  then_rest (s, ok done) rest = rest s

  -- The events in order, up to the first that raises.
  unfoldable pub dispatch_all : List E → S → S × Result (Unit {0})
  dispatch_all [] s = (s, ok tt)
  dispatch_all (e ∷ events) s = then_rest (dispatch e s) (dispatch_all events)

  -- A file shorter than the offset is read from its start.
  abbrev pub rotated : ℕ → Polling S → Polling S
  rotated size p = if ltb size p.offset then record p { offset = 0 } else p

  abbrev pub settle : ℕ → Polling S → S × Result (Unit {0}) → Polling S
  settle advance p (s, raise e) = record p {
    state = s;
    consecutive_failures = p.consecutive_failures + 1;
  }
  settle advance p (s, ok done) = record {
    state = s;
    offset = p.offset + advance;
    consecutive_failures = 0;
    cached = some (p.offset + advance);
  }

  -- What `_parse_lines` raises leaves `_poll_once`, and `_run` counts it as a failure.
  abbrev pub dispatch_parsed : ℕ → Polling S → Result (List E) → Polling S
  dispatch_parsed advance p (raise x) = record p {
    consecutive_failures = p.consecutive_failures + 1;
  }
  dispatch_parsed advance p (ok events) = settle advance p (dispatch_all events p.state)

  abbrev pub dispatch_complete : Bytes → Polling S → Polling S
  dispatch_complete [] p = p
  dispatch_complete (c ∷ s) p = dispatch_parsed (length (c ∷ s)) p (parse_lines loads (c ∷ s))

  abbrev pub read_new : Bytes → Polling S → Polling S
  read_new content p =
      if length content == p.offset
      then p
      else dispatch_complete (complete_part (drop p.offset content)) p

  unfoldable pub poll_once : LogView → Polling S → Polling S
  unfolding parse_lines
  poll_once absent p = p
  poll_once stat_error p = p
  poll_once (unreadable size) p = rotated size p
  poll_once (readable content) p = read_new content (rotated (length content) p)

  unfoldable pub poll_all : List LogView → Polling S → Polling S
  poll_all [] p = p
  poll_all (view ∷ views) p = poll_all views (poll_once view p)
