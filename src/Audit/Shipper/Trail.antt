-- ===== src/Audit/Shipper/Trail.antt =====
-- The writer and the shipper together: events are recorded and cycles run, in any order.
pub mod Ships
use mathlib.Core.List.{append-nil, append_assoc}
use anglerfish_ai.Base.{
  ℕ, zero, suc, ◌+◌, ◌≤◌, ◌≡◌, refl, sym, ap, ◌∙◌, Bool, true, false, ◌⊎◌, inl, inr, Option, none,
  some, List, [], ◌∷◌, ◌++◌, length, length-append, if◌then◌else◌, all, all-append, Bool-cases,
  arith,
}
use anglerfish_ai.Base.Dict.{Dict}
use anglerfish_ai.Base.Text.{Text}
use anglerfish_ai.Base.Result.{Result, ok, raise, ok-injective}
use anglerfish_ai.Audit.Lines.{Bytes, newline, encode, encode-append, is_line}
use anglerfish_ai.Audit.Log.{clashes, stamped, append_line, record_event}
use anglerfish_ai.Audit.Shipper.{
  LogFile, Answer, Config, Shipping, unreadable, load_offset, is_accepted, ship_pending, ship_round,
}
use anglerfish_ai.Audit.Shipper.Delivery.{sent}
use anglerfish_ai.Audit.Shipper.Cycle.{file_of, IsAt, IsSynced, IsCycled, ship_pending-IsCycled}

-- An event is recorded at some time, with the log writable or not, or the shipper runs a cycle.
pub data Step (V : Type 0) : Type 0 where
  write : Text → Bool → Text → Dict Text V → Step V
  cycle : Step V

-- An empty log, no offset saved, no request made.
abbrev pub fresh : ℕ → Shipping
fresh file_inode = record {
  log = some (file_of file_inode []);
  offset_file = unreadable;
  posts = [];
}

abbrev pub written : LogFile → Result Bytes → LogFile
written file (raise e) = file
written file (ok content) = record file { content = content }

-- What a call of `record` puts into the log: a line, or nothing if the call raises, if the record
-- cannot be printed, or if the log cannot be written.
abbrev pub line_if : Bool → Option Bytes → List Bytes
line_if writable none = []
line_if writable (some payload) = if writable then payload ∷ [] else []

module _ {V : Type 0} (of_text : Text → V) (dumps : Dict Text V → Option Bytes) where
  abbrev pub lines_of : Step V → List Bytes
  lines_of cycle = []
  lines_of (write now writable [] fields) = []
  lines_of (write now writable (c ∷ kind) fields) =
      if clashes fields
      then []
      else line_if writable (dumps (stamped of_text dumps now (c ∷ kind) fields))

  abbrev pub recorded : List (Step V) → List Bytes
  recorded [] = []
  recorded (step ∷ steps) = lines_of step ++ recorded steps

  module _ (answer : ℕ → Answer) (c : Config) where
    abbrev pub write_log : Text → Bool → Text → Dict Text V → Option LogFile → Option LogFile
    write_log now writable kind fields none = none
    write_log now writable kind fields (some file) =
        some (written file (record_event of_text dumps now writable kind fields file.content))

    abbrev pub after_step : Step V → Shipping → Shipping
    after_step cycle w = ship_round answer true c w
    after_step (write now writable kind fields) w = record w {
      log = write_log now writable kind fields w.log;
    }

    abbrev pub run : List (Step V) → Shipping → Shipping
    run [] w = w
    run (step ∷ steps) w = run steps (after_step step w)

  append_line-encode :
      (writable : Bool) (printed : Option Bytes) (lines : List Bytes)
      → append_line writable printed (encode lines) ≡ encode (lines ++ line_if writable printed)
  append_line-encode writable none lines = ap encode (sym (append-nil lines))
  append_line-encode false (some payload) lines = ap encode (sym (append-nil lines))
  append_line-encode true (some payload) lines = sym (encode-append lines (payload ∷ []))

  pub written-encode :
      (inode : ℕ) (now : Text) (writable : Bool) (kind : Text) (fields : Dict Text V)
      (lines : List Bytes)
      → written
          (file_of inode lines)
          (record_event of_text dumps now writable kind fields (encode lines))
        ≡ file_of inode (lines ++ lines_of (write now writable kind fields))
  unfolding record_event
  written-encode inode now writable [] fields lines = ap (file_of inode) (sym (append-nil lines))
  written-encode inode now writable (c ∷ kind) fields lines = elim (Bool-cases (clashes fields)) [
    | inl clash ↦ rw clash (ap (file_of inode) (sym (append-nil lines)))
    | inr free ↦ rw free (
        ap (λ content. record { inode = inode; content = content })
          (append_line-encode writable (dumps (stamped of_text dumps now (c ∷ kind) fields)) lines))
  ]

  -- `json.dumps` prints a record on one line, and prints something.
  abbrev pub PrintsLines : Type 0
  PrintsLines =
      (entry : Dict Text V) (payload : Bytes) → dumps entry ≡ some payload → is_line payload ≡ true
