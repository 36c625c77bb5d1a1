-- ===== src/Dashboard/Alerts.antt =====
-- `list_alerts` of src/anglerfish/dashboard/alerts.py: a page of the audit log's alerts, newest first,
-- with a cursor of a millisecond and an offset within it. An event is what the code reads of it; the
-- summary line of an alert is left out.
pub mod Pages
pub mod Cursor
mod Tests
use anglerfish_ai.Base.{
  ℕ, ◌+◌, Bool, true, false, not, ◌&&◌, ◌||◌, List, [], ◌∷◌, Option, none, some, ltb, leb, ◌==◌,
  if◌then◌else◌, any, text_same, text_key, length, last?,
}
use anglerfish_ai.Base.Dict
use anglerfish_ai.Base.Dict.{Dict}
use anglerfish_ai.Base.Text.{Text, text}

-- `ts_ms` is `parse_event_timestamp`, in milliseconds.
pub record AuditEvent : Type 0 where
  pub event_type : Text
  pub ts_ms : Option ℕ
  pub session_id : Option Text
  pub source_ip : Option Text

pub record Alert : Type 0 where
  pub ts_ms : ℕ
  pub offset : ℕ
  pub kind : Text
  pub session_id : Option Text
  pub source_ip : Option Text

pub record Page : Type 0 where
  pub items : List Alert
  pub next_cursor : Option (ℕ × ℕ)

abbrev pub alert_event_types : Dict Text Text
alert_event_types =
    (text "bridge.defense_fired", text "defense_fired")
    ∷ (text "bridge.defense_scan_truncated", text "defense_scan_truncated")
    ∷ (text "lure.subsystem_refused", text "subsystem_refused")
    ∷ (text "threat.alert_fired", text "high_severity_session")
    ∷ (text "bridge.intent_extracted", text "intent_summary")
    ∷ (text "bridge.cluster_match", text "cluster_match")
    ∷ (text "bridge.persistence_attempt", text "persistence_attempt")
    ∷ (text "bridge.honeytoken_callback", text "honeytoken_callback_hit")
    ∷ (text "bridge.counter_deception_engaged", text "counter_deception_engaged")
    ∷ []

unfoldable pub label_of : AuditEvent → Option Text
label_of e = Dict.get e.event_type alert_event_types

-- `kind is not None and kind not in ALERT_KINDS`, negated.
unfoldable pub is_known : Option Text → Bool
is_known none = true
is_known (some kind) = any (λ entry. text_same kind entry.1) alert_event_types

unfoldable pub is_wanted : Option Text → Text → Bool
is_wanted none label = true
is_wanted (some kind) label = text_same label kind

unfoldable pub timed : Option ℕ → Text → Option (Text × ℕ)
timed none label = none
timed (some ts) label = some (label, ts)

unfoldable pub labelled : Option Text → AuditEvent → Option Text → Option (Text × ℕ)
unfolding is_wanted timed
labelled kind e none = none
labelled kind e (some label) = if is_wanted kind label then timed e.ts_ms label else none

-- The `continue`s of the loop: the label and moment of an event that is looked at.
unfoldable pub relevant : Option Text → AuditEvent → Option (Text × ℕ)
unfolding label_of labelled
relevant kind e = labelled kind e (label_of e)

abbrev pub same_ms : Option ℕ → ℕ → Bool
same_ms none ts = false
same_ms (some t) ts = t == ts

unfoldable pub next_offset : Option ℕ → ℕ → ℕ → ℕ
next_offset last offset ts = if same_ms last ts then offset + 1 else 0

-- Whether an alert is beyond the cursor, in the loop's order.
unfoldable pub is_after : Option (ℕ × ℕ) → ℕ → ℕ → Bool
is_after none ts offset = true
is_after (some (bound_ms, bound_offset)) ts offset =
    not (ltb bound_ms ts || (ts == bound_ms && leb bound_offset offset))

unfoldable pub render_alert : AuditEvent → Text → ℕ → ℕ → Alert
render_alert e label ts offset = record {
  ts_ms = ts;
  offset = offset;
  kind = label;
  session_id = e.session_id;
  source_ip = e.source_ip;
}

-- One turn of the loop: `last_ts_ms` and `same_ms_offset` after it, and the alert it appends.
unfoldable pub visit :
    Option (ℕ × ℕ) → AuditEvent → Option (Text × ℕ) → Option ℕ → ℕ → (Option ℕ × ℕ) × Option Alert
unfolding next_offset is_after render_alert
visit bound e none last offset = ((last, offset), none)
visit bound e (some (label, ts)) last offset =
    let offset' = next_offset last offset ts in
    (
      (some ts, offset'),
      if is_after bound ts offset' then some (render_alert e label ts offset') else none,
    )

abbrev pub counted : ℕ → Option Alert → ℕ
counted n none = n
counted n (some a) = n + 1

-- Appending, and the `break` when the page is full.
unfoldable pub append_alert : ℕ → ℕ → Option Alert → List Alert → List Alert
append_alert limit n none rest = rest
append_alert limit n (some a) rest = if leb limit n then a ∷ [] else a ∷ rest

-- The loop, with the number of items so far.
unfoldable pub scan :
    ℕ → Option Text → Option (ℕ × ℕ) → Option ℕ → ℕ → ℕ → List AuditEvent → List Alert
unfolding relevant visit append_alert
scan limit kind bound last offset n [] = []
scan limit kind bound last offset n (e ∷ events) =
    let ((last', offset'), found) = visit bound e (relevant kind e) last offset in
    let rest = scan limit kind bound last' offset' (counted n found) events in
    append_alert limit (counted n found) found rest

unfoldable pub cursor_of : Option Alert → Option (ℕ × ℕ)
cursor_of none = none
cursor_of (some a) = some (a.ts_ms, a.offset)

unfoldable pub page_of : ℕ → List Alert → Page
unfolding cursor_of
page_of limit items = record {
  items = items;
  next_cursor = if leb limit (length items) then cursor_of (last? items) else none;
}

unfoldable pub list_alerts : ℕ → Option (ℕ × ℕ) → Option Text → List AuditEvent → Page
unfolding is_known scan page_of
list_alerts limit cursor kind events =
    if not (is_known kind)
    then record { items = []; next_cursor = none }
    else page_of limit (scan limit kind cursor none 0 0 events)
