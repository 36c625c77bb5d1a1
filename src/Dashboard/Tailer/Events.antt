-- ===== src/Dashboard/Tailer/Events.antt =====
-- The events of the audit log, their fields, and where src/anglerfish/dashboard/audit_tailer.py sends
-- each. Reading a time or a UUID is an argument.
use anglerfish_ai.Base.{
  ℕ, Bool, true, false, Option, none, some, [], ◌∷◌, if◌then◌else◌, number_key, text_key, text_same,
}
use anglerfish_ai.Base.Dict
use anglerfish_ai.Base.Dict.{Dict}
use anglerfish_ai.Base.Text.{Text, text}
use anglerfish_ai.Bridge.Session.{ResponseSource, ai, fallback}

-- A JSON value: a text, a number from 0 on, a Boolean, another number (negative, infinite or not
-- a number), or anything else.
pub data Json : Type 0 where
  string : Text → Json
  number : ℕ → Json
  boolean : Bool → Json
  other_number other_value : Json

abbrev pub Event : Type 0
Event = Dict Text Json

pub data Enrichment : Type 0 where
  intent_extracted embedding_generated persistence_attempt honeytoken_placed : Enrichment

pub data Kind : Type 0 where
  opened closed ignored : Kind
  command : ResponseSource → Kind
  enriched : Enrichment → Kind

-- Where an event goes.
pub data Route : Type 0 where
  nowhere to_honeytokens : Route
  to_session : Kind → ℕ → Route

-- `_str_field`
abbrev pub text_or : Text → Option Json → Text
text_or default none = default
text_or default (some (string [])) = default
text_or default (some (string (c ∷ s))) = c ∷ s
text_or default (some (number n)) = default
text_or default (some (boolean b)) = default
text_or default (some other_number) = default
text_or default (some other_value) = default

abbrev pub str_field : Event → Text → Text → Text
str_field event key default = text_or default (Dict.get key event)

-- `latency_ms`, held to a number from 0 on; Python counts a Boolean as a number.
abbrev pub latency_of : Option Json → ℕ
latency_of none = 0
latency_of (some (string s)) = 0
latency_of (some (number n)) = n
latency_of (some (boolean true)) = 1
latency_of (some (boolean false)) = 0
latency_of (some other_number) = 0
latency_of (some other_value) = 0

-- The branches of `_dispatch_event`.
unfoldable pub kind_of : Text → Kind
kind_of event_type =
    if text_same event_type (text "lure.session_opened")
    then opened
    else if text_same event_type (text "lure.command_native")
    then command ai
    else if text_same event_type (text "lure.command_bridge")
    then command ai
    else if text_same event_type (text "lure.fallback_served")
    then command fallback
    else if text_same event_type (text "lure.session_closed")
    then closed
    else if text_same event_type (text "bridge.intent_extracted")
    then enriched intent_extracted
    else if text_same event_type (text "bridge.embedding_generated")
    then enriched embedding_generated
    else if text_same event_type (text "bridge.persistence_attempt")
    then enriched persistence_attempt
    else ignored

module _ (now : ℕ) (fromisoformat : Text → Option ℕ) where
  abbrev pub parsed_or_now : Option ℕ → ℕ
  parsed_or_now none = now
  parsed_or_now (some ts) = ts

  abbrev pub ts_of_field : Option Json → ℕ
  ts_of_field none = now
  ts_of_field (some (string raw)) = parsed_or_now (fromisoformat raw)
  ts_of_field (some (number n)) = now
  ts_of_field (some (boolean b)) = now
  ts_of_field (some other_number) = now
  ts_of_field (some other_value) = now

  -- `_parse_ts(event) or _utcnow()`
  abbrev pub ts_of : Event → ℕ
  ts_of event = ts_of_field (Dict.get (text "ts") event)

module _ (uuid : Text → Option ℕ) where
  -- The session that an event names.
  abbrev pub sid_of : Option Json → Option ℕ
  sid_of none = none
  sid_of (some (string raw)) = uuid raw
  sid_of (some (number n)) = none
  sid_of (some (boolean b)) = none
  sid_of (some other_number) = none
  sid_of (some other_value) = none

  abbrev pub route_session : Text → Option ℕ → Route
  route_session event_type none = nowhere
  route_session event_type (some sid) = to_session (kind_of event_type) sid

  abbrev pub route_typed : Option Json → Event → Route
  route_typed none event = nowhere
  route_typed (some (number n)) event = nowhere
  route_typed (some (boolean b)) event = nowhere
  route_typed (some other_number) event = nowhere
  route_typed (some other_value) event = nowhere
  route_typed (some (string event_type)) event =
      if text_same event_type (text "bridge.honeytoken_placed")
      then to_honeytokens
      else route_session event_type (sid_of (Dict.get (text "session_id") event))

  -- The tests of `_dispatch_event`, and then its calls.
  unfoldable pub route : Event → Route
  route event = route_typed (Dict.get (text "event_type") event) event
