-- ===== src/Dashboard/Tailer.antt =====
-- src/anglerfish/dashboard/audit_tailer.py: how the events of the audit log become stored sessions.
-- Reading a time or a UUID is an argument, and so are the handlers of the events that enrich a
-- session (intents, embeddings, persistence attempts, honeytokens), which write other tables.
pub mod Poll
pub mod Events
mod Follows
mod Turns
mod Stored
mod Kept
mod Replay
mod Tests
use anglerfish_ai.Base.{
  ℕ, Bool, true, false, ◌&&◌, Option, none, some, [], ◌∷◌, ◌++◌, ◌==◌, if◌then◌else◌, any,
  number_key, text_key, text_same,
}
use anglerfish_ai.Base.Dict
use anglerfish_ai.Base.Dict.{Dict}
use anglerfish_ai.Base.Text.{Text, text}
use anglerfish_ai.Base.Result.{Result, ok, raise}
use anglerfish_ai.Bridge.Session.{CommandTurn, ResponseSource, ai, fallback, rejected}
use anglerfish_ai.Dashboard.Sessions.{
  SessionMeta, Snapshot, State, turns_of, get_session, update_session, end_session,
}
use anglerfish_ai.Dashboard.Tailer.Events.{
  Event, Enrichment, Kind, Route, str_field, latency_of, ts_of, route, honeytoken_placed, opened,
  closed, ignored, command, enriched, nowhere, to_honeytokens, to_session,
}

pub record Tailer : Type 0 where
  pub state : State
  pub accumulators : Dict ℕ Snapshot

abbrev pub source_same : ResponseSource → ResponseSource → Bool
source_same ai ai = true
source_same fallback fallback = true
source_same rejected rejected = true
source_same ai fallback = false
source_same ai rejected = false
source_same fallback ai = false
source_same fallback rejected = false
source_same rejected ai = false
source_same rejected fallback = false

-- The replay guard's test.
abbrev pub is_replay : CommandTurn → CommandTurn → Bool
is_replay turn t =
    t.timestamp == turn.timestamp
    && text_same t.command turn.command
    && source_same t.source turn.source

abbrev pub meta_at : Text → Text → ℕ → SessionMeta
meta_at source_ip username ts = record {
  source_ip = source_ip;
  username = username;
  fake_hostname = text "unknown";
  fake_username = username;
  fake_cwd = text "/";
  started_at = ts;
  last_activity_at = ts;
  persona_name = none;
}

module _ (now : ℕ) (fromisoformat : Text → Option ℕ) where
  unfoldable pub turn_of : Event → Text → ResponseSource → CommandTurn
  turn_of event line source = record {
    command = line;
    response = [];
    source = source;
    timestamp = ts_of now fromisoformat event;
    latency_ms = latency_of (Dict.get (text "latency_ms") event);
  }

module _ (fails : ℕ → Bool) where
  -- Keep the snapshot, and write it through.
  unfoldable pub put_snapshot : ℕ → Snapshot → Tailer → Tailer × Result (Unit {0})
  put_snapshot sid snap t =
      let (state, result) = update_session fails sid snap t.state in
      (record { state = state; accumulators = Dict.put sid snap t.accumulators }, result)

  -- The end of `_handle_command`: the snapshot with one more turn.
  unfoldable pub push_turn : ℕ → CommandTurn → Snapshot → Tailer → Tailer × Result (Unit {0})
  push_turn sid turn snap t =
      put_snapshot sid
        (record {
          meta = record snap.meta { last_activity_at = turn.timestamp };
          turns = snap.turns ++ (turn ∷ []);
        })
        t

module _ (fails : ℕ → Bool) (now : ℕ) (fromisoformat : Text → Option ℕ) (uuid : Text → Option ℕ)
    (enrich : Enrichment → Option ℕ → Event → State → State × Result (Unit {0})) where
  unfoldable pub handle_opened : ℕ → Event → Tailer → Tailer × Result (Unit {0})
  handle_opened sid event t =
      put_snapshot fails sid
        (record {
          meta =
              meta_at (str_field event (text "source_ip") (text "unknown"))
                (str_field event (text "username") (text "unknown"))
                (ts_of now fromisoformat event);
          turns = turns_of (Dict.get sid t.accumulators);
        })
        t

  abbrev pub on_persisted :
      ℕ → Event → CommandTurn → Tailer → Result (Option Snapshot) → Tailer × Result (Unit {0})
  on_persisted sid event turn t (raise e) = (t, raise e)
  on_persisted sid event turn t (ok none) =
      push_turn fails sid turn
        (record {
          meta =
              meta_at (str_field event (text "source_ip") (text "unknown")) (text "unknown")
                turn.timestamp;
          turns = [];
        })
        t
  on_persisted sid event turn t (ok (some persisted)) =
      if any (is_replay turn) persisted.turns
      then (t, ok tt)
      else push_turn fails sid turn persisted t

  abbrev pub on_accumulator :
      ℕ → Event → CommandTurn → Tailer → Option Snapshot → Tailer × Result (Unit {0})
  on_accumulator sid event turn t (some snap) = push_turn fails sid turn snap t
  on_accumulator sid event turn t none =
      let (state, found) = get_session fails sid t.state in
      on_persisted sid event turn (record t { state = state }) found

  abbrev pub on_command : ℕ → Event → ResponseSource → Text → Tailer → Tailer × Result (Unit {0})
  on_command sid event source [] t = (t, ok tt)
  on_command sid event source (c ∷ s) t =
      on_accumulator sid event (turn_of now fromisoformat event (c ∷ s) source) t
        (Dict.get sid t.accumulators)

  unfoldable pub handle_command : ℕ → Event → ResponseSource → Tailer → Tailer × Result (Unit {0})
  handle_command sid event source t =
      on_command sid event source (str_field event (text "command") []) t

  unfoldable pub handle_closed : ℕ → Tailer → Tailer × Result (Unit {0})
  handle_closed sid t =
      let (state, result) = end_session fails sid now t.state in
      (record { state = state; accumulators = Dict.remove sid t.accumulators }, result)

  abbrev pub run_enrich : Enrichment → Option ℕ → Event → Tailer → Tailer × Result (Unit {0})
  run_enrich kind sid event t =
      let (state, result) = enrich kind sid event t.state in (record t { state = state }, result)

  abbrev pub handle : Kind → ℕ → Event → Tailer → Tailer × Result (Unit {0})
  handle opened sid event t = handle_opened sid event t
  handle (command source) sid event t = handle_command sid event source t
  handle closed sid event t = handle_closed sid t
  handle (enriched kind) sid event t = run_enrich kind (some sid) event t
  handle ignored sid event t = (t, ok tt)

  abbrev pub follow : Route → Event → Tailer → Tailer × Result (Unit {0})
  follow nowhere event t = (t, ok tt)
  follow to_honeytokens event t = run_enrich honeytoken_placed none event t
  follow (to_session kind sid) event t = handle kind sid event t

  unfoldable pub dispatch_event : Event → Tailer → Tailer × Result (Unit {0})
  unfolding route
  dispatch_event event t = follow (route uuid event) event t
