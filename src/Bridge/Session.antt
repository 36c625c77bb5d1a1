-- ===== src/Bridge/Session.antt =====
-- `SessionContext` of src/anglerfish/bridge/session.py: one attacker's session. A moment is a number
-- of ticks, a persona its name, and a persistence event its payload.
pub mod History
use anglerfish_ai.Base.{
  ℕ, ◌+◌, ◌-◌, Bool, true, false, not, List, [], ◌∷◌, ◌++◌, Option, none, some, if◌then◌else◌,
  length, drop,
}
use anglerfish_ai.Base.Text.{Text, text, starts_with}
use anglerfish_ai.Base.Result.{Result, ok, raise, value_error}
use anglerfish_ai.Bridge.RateLimit.{Uuid}

pub data ResponseSource : Type 0 where
  ai fallback rejected : ResponseSource

pub record CommandTurn : Type 0 where
  pub command : Text
  pub response : Text
  pub source : ResponseSource
  pub timestamp : ℕ
  pub latency_ms : ℕ

pub record SessionContext : Type 0 where
  pub session_id : Uuid
  pub source_ip : Text
  pub username : Text
  pub fake_hostname : Text
  pub fake_username : Text
  pub cwd : Text
  pub oldpwd : Option Text
  pub persona : Option Text
  pub persistence_events : List Text
  pub history_window : ℕ
  pub history : List CommandTurn
  pub command_count : ℕ
  pub started_at : ℕ
  pub last_activity_at : ℕ

-- `__init__`; a negative window has no counterpart.
unfoldable pub open_session :
    Uuid
    → Text
    → Text
    → Text
    → Text
    → Text
    → ℕ
    → Option Text
    → List Text
    → ℕ
    → Result SessionContext
open_session session_id source_ip username fake_hostname fake_username fake_cwd history_window
      persona events now =
    if not (starts_with (text "/") fake_cwd)
    then raise value_error
    else ok (record {
      session_id = session_id;
      source_ip = source_ip;
      username = username;
      fake_hostname = fake_hostname;
      fake_username = fake_username;
      cwd = fake_cwd;
      oldpwd = none;
      persona = persona;
      persistence_events = events;
      history_window = history_window;
      history = [];
      command_count = 0;
      started_at = now;
      last_activity_at = now;
    })

-- `deque(maxlen=window).append`
unfoldable pub append_bounded {ℓ} : {A : Type ℓ} → ℕ → List A → A → List A
append_bounded window items item =
    let all_items = items ++ item ∷ [] in drop (length all_items - window) all_items

unfoldable pub record_persistence_event : SessionContext → Text → SessionContext
record_persistence_event s event = record s {
  persistence_events = s.persistence_events ++ event ∷ [];
}

unfoldable pub record_turn : SessionContext → Text → Text → ResponseSource → ℕ → ℕ → SessionContext
unfolding append_bounded
record_turn s command response source latency_ms now = record s {
  history = append_bounded s.history_window s.history (record {
    command = command;
    response = response;
    source = source;
    timestamp = now;
    latency_ms = latency_ms;
  });
  command_count = s.command_count + 1;
  last_activity_at = now;
}

unfoldable pub update_cwd : SessionContext → Text → Result SessionContext
update_cwd s new_cwd =
    if not (starts_with (text "/") new_cwd)
    then raise value_error
    else ok (record s { oldpwd = some s.cwd; cwd = new_cwd })
