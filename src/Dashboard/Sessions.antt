-- ===== src/Dashboard/Sessions.antt =====
-- The session tables of src/anglerfish/sessions/store.py and the part of
-- src/anglerfish/dashboard/state.py that writes sessions. Times are microseconds, UUIDs numbers.
pub mod Written
mod Counts
mod Tests
use anglerfish_ai.Base.{
  ℕ, ◌+◌, Bool, true, false, Option, none, some, List, [], ◌∷◌, ◌++◌, if◌then◌else◌, length, drop,
  number_key,
}
use anglerfish_ai.Base.Dict
use anglerfish_ai.Base.Dict.{Dict}
use anglerfish_ai.Base.Text.{Text}
use anglerfish_ai.Base.Result.{Exception, Result, ok, raise, os_error, value_error}
use anglerfish_ai.Dashboard.Fanout.{Queue, publish_to}
use anglerfish_ai.Bridge.Session.{CommandTurn}

-- The fields of a snapshot beside its turns.
pub record SessionMeta : Type 0 where
  pub source_ip : Text
  pub username : Text
  pub fake_hostname : Text
  pub fake_username : Text
  pub fake_cwd : Text
  pub started_at : ℕ
  pub last_activity_at : ℕ
  pub persona_name : Option Text

pub record Snapshot : Type 0 where
  pub meta : SessionMeta
  pub turns : List CommandTurn

-- A row of `sessions` with its rows of `turns` in order.
pub record Row : Type 0 where
  pub meta : SessionMeta
  pub ended_at : Option ℕ
  pub command_count : ℕ
  pub turns : List CommandTurn

pub data DashboardEvent : Type 0 where
  session_started session_updated session_ended : ℕ → Snapshot → DashboardEvent
  command_event : ℕ → CommandTurn → DashboardEvent

-- The database, how many statements it was asked to run, and the queues of the subscribers.
pub record State : Type 0 where
  pub rows : Dict ℕ Row
  pub calls : ℕ
  pub subscribers : List (Queue DashboardEvent)

-- A call that may raise, and leaves behind what it changed before.
abbrev pub Act : Type 0 → Type 0
Act A = State → State × Result A

abbrev pub after : {A B : Type 0} → State × Result A → (A → Act B) → State × Result B
after (s, raise e) next = (s, raise e)
after (s, ok a) next = next a s

infixl 5 ◌>>=◌ ◌>>◌
abbrev pub ◌>>=◌ : {A B : Type 0} → Act A → (A → Act B) → Act B
◌>>=◌ act next s = after (act s) next

abbrev pub ◌>>◌ : {B : Type 0} → Act (Unit {0}) → Act B → Act B
◌>>◌ act next s = after (act s) (λ done. next)

abbrev pub return : {A : Type 0} → A → Act A
return a s = (s, ok a)

-- `_get_session_locked`
abbrev pub snapshot_of : Option Row → Option Snapshot
snapshot_of none = none
snapshot_of (some row) = some (record { meta = row.meta; turns = row.turns })

-- The row that `_upsert_session_locked` leaves: `started_at`, `ended_at` and the count stay.
abbrev pub upserted : Snapshot → Option Row → Row
upserted snap none = record {
  meta = snap.meta;
  ended_at = none;
  command_count = length snap.turns;
  turns = [];
}
upserted snap (some row) = record row {
  meta = record snap.meta { started_at = row.meta.started_at };
}

-- The `INSERT` of a turn, and the `UPDATE` of the count behind it.
abbrev pub with_turn : CommandTurn → Row → Row
with_turn turn row = record row { turns = row.turns ++ (turn ∷ []) }

abbrev pub with_count : Row → Row
with_count row = record row { command_count = row.command_count + 1 }

abbrev pub publish : DashboardEvent → Act (Unit {0})
publish event s = (record s { subscribers = publish_to event s.subscribers }, ok tt)

abbrev pub publish_commands : ℕ → List CommandTurn → Act (Unit {0})
publish_commands sid [] s = (s, ok tt)
publish_commands sid (turn ∷ turns) s =
    publish_commands sid turns
      (record s { subscribers = publish_to (command_event sid turn) s.subscribers })

abbrev pub announce : ℕ → Snapshot → Option Snapshot → DashboardEvent
announce sid snap none = session_started sid snap
announce sid snap (some previous) = session_updated sid snap

abbrev pub turns_of : Option Snapshot → List CommandTurn
turns_of none = []
turns_of (some snap) = snap.turns

module _ (fails : ℕ → Bool) where
  -- One statement, which the database may refuse; a refused one changes nothing.
  unfoldable pub statement : {A : Type 0} → (State → State × Result A) → Act A
  statement run s =
      let counted = record s { calls = s.calls + 1 } in
      if fails s.calls then (counted, raise os_error) else run counted

  unfoldable pub get_session : ℕ → Act (Option Snapshot)
  unfolding statement
  get_session sid = statement (λ s. (s, ok (snapshot_of (Dict.get sid s.rows))))

  unfoldable pub upsert_session : ℕ → Snapshot → Act (Unit {0})
  unfolding statement
  upsert_session sid snap =
      statement (λ s.
        (record s { rows = Dict.put sid (upserted snap (Dict.get sid s.rows)) s.rows }, ok tt))

  -- The foreign key refuses a turn of a session that has no row.
  abbrev pub put_turn : ℕ → CommandTurn → Option Row → State → State × Result (Unit {0})
  put_turn sid turn none s = (s, raise value_error)
  put_turn sid turn (some row) s =
      (record s { rows = Dict.put sid (with_turn turn row) s.rows }, ok tt)

  abbrev pub put_count : ℕ → Option Row → State → State × Result (Unit {0})
  put_count sid none s = (s, ok tt)
  put_count sid (some row) s = (record s { rows = Dict.put sid (with_count row) s.rows }, ok tt)

  -- `_record_turn_locked`: the number of the turn is read, the turn is inserted, and the session's
  -- count is raised, each committed on its own.
  unfoldable pub record_turn : ℕ → CommandTurn → Act (Unit {0})
  unfolding statement
  record_turn sid turn = do
    statement (λ s. (s, ok tt))
    statement (λ s. put_turn sid turn (Dict.get sid s.rows) s)
    statement (λ s. put_count sid (Dict.get sid s.rows) s)

  unfoldable pub record_turns : ℕ → List CommandTurn → Act (Unit {0})
  record_turns sid [] s = (s, ok tt)
  record_turns sid (turn ∷ turns) s =
      after (record_turn sid turn s) (λ done. record_turns sid turns)

  -- `DashboardState.update_session`: the turns behind those stored are added.
  unfoldable pub update_session : ℕ → Snapshot → Act (Unit {0})
  unfolding get_session upsert_session record_turns
  update_session sid snap = do
    previous ← get_session sid
    upsert_session sid snap
    let added = drop (length (turns_of previous)) snap.turns
    record_turns sid added
    publish (announce sid snap previous)
    publish_commands sid added

  abbrev pub close_row : ℕ → Option Row → Dict ℕ Row → ℕ → Dict ℕ Row
  close_row sid none rows now = rows
  close_row sid (some row) rows now = Dict.put sid (record row { ended_at = some now }) rows

  unfoldable pub mark_ended : ℕ → ℕ → Act (Unit {0})
  unfolding statement
  mark_ended sid now =
      statement (λ s. (record s { rows = close_row sid (Dict.get sid s.rows) s.rows now }, ok tt))

  abbrev pub end_known : ℕ → ℕ → Option Snapshot → Act (Unit {0})
  end_known sid now none = return tt
  end_known sid now (some previous) = do mark_ended sid now; publish (session_ended sid previous)

  -- `DashboardState.end_session`
  unfoldable pub end_session : ℕ → ℕ → Act (Unit {0})
  unfolding get_session mark_ended
  end_session sid now = do previous ← get_session sid; end_known sid now previous
