-- ===== src/Dashboard/Sessions/Tests.antt =====
-- Runs of the session tables, and their property at a concrete input.
use anglerfish_ai.Base.{ℕ, ◌≡◌, refl, Bool, false, none, some, [], ◌∷◌, number_key}
use anglerfish_ai.Base.Dict
use anglerfish_ai.Base.Text.{text}
use anglerfish_ai.Bridge.Session.{CommandTurn, ai}
use anglerfish_ai.Dashboard.Sessions.{Snapshot, Row, State, update_session}
use anglerfish_ai.Dashboard.Sessions.Counts.{Counts, update_session-Counts}

abbrev never_fails : ℕ → Bool
never_fails n = false

abbrev turn : CommandTurn
turn = record { command = text "id"; response = []; source = ai; timestamp = 5; latency_ms = 0 }

abbrev snapshot : Snapshot
snapshot = record {
  meta = record {
    source_ip = text "10.0.0.9";
    username = text "root";
    fake_hostname = text "unknown";
    fake_username = text "root";
    fake_cwd = text "/";
    started_at = 5;
    last_activity_at = 5;
    persona_name = none;
  };
  turns = turn ∷ [];
}

abbrev empty : State
empty = record { rows = []; calls = 0; subscribers = [] }

-- A command that comes before its session's opening is counted twice.
update_session-Counts_example :
    (row : Row) × (Dict.get 7 (update_session never_fails 7 snapshot empty).0.rows ≡ some row)
    × Counts (Dict.get 7 empty.rows) row
update_session-Counts_example = update_session-Counts never_fails (λ n. refl) 7 snapshot empty
