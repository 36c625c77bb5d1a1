-- ===== src/Dashboard/Tailer/Follows.antt =====
-- The stored turns of a session follow the command events of the log.
use anglerfish_ai.Base.{
  ℕ, ◌+◌, ◌≡◌, refl, sym, ap, ◌∙◌, Bool, false, Option, none, some, List, [], ◌∷◌, ◌++◌, ◌==◌,
  length, drop, drop-length, number_key, same_refl,
}
use anglerfish_ai.Base.Dict
use anglerfish_ai.Base.Result.{Result, ok}
use anglerfish_ai.Bridge.Session.{CommandTurn}
use anglerfish_ai.Dashboard.Sessions.{
  Snapshot, Row, State, snapshot_of, upserted, turns_of, get_session,
}
use anglerfish_ai.Dashboard.Sessions.Written.{stored, updated_row, update_session-Wrote}
use anglerfish_ai.Dashboard.Tailer.{Tailer, put_snapshot, push_turn}

-- The turns of session `j` that the database holds.
abbrev pub turns_at : ℕ → Tailer → List CommandTurn
turns_at j t = stored t.state.rows j

upserted_turns :
    (snap : Snapshot) (before : Option Row)
    → (upserted snap before).turns ≡ turns_of (snapshot_of before)
upserted_turns snap none = refl
upserted_turns snap (some row) = refl

stored_after :
    (snap : Snapshot) (before : Option Row) (more : List CommandTurn)
    → snap.turns ≡ turns_of (snapshot_of before) ++ more
    → (updated_row snap before).turns ≡ turns_of (snapshot_of before) ++ more
stored_after snap before more has =
    let past = turns_of (snapshot_of before) in
    ap (λ turns. turns ++ drop (length past) snap.turns) (upserted_turns snap before)
    ∙ ap (λ turns. past ++ drop (length past) turns) has
    ∙ ap (λ turns. past ++ turns) (drop-length past more)

-- The accumulator of session `j` has the stored turns; without one, none are stored.
abbrev pub IsInStep : List CommandTurn → Option Snapshot → Type 0
IsInStep turns none = turns ≡ []
IsInStep turns (some snap) = snap.turns ≡ turns

-- The call returns, stores `more` for session `j`, and leaves it in step.
pub record Adds (j : ℕ) (more : List CommandTurn) (t : Tailer) (r : Tailer × Result (Unit {0}))
    : Type 0 where
  pub returned : r.1 ≡ ok tt
  pub turns : turns_at j r.0 ≡ turns_at j t ++ more
  pub in_step : IsInStep (turns_at j r.0) (Dict.get j r.0.accumulators)

-- The call returns and leaves session `j` alone.
pub record Spares (j : ℕ) (t : Tailer) (r : Tailer × Result (Unit {0})) : Type 0 where
  pub returned : r.1 ≡ ok tt
  pub turns : turns_at j r.0 ≡ turns_at j t
  pub kept : Dict.get j r.0.accumulators ≡ Dict.get j t.accumulators

module _ (fails : ℕ → Bool) (never : (n : ℕ) → fails n ≡ false) where
  pub put_snapshot-Adds :
      (sid : ℕ) (snap : Snapshot) (t : Tailer) (more : List CommandTurn)
      → snap.turns ≡ turns_at sid t ++ more
      → Adds sid more t (put_snapshot fails sid snap t)
  unfolding put_snapshot
  put_snapshot-Adds sid snap t more has =
      let before = Dict.get sid t.state.rows in
      let w = update_session-Wrote fails never sid snap t.state in
      let same = stored_after snap before more has ∙ sym has in
      let now_stored = ap (λ row. turns_of (snapshot_of row)) w.here in
      record {
        returned = w.returned;
        turns = now_stored ∙ stored_after snap before more has;
        in_step =
            rw (Dict.get-put sid sid snap t.accumulators, same_refl sid) (sym (now_stored ∙ same));
      }

  pub put_snapshot-Spares :
      (sid j : ℕ) (snap : Snapshot) (t : Tailer)
      → (sid == j) ≡ false
      → Spares j t (put_snapshot fails sid snap t)
  unfolding put_snapshot
  put_snapshot-Spares sid j snap t other =
      let w = update_session-Wrote fails never sid snap t.state in
      record {
        returned = w.returned;
        turns = ap (λ row. turns_of (snapshot_of row)) (w.elsewhere j other);
        kept = rw (Dict.get-put sid j snap t.accumulators, other) refl;
      }

  pub get_session_returns :
      (sid : ℕ) (s : State)
      → get_session fails sid s
        ≡ (record s { calls = s.calls + 1 }, ok (snapshot_of (Dict.get sid s.rows)))
  unfolding get_session
  get_session_returns sid s = rw (never s.calls) refl

  pub push_turn-Adds :
      (sid : ℕ) (turn : CommandTurn) (snap : Snapshot) (t : Tailer)
      → snap.turns ≡ turns_at sid t
      → Adds sid (turn ∷ []) t (push_turn fails sid turn snap t)
  unfolding push_turn
  push_turn-Adds sid turn snap t same =
      put_snapshot-Adds sid
        (record {
          meta = record snap.meta { last_activity_at = turn.timestamp };
          turns = snap.turns ++ (turn ∷ []);
        })
        t (turn ∷ []) (ap (λ turns. turns ++ (turn ∷ [])) same)

  pub push_turn-Spares :
      (sid j : ℕ) (turn : CommandTurn) (snap : Snapshot) (t : Tailer)
      → (sid == j) ≡ false
      → Spares j t (push_turn fails sid turn snap t)
  unfolding push_turn
  push_turn-Spares sid j turn snap t other = put_snapshot-Spares sid j _ t other
