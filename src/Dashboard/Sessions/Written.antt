-- ===== src/Dashboard/Sessions/Written.antt =====
-- What an update writes where no statement fails.
use mathlib.Core.List.{append-nil, append_assoc}
use anglerfish_ai.Base.{
  ℕ, ◌+◌, ◌≡◌, refl, sym, ap, ◌∙◌, Bool, false, Option, some, List, [], ◌∷◌, ◌++◌, ◌==◌, length,
  drop, number_key, number_iff, same_refl, Bool-cases, Option-cases, inl, inr, arith,
}
use anglerfish_ai.Base.Dict
use anglerfish_ai.Base.Dict.{Dict}
use anglerfish_ai.Base.Result.{Result, ok}
use anglerfish_ai.Bridge.Session.{CommandTurn}
use anglerfish_ai.Dashboard.Fanout.{publish_to}
use anglerfish_ai.Dashboard.Sessions.{
  Snapshot, Row, State, command_event, snapshot_of, upserted, with_turn, with_count, turns_of,
  announce, publish_commands, after, statement, put_turn, put_count, record_turn, record_turns,
  update_session, end_session,
}

-- The stored turns of a session.
abbrev pub stored : Dict ℕ Row → ℕ → List CommandTurn
stored rows sid = turns_of (snapshot_of (Dict.get sid rows))

abbrev pub with_turns : List CommandTurn → Row → Row
with_turns turns row = record row {
  command_count = row.command_count + length turns;
  turns = row.turns ++ turns;
}

with_no_turns : (row : Row) → row ≡ with_turns [] row
with_no_turns row = ground (arith, append-nil row.turns)

with_more_turns :
    (turn : CommandTurn) (turns : List CommandTurn) (row : Row)
    → with_turns turns (with_count (with_turn turn row)) ≡ with_turns (turn ∷ turns) row
with_more_turns turn turns row = ground (arith, append_assoc row.turns (turn ∷ []) turns)

-- The call returns in the state `t`, where session `sid` has the row `row` and no other has changed.
pub record Wrote {A : Type 0} (sid : ℕ) (row : Row) (s : State) (r : State × Result A) (a : A)
    : Type 0 where
  pub returned : r.1 ≡ ok a
  pub here : Dict.get sid r.0.rows ≡ some row
  pub elsewhere : (j : ℕ) → (sid == j) ≡ false → Dict.get j r.0.rows ≡ Dict.get j s.rows

get-put-here :
    (sid : ℕ) (row : Row) (rows : Dict ℕ Row) → Dict.get sid (Dict.put sid row rows) ≡ some row
get-put-here sid row rows = rw (Dict.get-put sid sid row rows, same_refl sid) refl

get-put-other :
    (sid j : ℕ) (row : Row) (rows : Dict ℕ Row)
    → (sid == j) ≡ false
    → Dict.get j (Dict.put sid row rows) ≡ Dict.get j rows
get-put-other sid j row rows h = rw (Dict.get-put sid j row rows, h) refl

-- The row of a session after an update.
abbrev pub updated_row : Snapshot → Option Row → Row
updated_row snap before =
    with_turns (drop (length (turns_of (snapshot_of before))) snap.turns) (upserted snap before)

publish_commands_rows :
    (sid : ℕ) (turns : List CommandTurn) (s : State)
    → ((publish_commands sid turns s).1 ≡ ok tt) × ((publish_commands sid turns s).0.rows ≡ s.rows)
publish_commands_rows sid [] s = (refl, refl)
publish_commands_rows sid (turn ∷ turns) s =
    publish_commands_rows sid turns
      (record s { subscribers = publish_to (command_event sid turn) s.subscribers })

module _ (fails : ℕ → Bool) (never : (n : ℕ) → fails n ≡ false) where
  statement_runs :
      {A : Type 0} (run : State → State × Result A) (s : State)
      → statement fails run s ≡ run (record s { calls = s.calls + 1 })
  unfolding statement
  statement_runs run s = rw (never s.calls) refl

  record_turn_runs :
      (sid : ℕ) (turn : CommandTurn) (row : Row) (s : State)
      → Dict.get sid s.rows ≡ some row
      → record_turn fails sid turn s ≡ (
        record s {
          calls = ((s.calls + 1) + 1) + 1;
          rows =
              Dict.put sid
                (with_count (with_turn turn row))
                (Dict.put sid (with_turn turn row) s.rows);
        },
        ok tt,
      )
  unfolding record_turn
  record_turn_runs sid turn row s known =
      let count : State → State × Result (Unit {0}) =
        λ t. put_count fails sid (Dict.get sid t.rows) t in
      let insert : State → State × Result (Unit {0}) =
        λ t. put_turn fails sid turn (Dict.get sid t.rows) t in
      let numbered = record s { calls = s.calls + 1 } in
      let inserted = record s {
        calls = (s.calls + 1) + 1;
        rows = Dict.put sid (with_turn turn row) s.rows;
      } in
      let counting = record inserted { calls = ((s.calls + 1) + 1) + 1 } in
      ap (λ r. after r (λ done t. after (statement fails insert t) (λ done. statement fails count)))
        (statement_runs (λ t. (t, ok tt)) s)
      ∙ ap (λ r. after r (λ done. statement fails count))
          (statement_runs insert numbered
            ∙ ap (λ found. put_turn fails sid turn found (record s { calls = (s.calls + 1) + 1 }))
                known)
      ∙ statement_runs count inserted
      ∙ ap (λ found. put_count fails sid found counting)
          (get-put-here sid (with_turn turn row) s.rows)

  record_turns-Wrote :
      (sid : ℕ) (turns : List CommandTurn) (row : Row) (s : State)
      → Dict.get sid s.rows ≡ some row
      → Wrote sid (with_turns turns row) s (record_turns fails sid turns s) tt
  unfolding record_turns
  record_turns-Wrote sid [] row s known = record {
    returned = refl;
    here = known ∙ ap some (with_no_turns row);
    elsewhere = λ j other. refl;
  }
  record_turns-Wrote sid (turn ∷ turns) row s known =
      let inserted = with_turn turn row in
      let rows = Dict.put sid inserted s.rows in
      let next = record s {
        calls = ((s.calls + 1) + 1) + 1;
        rows = Dict.put sid (with_count inserted) rows;
      } in
      let w =
        record_turns-Wrote sid turns (with_count inserted) next
          (get-put-here sid (with_count inserted) rows) in
      rw (record_turn_runs sid turn row s known) (record {
        returned = w.returned;
        here = w.here ∙ ap some (with_more_turns turn turns row);
        elsewhere = λ j other.
            w.elsewhere j other
            ∙ get-put-other sid j (with_count inserted) rows other
            ∙ get-put-other sid j inserted s.rows other;
      })

  -- An update returns; the session's row has the snapshot's fields and, behind the turns stored
  -- before, the snapshot's turns from that many on, each counted once more than the row counted;
  -- other sessions keep their rows. No statement fails.
  pub update_session-Wrote :
      (sid : ℕ) (snap : Snapshot) (s : State)
      → Wrote sid (updated_row snap (Dict.get sid s.rows)) s (update_session fails sid snap s) tt
  unfolding update_session
  update_session-Wrote sid snap s =
      let before = Dict.get sid s.rows in
      let s2 = record s {
        calls = (s.calls + 1) + 1;
        rows = Dict.put sid (upserted snap before) s.rows;
      } in
      let added = drop (length (turns_of (snapshot_of before))) snap.turns in
      let w =
        record_turns-Wrote sid added (upserted snap before) s2
          (get-put-here sid (upserted snap before) s.rows) in
      let r = record_turns fails sid added s2 in
      let announced = record r.0 {
        subscribers = publish_to (announce sid snap (snapshot_of before)) r.0.subscribers;
      } in
      let (told, same_rows) = publish_commands_rows sid added announced in
      rw (never s.calls, never (s.calls + 1), settled sid added s2 w.returned)
        (record {
          returned = told;
          here = ap (Dict.get sid) same_rows ∙ w.here;
          elsewhere = λ j other.
              ap (Dict.get j) same_rows
              ∙ w.elsewhere j other
              ∙ get-put-other sid j (upserted snap before) s.rows other;
        })
    where
      settled :
          (k : ℕ) (turns : List CommandTurn) (t : State)
          → (record_turns fails k turns t).1 ≡ ok tt
          → record_turns fails k turns t ≡ ((record_turns fails k turns t).0, ok tt)
      settled k turns t e = ap (λ x. ((record_turns fails k turns t).0, x)) e

stored-put-same :
    (sid j : ℕ) (row next : Row) (rows : Dict ℕ Row)
    → Dict.get sid rows ≡ some row
    → next.turns ≡ row.turns
    → stored (Dict.put sid next rows) j ≡ stored rows j
stored-put-same sid j row next rows known same = elim (Bool-cases (sid == j)) [
  | inl here ↦
      let at : sid ≡ j = (number_iff sid j).0 here in
      ap (λ found. turns_of (snapshot_of found))
        (ap (λ k. Dict.get k (Dict.put sid next rows)) (sym at) ∙ get-put-here sid next rows)
      ∙ same
      ∙ ap (λ found. turns_of (snapshot_of found)) (sym known ∙ ap (λ k. Dict.get k rows) at)
  | inr other ↦ ap (λ found. turns_of (snapshot_of found)) (get-put-other sid j next rows other)
]

module _ (fails : ℕ → Bool) (never : (n : ℕ) → fails n ≡ false) where
  -- Ending a session returns and changes no session's turns.
  pub end_session_turns :
      (sid now : ℕ) (s : State)
      → ((end_session fails sid now s).1 ≡ ok tt)
        × ((j : ℕ) → stored (end_session fails sid now s).0.rows j ≡ stored s.rows j)
  unfolding end_session
  end_session_turns sid now s = rw (never s.calls) (elim (Option-cases (Dict.get sid s.rows)) [
    | inl unknown ↦ rw unknown (refl, λ j. refl)
    | inr (row, known) ↦
        rw (known, never (s.calls + 1), known)
          (
            refl,
            λ j. stored-put-same sid j row (record row { ended_at = some now }) s.rows known refl,
          )
  ])
