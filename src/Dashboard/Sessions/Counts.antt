-- ===== src/Dashboard/Sessions/Counts.antt =====
-- `command_count` beside the turns that are stored.
use anglerfish_ai.Base.{
  ℕ, ◌+◌, ◌≡◌, refl, Bool, false, none, some, Option, length, drop, length-append, number_key,
  arith,
}
use anglerfish_ai.Base.Dict
use anglerfish_ai.Dashboard.Sessions.{Snapshot, Row, State, update_session}
use anglerfish_ai.Dashboard.Sessions.Written.{updated_row, update_session-Wrote}

-- What an update of a session with this row, or with none, counts.
abbrev pub Counts : Option Row → Row → Type 0
Counts none row = row.command_count ≡ length row.turns + length row.turns
Counts (some old) row = row.command_count + length old.turns ≡ old.command_count + length row.turns

updated_row-Counts :
    (snap : Snapshot) (before : Option Row) → Counts before (updated_row snap before)
updated_row-Counts snap none = refl
updated_row-Counts snap (some old) =
    omega (arith, length-append old.turns (drop (length old.turns) snap.turns))

-- Where no statement fails, an update of a session that has a row raises its `command_count` by the
-- number of turns that it adds; the first update of a session sets it to twice the number of turns
-- that it stores.
pub update_session-Counts :
    (fails : ℕ → Bool)
    → ((n : ℕ) → fails n ≡ false)
    → (sid : ℕ) (snap : Snapshot) (s : State)
    → (row : Row) × (Dict.get sid (update_session fails sid snap s).0.rows ≡ some row)
      × Counts (Dict.get sid s.rows) row
update_session-Counts fails never sid snap s =
    let w = update_session-Wrote fails never sid snap s in
    (updated_row snap (Dict.get sid s.rows), w.here, updated_row-Counts snap (Dict.get sid s.rows))
