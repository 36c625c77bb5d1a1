-- ===== src/Dashboard/Tailer/Turns.antt =====
-- Which turns a run of the tailer stores for a session.
use mathlib.Core.List.{append-nil}
use anglerfish_ai.Base.{
  ℕ, ◌+◌, ◌≡◌, refl, sym, ap, ◌∙◌, Bool, false, Option, none, some, List, [], ◌∷◌, ◌==◌, any,
  number_key, Bool-cases, Option-cases, inl, inr,
}
use anglerfish_ai.Base.Dict
use anglerfish_ai.Base.Text.{Text, text}
use anglerfish_ai.Base.Result.{Result, ok}
use anglerfish_ai.Bridge.Session.{CommandTurn, ResponseSource}
use anglerfish_ai.Dashboard.Sessions.{Snapshot, Row, State, snapshot_of, turns_of}
use anglerfish_ai.Dashboard.Sessions.Written.{stored, end_session_turns}
use anglerfish_ai.Dashboard.Tailer.{
  Tailer, handle_opened, turn_of, on_persisted, on_accumulator, on_command, handle_command,
  handle_closed, run_enrich, handle, is_replay,
}
use anglerfish_ai.Dashboard.Tailer.Events.{
  Event, Enrichment, Kind, opened, closed, ignored, command, enriched, str_field,
}
use anglerfish_ai.Dashboard.Tailer.Follows.{
  turns_at, IsInStep, Adds, Spares, put_snapshot-Adds, put_snapshot-Spares, get_session_returns,
  push_turn-Adds, push_turn-Spares,
}

-- The turn that a command event tells, if it has a command.
abbrev pub line_turns : ℕ → (Text → Option ℕ) → Event → ResponseSource → Text → List CommandTurn
line_turns now fromisoformat event source [] = []
line_turns now fromisoformat event source (c ∷ s) =
    turn_of now fromisoformat event (c ∷ s) source ∷ []

module _ (fails : ℕ → Bool) (never : (n : ℕ) → fails n ≡ false) (now : ℕ)
    (fromisoformat : Text → Option ℕ) (uuid : Text → Option ℕ)
    (enrich : Enrichment → Option ℕ → Event → State → State × Result (Unit {0})) where
  abbrev pub command_turns : Event → ResponseSource → List CommandTurn
  command_turns event source =
      line_turns now fromisoformat event source (str_field event (text "command") [])

  on_persisted-Adds :
      (sid : ℕ) (event : Event) (turn : CommandTurn) (t : Tailer) (row : Option Row)
      → turns_at sid t ≡ turns_of (snapshot_of row)
      → turns_at sid t ≡ []
      → Adds sid
          (turn ∷ [])
          t
          (on_persisted fails now fromisoformat uuid enrich sid event turn t (ok (snapshot_of row)))
  on_persisted-Adds sid event turn t none same none_stored =
      push_turn-Adds fails never sid turn _ t (sym none_stored)
  on_persisted-Adds sid event turn t (some row) same none_stored =
      rw (ap (any (is_replay turn)) (sym same ∙ none_stored)) (
        push_turn-Adds fails never sid turn (record { meta = row.meta; turns = row.turns }) t
          (sym same))

  pub on_accumulator-Adds :
      (sid : ℕ) (event : Event) (turn : CommandTurn) (t : Tailer) (snap : Option Snapshot)
      → IsInStep (turns_at sid t) snap
      → Adds sid
          (turn ∷ [])
          t
          (on_accumulator fails now fromisoformat uuid enrich sid event turn t snap)
  on_accumulator-Adds sid event turn t (some snap) same =
      push_turn-Adds fails never sid turn snap t same
  on_accumulator-Adds sid event turn t none none_stored =
      let a =
        on_persisted-Adds sid event turn
          (record t { state = record t.state { calls = t.state.calls + 1 } })
          (Dict.get sid t.state.rows) refl none_stored in
      rw (get_session_returns fails never sid t.state)
        (record { returned = a.returned; turns = a.turns; in_step = a.in_step })

  pub handle_command-Adds :
      (sid : ℕ) (event : Event) (source : ResponseSource) (t : Tailer)
      → IsInStep (turns_at sid t) (Dict.get sid t.accumulators)
      → Adds sid
          (command_turns event source)
          t
          (handle_command fails now fromisoformat uuid enrich sid event source t)
  unfolding handle_command
  handle_command-Adds sid event source t in_step = go (str_field event (text "command") [])
    where
      go :
          (line : Text)
          → Adds sid
              (line_turns now fromisoformat event source line)
              t
              (on_command fails now fromisoformat uuid enrich sid event source line t)
      go [] = record {
        returned = refl;
        turns = sym (append-nil (turns_at sid t));
        in_step = in_step;
      }
      go (c ∷ s) =
          on_accumulator-Adds sid event (turn_of now fromisoformat event (c ∷ s) source) t
            (Dict.get sid t.accumulators) in_step

  pub handle_opened-Adds :
      (sid : ℕ) (event : Event) (t : Tailer)
      → IsInStep (turns_at sid t) (Dict.get sid t.accumulators)
      → Adds sid [] t (handle_opened fails now fromisoformat uuid enrich sid event t)
  unfolding handle_opened
  handle_opened-Adds sid event t in_step =
      put_snapshot-Adds fails never sid _ t []
        (known (Dict.get sid t.accumulators) in_step ∙ sym (append-nil (turns_at sid t)))
    where
      known :
          (snap : Option Snapshot) → IsInStep (turns_at sid t) snap → turns_of snap ≡ turns_at sid t
      known none same = sym same
      known (some snap) same = same

  pub handle_closed_turns :
      (sid j : ℕ) (t : Tailer)
      → ((handle_closed fails now fromisoformat uuid enrich sid t).1 ≡ ok tt)
        × (turns_at j (handle_closed fails now fromisoformat uuid enrich sid t).0 ≡ turns_at j t)
  unfolding handle_closed
  handle_closed_turns sid j t =
      let (returned, same) = end_session_turns fails never sid now t.state in (returned, same j)

  handle_closed-Spares :
      (sid j : ℕ) (t : Tailer)
      → (sid == j) ≡ false
      → Spares j t (handle_closed fails now fromisoformat uuid enrich sid t)
  unfolding handle_closed
  handle_closed-Spares sid j t other =
      let (returned, same) = end_session_turns fails never sid now t.state in
      record {
        returned = returned;
        turns = same j;
        kept = rw (Dict.get-remove sid j t.accumulators, other) refl;
      }

  on_row-Spares :
      (sid j : ℕ) (event : Event) (turn : CommandTurn) (t : Tailer) (row : Option Row)
      → (sid == j) ≡ false
      → Spares j t
          (on_persisted fails now fromisoformat uuid enrich sid event turn t (ok (snapshot_of row)))
  on_row-Spares sid j event turn t none other = push_turn-Spares fails never sid j turn _ t other
  on_row-Spares sid j event turn t (some row) other =
      elim (Bool-cases (any (is_replay turn) row.turns)) [
        | inl replay ↦ rw replay (record { returned = refl; turns = refl; kept = refl })
        | inr new ↦ rw new (
            push_turn-Spares fails never sid j turn (record { meta = row.meta; turns = row.turns })
              t other)
      ]

  on_command-Spares :
      (sid j : ℕ) (event : Event) (source : ResponseSource) (line : Text) (t : Tailer)
      → (sid == j) ≡ false
      → Spares j t (on_command fails now fromisoformat uuid enrich sid event source line t)
  on_command-Spares sid j event source [] t other = record {
    returned = refl;
    turns = refl;
    kept = refl;
  }
  on_command-Spares sid j event source (c ∷ s) t other =
      elim (Option-cases (Dict.get sid t.accumulators)) [
        | inl missing ↦
            let counted = record t { state = record t.state { calls = t.state.calls + 1 } } in
            let turn = turn_of now fromisoformat event (c ∷ s) source in
            let a = on_row-Spares sid j event turn counted (Dict.get sid t.state.rows) other in
            rw (missing, get_session_returns fails never sid t.state)
              (record { returned = a.returned; turns = a.turns; kept = a.kept })
        | inr (snap, found) ↦ rw found (
            push_turn-Spares fails never sid j (turn_of now fromisoformat event (c ∷ s) source) snap
              t other)
      ]

module _ (fails : ℕ → Bool) (never : (n : ℕ) → fails n ≡ false) (now : ℕ)
    (fromisoformat : Text → Option ℕ) (uuid : Text → Option ℕ)
    (enrich : Enrichment → Option ℕ → Event → State → State × Result (Unit {0}))
    (spares : (kind : Enrichment) (sid : Option ℕ) (event : Event) (s : State)
      → ((enrich kind sid event s).1 ≡ ok tt)
        × ((j : ℕ) → stored (enrich kind sid event s).0.rows j ≡ stored s.rows j)) where
  pub run_enrich-Spares :
      (kind : Enrichment) (sid : Option ℕ) (j : ℕ) (event : Event) (t : Tailer)
      → Spares j t (run_enrich fails now fromisoformat uuid enrich kind sid event t)
  run_enrich-Spares kind sid j event t =
      let (returned, same) = spares kind sid event t.state in
      record { returned = returned; turns = same j; kept = refl }

  pub handle-Spares :
      (kind : Kind) (sid j : ℕ) (event : Event) (t : Tailer)
      → (sid == j) ≡ false
      → Spares j t (handle fails now fromisoformat uuid enrich kind sid event t)
  unfolding handle_opened handle_command
  handle-Spares opened sid j event t other = put_snapshot-Spares fails never sid j _ t other
  handle-Spares closed sid j event t other =
      handle_closed-Spares fails never now fromisoformat uuid enrich sid j t other
  handle-Spares ignored sid j event t other = record { returned = refl; turns = refl; kept = refl }
  handle-Spares (command source) sid j event t other =
      on_command-Spares fails never now fromisoformat uuid enrich sid j event source
        (str_field event (text "command") []) t other
  handle-Spares (enriched kind) sid j event t other = run_enrich-Spares kind (some sid) j event t
