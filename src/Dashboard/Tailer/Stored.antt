-- ===== src/Dashboard/Tailer/Stored.antt =====
-- The tailer from the log's bytes to the stored turns.
use mathlib.Core.Path.{subst}
use mathlib.Core.List.{append-nil}
use anglerfish_ai.Base.{
  ℕ, suc, ◌≡◌, refl, sym, ap, ◌∙◌, Bool, true, false, not, Option, none, some, List, [], ◌∷◌, ◌++◌,
  ◌==◌, if◌then◌else◌, all, number_key, number_iff, same_refl, Bool-cases, inl, inr, arith,
}
use anglerfish_ai.Base.Dict
use anglerfish_ai.Base.Text.{Text, text}
use anglerfish_ai.Base.Result.{Result, ok}
use anglerfish_ai.Bridge.Session.{CommandTurn}
use anglerfish_ai.Dashboard.Sessions.{State}
use anglerfish_ai.Dashboard.Sessions.Written.{stored}
use anglerfish_ai.Dashboard.Tailer.{Tailer, handle, follow, dispatch_event}
use anglerfish_ai.Dashboard.Tailer.Events.{
  Event, honeytoken_placed, Enrichment, Kind, opened, closed, ignored, command, enriched, Route,
  nowhere, to_honeytokens, to_session, str_field, route,
}
use anglerfish_ai.Dashboard.Tailer.Turns.{
  line_turns, handle_command-Adds, handle_opened-Adds, handle-Spares, run_enrich-Spares,
}
use anglerfish_ai.Dashboard.Tailer.Follows.{turns_at, IsInStep, Adds, Spares}

abbrev pub names_session : ℕ → Route → Bool
names_session j nowhere = false
names_session j to_honeytokens = false
names_session j (to_session kind sid) = sid == j

abbrev pub closes_session : ℕ → Route → Bool
closes_session j nowhere = false
closes_session j to_honeytokens = false
closes_session j (to_session opened sid) = false
closes_session j (to_session closed sid) = sid == j
closes_session j (to_session ignored sid) = false
closes_session j (to_session (command source) sid) = false
closes_session j (to_session (enriched kind) sid) = false

abbrev pub names : (Text → Option ℕ) → ℕ → Event → Bool
names uuid j event = names_session j (route uuid event)

-- No event of session `j` follows its closing.
abbrev pub is_tidy : (Text → Option ℕ) → ℕ → List Event → Bool
is_tidy uuid j [] = true
is_tidy uuid j (event ∷ events) =
    let rest = is_tidy uuid j events in
    if closes_session j (route uuid event) then all (λ e. not (names uuid j e)) events else rest

-- The turns that the command events of session `j` tell.
abbrev pub routed_turns : ℕ → (Text → Option ℕ) → ℕ → Route → Event → List CommandTurn
routed_turns now fromisoformat j nowhere event = []
routed_turns now fromisoformat j to_honeytokens event = []
routed_turns now fromisoformat j (to_session opened sid) event = []
routed_turns now fromisoformat j (to_session closed sid) event = []
routed_turns now fromisoformat j (to_session ignored sid) event = []
routed_turns now fromisoformat j (to_session (enriched kind) sid) event = []
routed_turns now fromisoformat j (to_session (command source) sid) event =
    if sid == j
    then line_turns now fromisoformat event source (str_field event (text "command") [])
    else []

abbrev pub told_turns :
    ℕ → (Text → Option ℕ) → (Text → Option ℕ) → ℕ → List Event → List CommandTurn
told_turns now fromisoformat uuid j [] = []
told_turns now fromisoformat uuid j (event ∷ events) =
    routed_turns now fromisoformat j (route uuid event) event
    ++ told_turns now fromisoformat uuid j events

-- Nothing stored, nothing kept.
abbrev pub new_tailer : Tailer
new_tailer = record { state = record { rows = []; calls = 0; subscribers = [] }; accumulators = [] }

-- A session that a route does not name is told no turn.
pub routed_turns_none :
    (now : ℕ) (fromisoformat : Text → Option ℕ) (j : ℕ) (r : Route) (event : Event)
    → names_session j r ≡ false
    → routed_turns now fromisoformat j r event ≡ []
routed_turns_none now fromisoformat j nowhere event h = refl
routed_turns_none now fromisoformat j to_honeytokens event h = refl
routed_turns_none now fromisoformat j (to_session opened sid) event h = refl
routed_turns_none now fromisoformat j (to_session closed sid) event h = refl
routed_turns_none now fromisoformat j (to_session ignored sid) event h = refl
routed_turns_none now fromisoformat j (to_session (enriched kind) sid) event h = refl
routed_turns_none now fromisoformat j (to_session (command source) sid) event h = rw h refl

IsInStep-after :
    (j : ℕ) (t : Tailer) (r : Tailer × Result (Unit {0}))
    → Spares j t r
    → IsInStep (turns_at j t) (Dict.get j t.accumulators)
    → IsInStep (turns_at j r.0) (Dict.get j r.0.accumulators)
IsInStep-after j t r spared in_step = rw (spared.turns, spared.kept) in_step

Spares-Adds :
    (j : ℕ) (t : Tailer) (r : Tailer × Result (Unit {0}))
    → Spares j t r
    → IsInStep (turns_at j t) (Dict.get j t.accumulators)
    → Adds j [] t r
Spares-Adds j t r spared in_step = record {
  returned = spared.returned;
  turns = spared.turns ∙ sym (append-nil (turns_at j t));
  in_step = IsInStep-after j t r spared in_step;
}

module _ (fails : ℕ → Bool) (never : (n : ℕ) → fails n ≡ false) (now : ℕ)
    (fromisoformat : Text → Option ℕ) (uuid : Text → Option ℕ)
    (enrich : Enrichment → Option ℕ → Event → State → State × Result (Unit {0}))
    (spares : (kind : Enrichment) (sid : Option ℕ) (event : Event) (s : State)
      → ((enrich kind sid event s).1 ≡ ok tt)
        × ((j : ℕ) → stored (enrich kind sid event s).0.rows j ≡ stored s.rows j)) where
  abbrev pub follow_here : Route → Event → Tailer → Tailer × Result (Unit {0})
  follow_here r event t = follow fails now fromisoformat uuid enrich r event t

  pub follow-Spares :
      (r : Route) (j : ℕ) (event : Event) (t : Tailer)
      → names_session j r ≡ false
      → Spares j t (follow_here r event t)
  follow-Spares nowhere j event t h = record { returned = refl; turns = refl; kept = refl }
  follow-Spares to_honeytokens j event t h =
      run_enrich-Spares fails never now fromisoformat uuid enrich spares honeytoken_placed none j
        event t
  follow-Spares (to_session kind sid) j event t h =
      handle-Spares fails never now fromisoformat uuid enrich spares kind sid j event t h

  -- An event of the session itself, unless it closes it.
  handle-Adds :
      (kind : Kind) (sid : ℕ) (event : Event) (t : Tailer)
      → closes_session sid (to_session kind sid) ≡ false
      → IsInStep (turns_at sid t) (Dict.get sid t.accumulators)
      → Adds sid
          (routed_turns now fromisoformat sid (to_session kind sid) event)
          t
          (handle fails now fromisoformat uuid enrich kind sid event t)
  handle-Adds opened sid event t h in_step =
      handle_opened-Adds fails never now fromisoformat uuid enrich sid event t in_step
  handle-Adds closed sid event t h in_step = ground (arith, same_refl sid)
  handle-Adds ignored sid event t h in_step =
      Spares-Adds sid t _ (record { returned = refl; turns = refl; kept = refl }) in_step
  handle-Adds (enriched kind) sid event t h in_step =
      Spares-Adds sid t _
        (run_enrich-Spares fails never now fromisoformat uuid enrich spares kind (some sid) sid
          event t)
        in_step
  handle-Adds (command source) sid event t h in_step =
      rw (same_refl sid)
        (handle_command-Adds fails never now fromisoformat uuid enrich sid event source t in_step)

  pub follow-Adds :
      (r : Route) (j : ℕ) (event : Event) (t : Tailer)
      → closes_session j r ≡ false
      → IsInStep (turns_at j t) (Dict.get j t.accumulators)
      → Adds j (routed_turns now fromisoformat j r event) t (follow_here r event t)
  follow-Adds nowhere j event t h in_step =
      Spares-Adds j t _ (follow-Spares nowhere j event t refl) in_step
  follow-Adds to_honeytokens j event t h in_step =
      Spares-Adds j t _ (follow-Spares to_honeytokens j event t refl) in_step
  follow-Adds (to_session kind sid) j event t h in_step = elim (Bool-cases (sid == j)) [
    | inl same ↦
        let at : j ≡ sid = sym ((number_iff sid j).0 same) in
        subst
          (λ k.
            Adds k (routed_turns now fromisoformat k (to_session kind sid) event) t
              (handle fails now fromisoformat uuid enrich kind sid event t))
          (sym at)
          (handle-Adds kind sid event t
            (ap (λ k. closes_session k (to_session kind sid)) (sym at) ∙ h) (rw (sym at) in_step))
    | inr other ↦
        rw (routed_turns_none now fromisoformat j (to_session kind sid) event other)
          (Spares-Adds j t _ (follow-Spares (to_session kind sid) j event t other) in_step)
  ]

  abbrev pub dispatch : Event → Tailer → Tailer × Result (Unit {0})
  dispatch event t = dispatch_event fails now fromisoformat uuid enrich event t

  follow_returns : (r : Route) (event : Event) (t : Tailer) → (follow_here r event t).1 ≡ ok tt
  follow_returns nowhere event t = refl
  follow_returns to_honeytokens event t =
      let spared : Spares 0 t _ = follow-Spares to_honeytokens 0 event t refl in spared.returned
  follow_returns (to_session kind sid) event t =
      let spared : Spares (suc sid) t _ =
        follow-Spares (to_session kind sid) (suc sid) event t (ground arith) in
      spared.returned

  pub dispatch_returns : (event : Event) (t : Tailer) → (dispatch event t).1 ≡ ok tt
  unfolding dispatch_event
  dispatch_returns event t = follow_returns (route uuid event) event t
