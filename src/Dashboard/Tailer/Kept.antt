-- ===== src/Dashboard/Tailer/Kept.antt =====
-- What is stored of a session after a run of the tailer over the log.
use anglerfish_ai.Base.{ℕ, ◌≡◌, Bool, false, Option, List, [], ◌∷◌, number_key}
use anglerfish_ai.Base.Dict
use anglerfish_ai.Base.Text.{Text}
use anglerfish_ai.Base.Result.{Result, ok}
use anglerfish_ai.Dashboard.Sessions.{State}
use anglerfish_ai.Dashboard.Sessions.Written.{stored}
use anglerfish_ai.Dashboard.Tailer.{Tailer}
use anglerfish_ai.Dashboard.Tailer.Events.{Event, Enrichment}
use anglerfish_ai.Dashboard.Tailer.Stored.{dispatch}

module _ (fails : ℕ → Bool) (never : (n : ℕ) → fails n ≡ false) (now : ℕ)
    (fromisoformat : Text → Option ℕ) (uuid : Text → Option ℕ)
    (enrich : Enrichment → Option ℕ → Event → State → State × Result (Unit {0}))
    (spares : (kind : Enrichment) (sid : Option ℕ) (event : Event) (s : State)
      → ((enrich kind sid event s).1 ≡ ok tt)
        × ((j : ℕ) → stored (enrich kind sid event s).0.rows j ≡ stored s.rows j)) where
  abbrev dispatch_here : Event → Tailer → Tailer × Result (Unit {0})
  dispatch_here event t = dispatch fails never now fromisoformat uuid enrich spares event t

  abbrev run_events : List Event → Tailer → Tailer
  run_events [] t = t
  run_events (event ∷ events) t = run_events events (dispatch_here event t).0
