-- ===== src/Dashboard/Alerts/Tests.antt =====
-- Runs of `list_alerts` and its theorem at concrete logs.
use anglerfish_ai.Base.{ℕ, ◌≡◌, refl, true, List, [], ◌∷◌, ◌++◌, none, some, take}
use anglerfish_ai.Base.Text.{Text, text}
use anglerfish_ai.Dashboard.Alerts.{AuditEvent, Alert, list_alerts, is_known}
use anglerfish_ai.Dashboard.Alerts.Pages.{Strict, alerts_of}
use anglerfish_ai.Dashboard.Alerts.Cursor.{list_alerts-continues}

abbrev event : Text → ℕ → AuditEvent
event session ts = record {
  event_type = text "bridge.cluster_match";
  ts_ms = some ts;
  session_id = some session;
  source_ip = none;
}

abbrev noise : AuditEvent
noise = record (event (text "x") 25) { event_type = text "lure.connection_opened" }

abbrev alert : Text → ℕ → Alert
alert session ts = record {
  ts_ms = ts;
  offset = 0;
  kind = text "cluster_match";
  session_id = some session;
  source_ip = none;
}

abbrev log : List AuditEvent
log = event (text "c") 30 ∷ noise ∷ event (text "b") 20 ∷ event (text "a") 10 ∷ []

abbrev first_alert : Alert
first_alert = alert (text "c") 30

abbrev older : List Alert
older = alert (text "a") 10 ∷ []

program : Unit {0}
unfolding list_alerts alerts_of is_known
program = tt

log_shape : alerts_of none log ≡ (first_alert ∷ []) ++ alert (text "b") 20 ∷ older
unfolding program
log_shape = refl

known : is_known none ≡ true
unfolding program
known = refl

log-Strict : Strict none (alerts_of none log)
unfolding program
log-Strict = (refl, (refl, (refl, tt)))

list_alerts-continues_example :
    ((list_alerts 2 none none log).items ≡ first_alert ∷ alert (text "b") 20 ∷ [])
    × ((list_alerts 2 (list_alerts 2 none none log).next_cursor none log).items ≡ take 2 older)
list_alerts-continues_example =
    list_alerts-continues 2 none log (first_alert ∷ []) (alert (text "b") 20) older known log-Strict
      log_shape refl

-- Three alerts of one millisecond, two to a page: the second page shows the first alert again, and
-- the third alert is on neither.
abbrev burst : List AuditEvent
burst = event (text "c") 10 ∷ event (text "b") 10 ∷ event (text "a") 10 ∷ []

burst_cursor : (list_alerts 2 none none burst).next_cursor ≡ some (10, 1)
unfolding program
burst_cursor = refl

burst_repeats : (list_alerts 2 (some (10, 1)) none burst).items ≡ alert (text "c") 10 ∷ []
unfolding program
burst_repeats = refl
