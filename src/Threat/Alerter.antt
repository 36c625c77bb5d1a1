-- ===== src/Threat/Alerter.antt =====
-- src/anglerfish/threat/alerter.py and src/anglerfish/threat/service.py: which assessments are posted
-- to the operator's webhook. What the HTTP client does with a request is a parameter.
use anglerfish_ai.Base.{ℕ, Bool, true, false, List, [], ◌∷◌, Option, none, some, leb, if◌then◌else◌}
use anglerfish_ai.Base.Text.{Text}
use anglerfish_ai.Base.Result.{Result}
use anglerfish_ai.Threat.Technique.{TechniqueRule}
use anglerfish_ai.Threat.Scorer.{SessionSnapshot, ThreatAssessment, score_session}

pub record ThreatConfig : Type 0 where
  pub alert_webhook_url : Option Text
  pub alert_threshold : ℕ

-- How a POST ends: an `httpx.HTTPError`, or a status.
pub data PostEnd : Type 0 where
  transport_error : PostEnd
  status : ℕ → PostEnd

abbrev pub Client : Type 0
Client = Text → ThreatAssessment → PostEnd

pub record ThreatAlerter : Type 0 where
  pub config : ThreatConfig
  pub client : Option Client

-- `ThreatAlerter(config)`: a client is made only if there is a URL.
unfoldable pub make_alerter : ThreatConfig → Option Client → Client → ThreatAlerter
make_alerter config (some given) made = record { config = config; client = some given }
make_alerter config none made = record {
  config = config;
  client = elim config.alert_webhook_url [ none ↦ none | some url ↦ some made ];
}

unfoldable pub should_alert : Option Text → ℕ → ThreatAssessment → Bool
should_alert none threshold assessment = false
should_alert (some url) threshold assessment =
    if assessment.persistence_attempted then true else leb threshold assessment.score

unfoldable delivered : PostEnd → Bool
delivered transport_error = false
delivered (status n) = if leb 400 n then false else true

-- Whether the alert was delivered, and the payloads that were posted.
unfoldable pub send_alert :
    Option Text → Option Client → ThreatAssessment → Bool × List ThreatAssessment
unfolding delivered
send_alert none client assessment = (false, [])
send_alert (some url) none assessment = (false, [])
send_alert (some url) (some post) assessment = (delivered (post url assessment), assessment ∷ [])

unfoldable pub maybe_alert : ThreatAlerter → ThreatAssessment → Bool × List ThreatAssessment
unfolding should_alert send_alert
maybe_alert a assessment =
    if should_alert a.config.alert_webhook_url a.config.alert_threshold assessment
    then send_alert a.config.alert_webhook_url a.client assessment
    else (false, [])

-- `ThreatEngine.process`: the assessment, and the payloads that were posted.
unfoldable pub process :
    (Text → Result (List Text))
    → List TechniqueRule
    → ThreatAlerter
    → SessionSnapshot
    → ThreatAssessment × List ThreatAssessment
unfolding maybe_alert
process shell_split rules a snapshot =
    let assessment = score_session shell_split rules snapshot in
    if should_alert a.config.alert_webhook_url a.config.alert_threshold assessment
    then (assessment, (maybe_alert a assessment).1)
    else (assessment, [])
