-- ===== src/Threat/Alerts.antt =====
-- When an alert leaves the threat engine, and what it then says.
use anglerfish_ai.Base.{
  ℕ, ◌≤◌, ◌≡◌, true, ◌||◌, List, [], ◌∷◌, some, leb, ◌⊎◌, ◌↔◌, if◌then◌else◌, arith,
}
use anglerfish_ai.Base.Text.{Text}
use anglerfish_ai.Base.Result.{Result}
use anglerfish_ai.Threat.Technique.{TechniqueRule}
use anglerfish_ai.Threat.Scorer.{SessionSnapshot, score_of, assess_matched, score_session}
use anglerfish_ai.Threat.Alerter.{Client, should_alert, send_alert, maybe_alert, process}

module _ (shell_split : Text → Result (List Text)) (rules : List TechniqueRule) where
  -- A score is at most 100, an attempt at persistence is worth at least 20, and a session is of high
  -- severity just if it scores 70 or attempted persistence.
  pub score_session-range :
      (s : SessionSnapshot)
      → ((score_session shell_split rules s).score ≤ 100)
        × ((if (score_session shell_split rules s).persistence_attempted then 20 else 0)
            ≤ (score_session shell_split rules s).score)
        × (((score_session shell_split rules s).high_severity ≡ true) ↔ (
            (70 ≤ (score_session shell_split rules s).score)
            ⊎ ((score_session shell_split rules s).persistence_attempted ≡ true)))
  unfolding score_session assess_matched score_of
  score_session-range s = ground arith

  -- With a webhook and a client, one pass of the engine returns the score of the session, and posts
  -- it once if persistence was attempted or the score is at least the threshold; it posts nothing
  -- otherwise.
  pub process-posts :
      (url : Text) (threshold : ℕ) (post : Client) (s : SessionSnapshot)
      → process shell_split rules
          (record {
            config = record { alert_webhook_url = some url; alert_threshold = threshold };
            client = some post;
          })
          s
        ≡ (
          score_session shell_split rules s,
          if (score_session shell_split rules s).persistence_attempted
                || leb threshold (score_session shell_split rules s).score
              then score_session shell_split rules s ∷ []
              else [],
        )
  unfolding process maybe_alert should_alert send_alert
  process-posts url threshold post s = ground arith
