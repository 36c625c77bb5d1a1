-- ===== src/Threat/Tests.antt =====
-- Runs of the threat engine and its theorems at concrete sessions.
use anglerfish_ai.Base.{
  ◌+◌, ◌≤◌, ◌≡◌, refl, true, false, ◌||◌, List, [], ◌∷◌, some, leb, if◌then◌else◌,
}
use anglerfish_ai.Base.Text.{Text, text, is_space, strip, lstrip, rstrip}
use anglerfish_ai.Base.Result.{Result, raise, value_error}
use anglerfish_ai.Threat.Technique.{
  TechniqueRule, split_blank, basename, tokens_of, matches_tokens, matches,
}
use anglerfish_ai.Threat.Scorer.{
  Turn, match_rule, match_rules, match_turns, assess_matched, score_session,
}
use anglerfish_ai.Threat.Scorer.Growth.{assessed, score_session-grows}
use anglerfish_ai.Threat.Scorer.Repeats.{technique_ids, score_session-repeat}
use anglerfish_ai.Threat.Alerter.{Client, status, process}
use anglerfish_ai.Threat.Alerts.{process-posts}

program : Unit {0}
unfolding split_blank basename tokens_of matches_tokens matches match_rule match_rules match_turns
    assess_matched score_session lstrip rstrip strip is_space
program = tt

-- A splitter that refuses every line, so that words end at blanks.
abbrev no_shell : Text → Result (List Text)
no_shell line = raise value_error

abbrev cron : TechniqueRule
cron = record {
  id = text "T1053";
  name = text "Scheduled Task";
  description = [];
  commands = text "crontab" ∷ [];
  command_patterns = [];
  weight = 15;
  persistence = true;
}

abbrev recon : TechniqueRule
recon = record cron {
  id = text "T1033";
  name = text "System Owner Discovery";
  commands = text "whoami" ∷ text "id" ∷ [];
  weight = 4;
  persistence = false;
}

abbrev rules : List TechniqueRule
rules = recon ∷ cron ∷ []

abbrev turn : Text → Turn
turn command = record { command = command; response = [] }

abbrev who : Turn
who = turn (text "/usr/bin/whoami -a")

abbrev install : Turn
install = turn (text "crontab -e")

crontab_matches : matches no_shell cron (text "crontab -e") ≡ true
unfolding program
crontab_matches = refl

session_scores : (assessed no_shell rules 1 (who ∷ install ∷ [])).score ≡ 39
unfolding program
session_scores = refl

score_session-grows_example :
    ((assessed no_shell rules 1 (who ∷ [])).score
      ≤ (assessed no_shell rules 1 (who ∷ install ∷ [])).score)
    × (((assessed no_shell rules 1 (who ∷ [])).persistence_attempted
          || (assessed no_shell rules 1 (who ∷ install ∷ [])).persistence_attempted)
        ≡ (assessed no_shell rules 1 (who ∷ install ∷ [])).persistence_attempted)
score_session-grows_example = score_session-grows no_shell rules 1 (who ∷ []) (install ∷ [])

score_session-repeat_example :
    (technique_ids (assessed no_shell rules 1 (who ∷ install ∷ who ∷ []))
      ≡ technique_ids (assessed no_shell rules 1 (who ∷ install ∷ [])))
    × ((assessed no_shell rules 1 (who ∷ install ∷ who ∷ [])).persistence_attempted
        ≡ (assessed no_shell rules 1 (who ∷ install ∷ [])).persistence_attempted)
    × ((assessed no_shell rules 1 (who ∷ install ∷ who ∷ [])).score
        ≤ (assessed no_shell rules 1 (who ∷ install ∷ [])).score + 1)
score_session-repeat_example = score_session-repeat no_shell rules 1 [] (install ∷ []) who who refl

abbrev accepts : Client
accepts url payload = status 204

process-posts_example :
    process no_shell rules
      (record {
        config = record { alert_webhook_url = some (text "https://soc"); alert_threshold = 60 };
        client = some accepts;
      })
      (record { session_id = 1; turns = who ∷ install ∷ [] })
    ≡ (
      assessed no_shell rules 1 (who ∷ install ∷ []),
      if (assessed no_shell rules 1 (who ∷ install ∷ [])).persistence_attempted
            || leb 60 (assessed no_shell rules 1 (who ∷ install ∷ [])).score
          then assessed no_shell rules 1 (who ∷ install ∷ []) ∷ []
          else [],
    )
process-posts_example =
    process-posts no_shell rules (text "https://soc") 60 accepts
      (record { session_id = 1; turns = who ∷ install ∷ [] })
