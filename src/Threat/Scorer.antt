-- ===== src/Threat/Scorer.antt =====
-- src/anglerfish/threat/scorer.py: the score of a session.
pub mod Growth
pub mod Repeats
use anglerfish_ai.Base.{
  ℕ, ◌+◌, ◌/◌, min, Bool, true, false, ◌||◌, List, [], ◌∷◌, ◌++◌, map, Option, none, some, ltb, leb,
  ◌==◌, if◌then◌else◌, any, length, take, text_same, text_key,
}
use anglerfish_ai.Base.Dict
use anglerfish_ai.Base.Dict.{Dict}
use anglerfish_ai.Base.Text.{Text}
use anglerfish_ai.Base.Result.{Result}
use anglerfish_ai.Threat.Technique.{TechniqueRule, matches}

-- What scoring is given of a turn and of a session's snapshot.
pub record Turn : Type 0 where
  pub command : Text
  pub response : Text

pub record SessionSnapshot : Type 0 where
  pub session_id : ℕ
  pub turns : List Turn

pub record ThreatTechnique : Type 0 where
  pub id : Text
  pub name : Text
  pub matches : List Text

pub data Note : Type 0 where
  persistence_observed : Note
  meets_threshold : ℕ → Note
  nothing_matched : Note

pub record ThreatAssessment : Type 0 where
  pub session_id : ℕ
  pub score : ℕ
  pub techniques : List ThreatTechnique
  pub persistence_attempted : Bool
  pub high_severity : Bool
  pub notes : List Note

-- `sorted` over texts, which compares code points.
abbrev pub text_leb : Text → Text → Bool
text_leb [] t = true
text_leb (x ∷ xs) [] = false
text_leb (x ∷ xs) (y ∷ ys) = if x == y then text_leb xs ys else ltb x y

abbrev pub insert_id : Text → List Text → List Text
insert_id x [] = x ∷ []
insert_id x (y ∷ ys) = if text_leb x y then x ∷ y ∷ ys else y ∷ insert_id x ys

abbrev pub sorted_ids : List Text → List Text
sorted_ids [] = []
sorted_ids (x ∷ xs) = insert_id x (sorted_ids xs)

-- `dict.fromkeys`: the first occurrence of each, in order.
unfoldable pub from_keys : List Text → List Text → List Text
from_keys seen [] = []
from_keys seen (x ∷ xs) =
    let known = any (text_same x) seen in
    let rest = from_keys (if known then seen else x ∷ seen) xs in if known then rest else x ∷ rest

abbrev pub Matched : Type 0
Matched = Dict Text (List Text)

abbrev pub found_in : Option (List Text) → List Text
found_in none = []
found_in (some commands) = commands

unfoldable pub rule_by_id : List TechniqueRule → Dict Text TechniqueRule → Dict Text TechniqueRule
rule_by_id [] d = d
rule_by_id (r ∷ rules) d = rule_by_id rules (Dict.put r.id r d)

-- `rule_by_id[rid].weight` and its like; every matched id is the id of a rule.
abbrev pub weight_in : Option TechniqueRule → ℕ
weight_in none = 0
weight_in (some r) = r.weight

abbrev pub persistence_in : Option TechniqueRule → Bool
persistence_in none = false
persistence_in (some r) = r.persistence

abbrev pub name_in : Option TechniqueRule → Text
name_in none = []
name_in (some r) = r.name

module _ (shell_split : Text → Result (List Text)) where
  unfoldable pub match_rule : TechniqueRule → Text → Matched → Matched
  match_rule r command matched =
      if matches shell_split r command
      then Dict.put r.id (found_in (Dict.get r.id matched) ++ command ∷ []) matched
      else matched

  unfoldable pub match_rules : List TechniqueRule → Text → Matched → Matched
  match_rules [] command matched = matched
  match_rules (r ∷ rules) command matched = match_rules rules command (match_rule r command matched)

  unfoldable pub match_turns : List TechniqueRule → List Turn → Matched → Matched
  match_turns rules [] matched = matched
  match_turns rules (turn ∷ turns) matched =
      match_turns rules turns (match_rules rules turn.command matched)

unfoldable pub weight_sum : Dict Text TechniqueRule → Matched → ℕ
weight_sum by_id [] = 0
weight_sum by_id ((rid, _) ∷ matched) = weight_in (Dict.get rid by_id) + weight_sum by_id matched

unfoldable pub persistence_of : Dict Text TechniqueRule → Matched → Bool
persistence_of by_id matched = any (λ e. persistence_in (Dict.get e.0 by_id)) matched

unfoldable pub score_of : ℕ → ℕ → Bool → ℕ
score_of weight turns persistence =
    let score = min 100 (weight + min 15 (turns / 5)) in
    if persistence then min 100 (score + 20) else score

unfoldable pub technique_of : Dict Text TechniqueRule → Matched → Text → ThreatTechnique
unfolding from_keys
technique_of by_id matched rid = record {
  id = rid;
  name = name_in (Dict.get rid by_id);
  matches = take 10 (from_keys [] (found_in (Dict.get rid matched)));
}

unfoldable pub notes_of : Bool → ℕ → List ThreatTechnique → List Note
notes_of persistence score techniques =
    (if persistence then persistence_observed ∷ [] else [])
    ++ (if leb 70 score then meets_threshold score ∷ [] else [])
    ++ (if length techniques == 0 then nothing_matched ∷ [] else [])

-- The end of `score_session`, from what the turns matched.
unfoldable pub assess_matched : List TechniqueRule → SessionSnapshot → Matched → ThreatAssessment
unfolding rule_by_id weight_sum persistence_of score_of technique_of notes_of
assess_matched rules snapshot matched =
    let by_id = rule_by_id rules [] in
    let persistence = persistence_of by_id matched in
    let score = score_of (weight_sum by_id matched) (length snapshot.turns) persistence in
    let techniques = map (technique_of by_id matched) (sorted_ids (map (λ e. e.0) matched)) in
    record {
      session_id = snapshot.session_id;
      score = score;
      techniques = techniques;
      persistence_attempted = persistence;
      high_severity = leb 70 score || persistence;
      notes = notes_of persistence score techniques;
    }

unfoldable pub score_session :
    (Text → Result (List Text)) → List TechniqueRule → SessionSnapshot → ThreatAssessment
unfolding match_rule match_rules match_turns assess_matched
score_session shell_split rules snapshot =
    assess_matched rules snapshot (match_turns shell_split rules snapshot.turns [])
