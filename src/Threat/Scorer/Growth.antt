-- ===== src/Threat/Scorer/Growth.antt =====
-- How the score of a session moves with its turns.
use anglerfish_ai.Base.{
  ℕ, ◌≤◌, ◌≡◌, refl, Bool, true, ◌||◌, List, [], ◌∷◌, ◌++◌, inl, inr, Bool-cases, length,
  length-append, text_key, arith,
}
use anglerfish_ai.Base.Dict
use anglerfish_ai.Base.Dict.{Dict}
use anglerfish_ai.Base.Text.{Text}
use anglerfish_ai.Base.Result.{Result}
use anglerfish_ai.Threat.Technique.{TechniqueRule, matches}
use anglerfish_ai.Threat.Scorer.{
  Turn, ThreatAssessment, Matched, found_in, rule_by_id, match_rule, match_rules, match_turns,
  weight_sum, persistence_of, score_of, assess_matched, score_session,
}

module _ (by_id : Dict Text TechniqueRule) where
  weight_sum-put-le :
      (k : Text) (v : List Text) (m : Matched)
      → weight_sum by_id m ≤ weight_sum by_id (Dict.put k v m)
  unfolding weight_sum
  weight_sum-put-le k v [] = omega arith
  weight_sum-put-le k v ((i, w) ∷ m) = ground (arith, weight_sum-put-le k v m)

  persistence_of-put :
      (k : Text) (v : List Text) (m : Matched)
      → persistence_of by_id m ≡ true
      → persistence_of by_id (Dict.put k v m) ≡ true
  unfolding persistence_of
  persistence_of-put k v [] h = ground arith
  persistence_of-put k v ((i, w) ∷ m) h = ground (arith, persistence_of-put k v m)

  -- `m'` matched what `m` did, and maybe more.
  record Extends (m m' : Matched) : Type 0 where
    weight_le : weight_sum by_id m ≤ weight_sum by_id m'
    persists : persistence_of by_id m ≡ true → persistence_of by_id m' ≡ true

  Extends-trans : {m n o : Matched} → Extends m n → Extends n o → Extends m o
  Extends-trans {m} {n} {o} a b = record {
    weight_le = omega (arith, a.weight_le, b.weight_le);
    persists = λ h. b.persists (a.persists h);
  }

module _ (shell_split : Text → Result (List Text)) where
  match_rule-Extends :
      (by_id : Dict Text TechniqueRule) (r : TechniqueRule) (command : Text) (m : Matched)
      → Extends by_id m (match_rule shell_split r command m)
  unfolding match_rule
  match_rule-Extends by_id r command m =
      let new = found_in (Dict.get r.id m) ++ command ∷ [] in
      elim (Bool-cases (matches shell_split r command)) [
        | inl hit ↦ rw hit (record {
          weight_le = weight_sum-put-le by_id r.id new m;
          persists = persistence_of-put by_id r.id new m;
        })
        | inr miss ↦ rw miss (record { weight_le = omega arith; persists = λ h. h })
      ]

  match_rules-Extends :
      (by_id : Dict Text TechniqueRule) (rules : List TechniqueRule) (command : Text) (m : Matched)
      → Extends by_id m (match_rules shell_split rules command m)
  unfolding match_rules
  match_rules-Extends by_id [] command m = record { weight_le = omega arith; persists = λ h. h }
  match_rules-Extends by_id (r ∷ rules) command m =
      Extends-trans by_id (match_rule-Extends by_id r command m)
        (match_rules-Extends by_id rules command (match_rule shell_split r command m))

  match_turns-Extends :
      (by_id : Dict Text TechniqueRule) (rules : List TechniqueRule) (turns : List Turn)
      (m : Matched)
      → Extends by_id m (match_turns shell_split rules turns m)
  unfolding match_turns
  match_turns-Extends by_id rules [] m = record { weight_le = omega arith; persists = λ h. h }
  match_turns-Extends by_id rules (turn ∷ turns) m =
      Extends-trans by_id (match_rules-Extends by_id rules turn.command m)
        (match_turns-Extends by_id rules turns (match_rules shell_split rules turn.command m))

  pub match_turns-append :
      (rules : List TechniqueRule) (turns more : List Turn) (m : Matched)
      → match_turns shell_split rules (turns ++ more) m
        ≡ match_turns shell_split rules more (match_turns shell_split rules turns m)
  unfolding match_turns
  match_turns-append rules [] more m = refl
  match_turns-append rules (turn ∷ turns) more m =
      match_turns-append rules turns more (match_rules shell_split rules turn.command m)

score_of-grows :
    (w w' n n' : ℕ) (p p' : Bool)
    → w ≤ w'
    → n ≤ n'
    → (p ≡ true → p' ≡ true)
    → score_of w n p ≤ score_of w' n' p'
unfolding score_of
score_of-grows w w' n n' p p' a b c = ground arith

module _ (shell_split : Text → Result (List Text)) (rules : List TechniqueRule) where
  abbrev pub assessed : ℕ → List Turn → ThreatAssessment
  assessed session_id turns =
      score_session shell_split rules (record { session_id = session_id; turns = turns })

  -- More turns never lower the score of a session, and never take back that persistence was
  -- attempted.
  pub score_session-grows :
      (session_id : ℕ) (turns more : List Turn)
      → ((assessed session_id turns).score ≤ (assessed session_id (turns ++ more)).score)
        × (((assessed session_id turns).persistence_attempted
              || (assessed session_id (turns ++ more)).persistence_attempted)
            ≡ (assessed session_id (turns ++ more)).persistence_attempted)
  unfolding score_session assess_matched
  score_session-grows session_id turns more =
      let by_id = rule_by_id rules [] in
      let before = match_turns shell_split rules turns [] in
      let after = match_turns shell_split rules more before in
      let grown = match_turns-Extends shell_split by_id rules more before in
      rw (match_turns-append shell_split rules turns more []) (
        score_of-grows (weight_sum by_id before) (weight_sum by_id after) (length turns)
            (length (turns ++ more)) (persistence_of by_id before) (persistence_of by_id after)
            grown.weight_le (omega (arith, length-append turns more)) grown.persists,
        ground (arith, grown.persists),
      )
