-- ===== src/Threat/Scorer/Repeats.antt =====
-- A command that a session repeats matches no technique anew.
use anglerfish_ai.Base.{
  ℕ, ◌+◌, ◌≤◌, ◌≡◌, refl, sym, ap, ◌∙◌, Bool, true, List, [], ◌∷◌, ◌++◌, map, inl, inr, Bool-cases,
  any, All, length, length-append, text_same, same_refl, text_key, arith,
}
use anglerfish_ai.Base.Dict
use anglerfish_ai.Base.Dict.{Dict}
use anglerfish_ai.Base.Text.{Text}
use anglerfish_ai.Base.Result.{Result}
use anglerfish_ai.Threat.Technique.{TechniqueRule, matches}
use anglerfish_ai.Threat.Scorer.{
  Turn, ThreatTechnique, ThreatAssessment, sorted_ids, Matched, found_in, rule_by_id, weight_in,
  persistence_in, match_rule, match_rules, match_turns, weight_sum, persistence_of, score_of,
  technique_of, assess_matched, score_session,
}
use anglerfish_ai.Threat.Scorer.Growth.{assessed, match_turns-append}

abbrev ids_of : Matched → List Text
ids_of m = map (λ e. e.0) m

abbrev has : Text → Matched → Bool
has k m = any (λ e. text_same e.0 k) m

has-put :
    (j k : Text) (v : List Text) (m : Matched) → has j m ≡ true → has j (Dict.put k v m) ≡ true
has-put j k v [] h = ground arith
has-put j k v ((i, w) ∷ m) h = ground (arith, has-put j k v m)

has-put-same : (k : Text) (v : List Text) (m : Matched) → has k (Dict.put k v m) ≡ true
has-put-same k v [] = ground (arith, same_refl k)
has-put-same k v ((i, w) ∷ m) = ground (arith, has-put-same k v m)

ids_of-put :
    (k : Text) (v : List Text) (m : Matched) → has k m ≡ true → ids_of (Dict.put k v m) ≡ ids_of m
ids_of-put k v [] h = ground arith
ids_of-put k v ((i, w) ∷ m) h = elim (Bool-cases (text_same i k)) [
  | inl here ↦ rw here refl
  | inr other ↦ rw other (ap (λ xs. i ∷ xs) (ids_of-put k v m (ground arith)))
]

module _ (shell_split : Text → Result (List Text)) where
  -- Every rule that matches the command has been matched.
  abbrev Covered : List TechniqueRule → Text → Matched → Type 0
  Covered rules command m =
      All (λ (r : TechniqueRule). matches shell_split r command ≡ true → has r.id m ≡ true) rules

  has-match_rule :
      (j : Text) (r : TechniqueRule) (command : Text) (m : Matched)
      → has j m ≡ true
      → has j (match_rule shell_split r command m) ≡ true
  unfolding match_rule
  has-match_rule j r command m h = elim (Bool-cases (matches shell_split r command)) [
    | inl hit ↦ rw hit (has-put j r.id (found_in (Dict.get r.id m) ++ command ∷ []) m h)
    | inr miss ↦ rw miss h
  ]

  has-match_rules :
      (j : Text) (rules : List TechniqueRule) (command : Text) (m : Matched)
      → has j m ≡ true
      → has j (match_rules shell_split rules command m) ≡ true
  unfolding match_rules
  has-match_rules j [] command m h = h
  has-match_rules j (r ∷ rules) command m h =
      has-match_rules j rules command (match_rule shell_split r command m)
        (has-match_rule j r command m h)

  has-match_turns :
      (j : Text) (rules : List TechniqueRule) (turns : List Turn) (m : Matched)
      → has j m ≡ true
      → has j (match_turns shell_split rules turns m) ≡ true
  unfolding match_turns
  has-match_turns j rules [] m h = h
  has-match_turns j rules (turn ∷ turns) m h =
      has-match_turns j rules turns (match_rules shell_split rules turn.command m)
        (has-match_rules j rules turn.command m h)

  has-match_rule-same :
      (r : TechniqueRule) (command : Text) (m : Matched)
      → matches shell_split r command ≡ true
      → has r.id (match_rule shell_split r command m) ≡ true
  unfolding match_rule
  has-match_rule-same r command m hit =
      rw hit (has-put-same r.id (found_in (Dict.get r.id m) ++ command ∷ []) m)

  match_rules-Covered :
      (rules : List TechniqueRule) (command : Text) (m : Matched)
      → Covered rules command (match_rules shell_split rules command m)
  unfolding match_rules
  match_rules-Covered [] command m = tt
  match_rules-Covered (r ∷ rules) command m =
      let m' = match_rule shell_split r command m in
      (
        λ hit. has-match_rules r.id rules command m' (has-match_rule-same r command m hit),
        match_rules-Covered rules command m',
      )

  Covered-more :
      (rules : List TechniqueRule) (command : Text) (m m' : Matched)
      → ((j : Text) → has j m ≡ true → has j m' ≡ true)
      → Covered rules command m
      → Covered rules command m'
  Covered-more [] command m m' keep h = tt
  Covered-more (r ∷ rules) command m m' keep (first, rest) =
      (λ hit. keep r.id (first hit), Covered-more rules command m m' keep rest)

  ids_of-match_rule :
      (r : TechniqueRule) (command : Text) (m : Matched)
      → (matches shell_split r command ≡ true → has r.id m ≡ true)
      → ids_of (match_rule shell_split r command m) ≡ ids_of m
  unfolding match_rule
  ids_of-match_rule r command m covered = elim (Bool-cases (matches shell_split r command)) [
    | inl hit ↦
        rw hit (ids_of-put r.id (found_in (Dict.get r.id m) ++ command ∷ []) m (covered hit))
    | inr miss ↦ rw miss refl
  ]

  ids_of-match_rules :
      (rules : List TechniqueRule) (command : Text) (m : Matched)
      → Covered rules command m
      → ids_of (match_rules shell_split rules command m) ≡ ids_of m
  unfolding match_rules
  ids_of-match_rules [] command m h = refl
  ids_of-match_rules (r ∷ rules) command m (first, rest) =
      let m' = match_rule shell_split r command m in
      ids_of-match_rules rules command m'
        (Covered-more rules command m m' (λ j. has-match_rule j r command m) rest)
      ∙ ids_of-match_rule r command m first

  -- After a turn, and whatever turns follow it, its command matches nothing new.
  ids_of-again :
      (rules : List TechniqueRule) (before after : List Turn) (turn again : Turn)
      → again.command ≡ turn.command
      → ids_of (match_turns shell_split rules ((before ++ turn ∷ after) ++ again ∷ []) [])
        ≡ ids_of (match_turns shell_split rules (before ++ turn ∷ after) [])
  unfolding match_turns
  ids_of-again rules before after turn again e =
      let m = match_turns shell_split rules before [] in
      let m' = match_rules shell_split rules turn.command m in
      rw
        (
          match_turns-append shell_split rules (before ++ turn ∷ after) (again ∷ []) [],
          match_turns-append shell_split rules before (turn ∷ after) [],
          e,
        )
        (ids_of-match_rules rules turn.command (match_turns shell_split rules after m') (
          Covered-more rules turn.command m' (match_turns shell_split rules after m')
            (λ j. has-match_turns j rules after m') (match_rules-Covered rules turn.command m)))

persistence_of-ids :
    (by_id : Dict Text TechniqueRule) (m : Matched)
    → persistence_of by_id m ≡ any (λ k. persistence_in (Dict.get k by_id)) (ids_of m)
unfolding persistence_of
persistence_of-ids by_id [] = refl
persistence_of-ids by_id (e ∷ m) = ground (arith, persistence_of-ids by_id m)

abbrev weights : Dict Text TechniqueRule → List Text → ℕ
weights by_id [] = 0
weights by_id (k ∷ ks) = weight_in (Dict.get k by_id) + weights by_id ks

weight_sum-ids :
    (by_id : Dict Text TechniqueRule) (m : Matched) → weight_sum by_id m ≡ weights by_id (ids_of m)
unfolding weight_sum
weight_sum-ids by_id [] = refl
weight_sum-ids by_id (e ∷ m) = omega (arith, weight_sum-ids by_id m)

ids-technique_of :
    (by_id : Dict Text TechniqueRule) (m : Matched) (ids : List Text)
    → map (λ (t : ThreatTechnique). t.id) (map (technique_of by_id m) ids) ≡ ids
unfolding technique_of
ids-technique_of by_id m [] = refl
ids-technique_of by_id m (k ∷ ks) = ap (λ xs. k ∷ xs) (ids-technique_of by_id m ks)

score_of-next : (w n n' : ℕ) (p : Bool) → n' ≡ n + 1 → score_of w n' p ≤ score_of w n p + 1
unfolding score_of
score_of-next w n n' p e = ground arith

abbrev pub technique_ids : ThreatAssessment → List Text
technique_ids a = map (λ (t : ThreatTechnique). t.id) a.techniques

module _ (shell_split : Text → Result (List Text)) (rules : List TechniqueRule) where
  -- A turn whose command the session has run before adds no technique and takes none away, leaves
  -- whether persistence was attempted, and raises the score only by what one more turn does.
  pub score_session-repeat :
      (session_id : ℕ) (before after : List Turn) (turn again : Turn)
      → again.command ≡ turn.command
      → (technique_ids
            (assessed shell_split rules session_id ((before ++ turn ∷ after) ++ again ∷ []))
          ≡ technique_ids (assessed shell_split rules session_id (before ++ turn ∷ after)))
        × ((assessed shell_split rules session_id
              ((before ++ turn ∷ after) ++ again ∷ [])).persistence_attempted
            ≡ (assessed shell_split rules session_id
                (before ++ turn ∷ after)).persistence_attempted)
        × ((assessed shell_split rules session_id ((before ++ turn ∷ after) ++ again ∷ [])).score
            ≤ (assessed shell_split rules session_id (before ++ turn ∷ after)).score + 1)
  unfolding score_session assess_matched
  score_session-repeat session_id before after turn again e =
      let turns = before ++ turn ∷ after in
      let by_id = rule_by_id rules [] in
      let m = match_turns shell_split rules turns [] in
      let m' = match_turns shell_split rules (turns ++ again ∷ []) [] in
      let same = ids_of-again shell_split rules before after turn again e in
      let persists =
        persistence_of-ids by_id m'
        ∙ ap (λ ids. any (λ k. persistence_in (Dict.get k by_id)) ids) same
        ∙ sym (persistence_of-ids by_id m) in
      let weight =
        weight_sum-ids by_id m' ∙ ap (weights by_id) same ∙ sym (weight_sum-ids by_id m) in
      (
        ids-technique_of by_id m' _ ∙ ap sorted_ids same ∙ sym (ids-technique_of by_id m _),
        persists,
        rw (weight, persists)
            (score_of-next (weight_sum by_id m) (length turns) (length (turns ++ again ∷ []))
              (persistence_of by_id m) (length-append turns (again ∷ []))),
      )
