-- ===== src/Threat/Technique.antt =====
-- src/anglerfish/threat/techniques.py: a detection rule and when it matches a command line. A compiled
-- pattern is what its `search` answers; `shlex.split` is the parameter `shell_split`, which may refuse
-- a line.
use anglerfish_ai.Base.{
  ℕ, Bool, true, false, ◌||◌, List, [], ◌∷◌, ltb, ◌==◌, if◌then◌else◌, any, text_same,
}
use anglerfish_ai.Base.Text.{Text, is_space, strip}
use anglerfish_ai.Base.Result.{Result, ok, raise, value_error}

pub record TechniqueRule : Type 0 where
  pub id : Text
  pub name : Text
  pub description : Text
  pub commands : List Text
  pub command_patterns : List (Text → Bool)
  pub weight : ℕ
  pub persistence : Bool

-- `__post_init__`
unfoldable pub make_rule : TechniqueRule → Result TechniqueRule
make_rule r =
    if text_same r.id []
    then raise value_error
    else if ltb r.weight 1 || ltb 50 r.weight
    then raise value_error
    else ok r

-- `str.split()`: the word that is open at the start of the text, and the words after it.
unfoldable close_word : Text → List Text → List Text
close_word [] ws = ws
close_word (c ∷ w) ws = (c ∷ w) ∷ ws

unfoldable open_words : Text → Text × List Text
unfolding close_word
open_words [] = ([], [])
open_words (c ∷ s) =
    let (w, ws) = open_words s in if is_space c then ([], close_word w ws) else (c ∷ w, ws)

unfoldable pub split_blank : Text → List Text
unfolding open_words
split_blank s = let (w, ws) = open_words s in close_word w ws

-- `os.path.basename`: what follows the last slash.
unfoldable pub basename : Text → Text
basename [] = []
basename (c ∷ s) = if any (λ d. d == 47) (c ∷ s) then basename s else c ∷ s

module _ (shell_split : Text → Result (List Text)) where
  unfoldable pub tokens_of : Text → Result (List Text) → List Text
  unfolding split_blank
  tokens_of command_line (ok tokens) = tokens
  tokens_of command_line (raise x) = split_blank command_line

  unfoldable pub matches_tokens : TechniqueRule → Text → List Text → Bool
  unfolding basename
  matches_tokens r command_line [] = false
  matches_tokens r command_line (head ∷ rest) =
      if any (text_same (basename head)) r.commands
      then true
      else any (λ pat. pat command_line) r.command_patterns

  unfoldable pub matches : TechniqueRule → Text → Bool
  unfolding tokens_of matches_tokens
  matches r command_line =
      if text_same (strip command_line) []
      then false
      else matches_tokens r command_line (tokens_of command_line (shell_split command_line))
