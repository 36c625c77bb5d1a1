-- ===== src/Bridge/Path.antt =====
-- src/anglerfish/bridge/path.py: the working directory that every `cd` goes through.
pub mod Split
pub mod Normal
mod Tests
use mathlib.Core.List.{reverse, tail}
use anglerfish_ai.Base.{
  ℕ, Bool, not, ◌||◌, ◌&&◌, List, [], ◌∷◌, ◌++◌, ltb, ◌==◌, if◌then◌else◌, select, text_same, all,
}
use anglerfish_ai.Base.Text.{Text, text, starts_with}
use anglerfish_ai.Bridge.Path.Split.{slash, split, join}

-- `_CONTROL_CHARS`, which `str.translate` deletes.
abbrev pub is_control : ℕ → Bool
is_control c = ltb c 0x20 || c == 0x7F

abbrev pub is_shown : ℕ → Bool
is_shown c = not (is_control c)

-- One round of the loop. `parts` is held last item first.
unfoldable pub walk_step : List Text → Text → List Text
walk_step parts piece =
    if text_same piece [] || text_same piece (text ".")
    then parts
    else if text_same piece (text "..")
    then tail parts
    else piece ∷ parts

unfoldable pub walk : List Text → List Text → List Text
walk parts [] = parts
walk parts (piece ∷ rest) = walk (walk_step parts piece) rest

unfoldable pub anchor : Text → Text
anchor path = if starts_with (text "/") path then path else slash ∷ path

unfoldable pub normalise_path : Text → Text
unfolding walk_step walk anchor
normalise_path path = slash ∷ join (reverse (walk [] (split (anchor (select is_shown path)))))
