-- ===== src/Bridge/Path/Tests.antt =====
-- Runs of bridge/path.py and its theorems at concrete paths.
use anglerfish_ai.Base.{◌≡◌, refl, true, List, ◌∷◌, ◌++◌, all}
use anglerfish_ai.Base.Text.{Text, text}
use anglerfish_ai.Bridge.Path.{normalise_path}
use anglerfish_ai.Bridge.Path.Split.{split, join}
use anglerfish_ai.Bridge.Path.Normal.{is_name, root, normalise_path-IsRoot}

-- "/var//log/./../www\x0a/" loses its line feed, its empty pieces and its dots.
abbrev messy : Text
messy = text "var//log/./../www" ++ 10 ∷ text "/"

normalise_path_runs : normalise_path messy ≡ text "/var/www"
unfolding normalise_path split join
normalise_path_runs = refl

normalise_path-IsRoot_example :
    (names : List Text) × (all is_name names ≡ true) × (normalise_path messy ≡ root names)
normalise_path-IsRoot_example = normalise_path-IsRoot messy
