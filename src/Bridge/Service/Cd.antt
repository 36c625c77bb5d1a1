-- ===== src/Bridge/Service/Cd.antt =====
-- `_handle_cd` of src/anglerfish/bridge/service.py, which moves the fake shell without the model.
pub mod Moves
pub mod Returns
use anglerfish_ai.Base.{
  ℕ, Bool, true, false, not, ◌&&◌, List, [], ◌∷◌, ◌++◌, Option, none, some, ◌==◌, if◌then◌else◌,
  text_same,
}
use anglerfish_ai.Base.Text.{Text, text, strip, starts_with}
use anglerfish_ai.Base.Result.{Result, ok, raise}
use anglerfish_ai.Bridge.Path.{normalise_path}
use anglerfish_ai.Bridge.Session.{SessionContext, update_cwd}

-- `_home_dir`
unfoldable pub home_dir : SessionContext → Text
home_dir session =
    if not (text_same session.fake_username (text "root"))
    then text "/home/" ++ session.fake_username
    else text "/root"

-- `str.partition("/")`: what is before the first slash, and what is after it.
unfoldable pub partition_slash : Text → Text × Text
partition_slash [] = ([], [])
partition_slash (c ∷ s) =
    let (name, tail) = partition_slash s in if c == 47 then ([], s) else (c ∷ name, tail)

-- `_expand_tilde`, from what follows the tilde.
unfoldable pub expand_tilde : SessionContext → Text → Text
unfolding home_dir partition_slash
expand_tilde session body =
    let (name, tail) = partition_slash body in
    let home = if text_same name (text "root") then text "/root" else text "/home/" ++ name in
    if text_same body []
    then home_dir session ++ body
    else if starts_with (text "/") body
    then home_dir session ++ body
    else if text_same tail []
    then home
    else home ++ text "/" ++ tail

unfoldable pub drop_first : Text → Text
drop_first [] = []
drop_first (c ∷ s) = s

-- `rstrip("/")`
unfoldable pub rstrip_slash : Text → Text
rstrip_slash [] = []
rstrip_slash (c ∷ s) =
    let rest = rstrip_slash s in if c == 47 && text_same rest [] then [] else c ∷ rest

unfoldable pub base_of : Text → Text
unfolding rstrip_slash
base_of cwd = if text_same (rstrip_slash cwd) [] then text "/" else rstrip_slash cwd

-- Where `cd` goes; nowhere for `cd -` before the first move.
unfoldable pub target_of : SessionContext → List Text → Option Text
unfolding home_dir expand_tilde drop_first base_of
target_of session [] = some (home_dir session)
target_of session (arg ∷ rest) =
    if text_same arg (text "~")
    then some (home_dir session)
    else if text_same arg (text "-")
    then session.oldpwd
    else if starts_with (text "~") arg
    then some (expand_tilde session (drop_first arg))
    else if starts_with (text "/") arg
    then some arg
    else some (base_of session.cwd ++ text "/" ++ arg)

unfoldable pub moved : Result SessionContext → Result (SessionContext × Bool)
moved (raise x) = raise x
moved (ok session) = ok (session, true)

unfoldable pub move_to : SessionContext → Option Text → Result (SessionContext × Bool)
unfolding moved
move_to session none = ok (session, true)
move_to session (some target) = moved (update_cwd session (normalise_path target))

unfoldable pub cd_tokens : SessionContext → Result (List Text) → Result (SessionContext × Bool)
unfolding target_of move_to
cd_tokens session (raise x) = ok (session, false)
cd_tokens session (ok []) = ok (session, false)
cd_tokens session (ok (head ∷ args)) =
    if text_same head (text "cd")
    then move_to session (target_of session args)
    else ok (session, false)

unfoldable pub handle_cd :
    (Text → Result (List Text)) → SessionContext → Text → Result (SessionContext × Bool)
unfolding cd_tokens
handle_cd shell_split session command =
    let stripped = strip command in
    if text_same stripped [] then ok (session, false) else cd_tokens session (shell_split stripped)
