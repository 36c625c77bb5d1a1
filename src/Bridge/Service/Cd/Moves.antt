-- ===== src/Bridge/Service/Cd/Moves.antt =====
-- Where `cd` can take a session.
use anglerfish_ai.Base.{
  ◌≡◌, refl, ap, sym, ◌∙◌, Bool, true, false, List, [], ◌∷◌, Option, none, some, inl, inr, ◌⊎◌,
  Bool-cases, all, text_same,
}
use anglerfish_ai.Base.Text.{Text, text, strip, starts_with}
use anglerfish_ai.Base.Result.{Result, ok, raise}
use anglerfish_ai.Bridge.Path.{normalise_path}
use anglerfish_ai.Bridge.Path.Normal.{is_name, root, normalise_path-IsRoot}
use anglerfish_ai.Bridge.Session.{SessionContext, update_cwd}
use anglerfish_ai.Bridge.Service.Cd.{target_of, moved, move_to, cd_tokens, handle_cd}

-- The root, or the root and proper names.
abbrev pub IsDirectory : Text → Type 0
IsDirectory t = (names : List Text) × (all is_name names ≡ true) × (t ≡ root names)

-- A session after `cd`: it is where it was, or in a directory with the old one remembered.
abbrev pub IsMoved : SessionContext → SessionContext → Type 0
IsMoved s t = (t ≡ s) ⊎ (IsDirectory t.cwd × (t ≡ record s { cwd = t.cwd; oldpwd = some s.cwd }))

starts-root : (names : List Text) → starts_with (text "/") (root names) ≡ true
starts-root names = refl

move_to-IsMoved :
    (s : SessionContext) (target : Option Text)
    → (t : SessionContext) × (move_to s target ≡ ok (t, true)) × IsMoved s t
unfolding move_to moved update_cwd
move_to-IsMoved s none = (s, refl, inl refl)
move_to-IsMoved s (some target) =
    let (names, proper, e) = normalise_path-IsRoot target in
    let absolute : starts_with (text "/") (normalise_path target) ≡ true =
      rw e (starts-root names) in
    (
      record s { cwd = normalise_path target; oldpwd = some s.cwd },
      rw absolute refl,
      inr ((names, proper, e), refl),
    )

move_to_fixed :
    (s : SessionContext) (target : Text)
    → normalise_path target ≡ target
    → move_to s (some target) ≡ ok (record s { cwd = target; oldpwd = some s.cwd }, true)
unfolding move_to moved update_cwd
move_to_fixed s target fixed =
    let (names, proper, e) = normalise_path-IsRoot target in
    let absolute : starts_with (text "/") target ≡ true =
      ap (starts_with (text "/")) (sym fixed ∙ e) ∙ starts-root names in
    rw fixed (rw absolute refl)

cd_tokens-IsMoved :
    (s : SessionContext) (tokens : Result (List Text))
    → (t : SessionContext) × (handled : Bool) × (cd_tokens s tokens ≡ ok (t, handled)) × IsMoved s t
unfolding cd_tokens
cd_tokens-IsMoved s (raise x) = (s, false, refl, inl refl)
cd_tokens-IsMoved s (ok []) = (s, false, refl, inl refl)
cd_tokens-IsMoved s (ok (head ∷ args)) = elim (Bool-cases (text_same head (text "cd"))) [
  | inl is_cd ↦ (let (t, e, m) = move_to-IsMoved s (target_of s args) in (t, true, rw is_cd e, m))
  | inr other ↦ (s, false, rw other refl, inl refl)
]

-- Whatever the line, handling it as a `cd` raises nothing: the session stays as it is, or moves to the
-- root or a path of proper names below it, remembers where it was, and changes in nothing else.
pub handle_cd-IsMoved :
    (shell_split : Text → Result (List Text)) (s : SessionContext) (command : Text)
    → (t : SessionContext) × (handled : Bool) × (handle_cd shell_split s command ≡ ok (t, handled))
      × IsMoved s t
unfolding handle_cd
handle_cd-IsMoved shell_split s command = elim (Bool-cases (text_same (strip command) [])) [
  | inl blank ↦ (s, false, rw blank refl, inl refl)
  | inr line ↦ rw line (cd_tokens-IsMoved s (shell_split (strip command)))
]

-- In a directory, with another one remembered, `cd -` goes there, and a second `cd -` comes back.
pub cd_dash-toggles :
    (s : SessionContext) (old : Text)
    → normalise_path old ≡ old
    → normalise_path s.cwd ≡ s.cwd
    → s.oldpwd ≡ some old
    → (cd_tokens s (ok (text "cd" ∷ text "-" ∷ []))
        ≡ ok (record s { cwd = old; oldpwd = some s.cwd }, true))
      × (cd_tokens (record s { cwd = old; oldpwd = some s.cwd }) (ok (text "cd" ∷ text "-" ∷ []))
          ≡ ok (record s { cwd = s.cwd; oldpwd = some old }, true))
unfolding cd_tokens target_of move_to moved update_cwd
cd_dash-toggles s old fixed here remembered = (
  rw remembered (move_to_fixed s old fixed),
  move_to_fixed (record s { cwd = old; oldpwd = some s.cwd }) s.cwd here,
)
