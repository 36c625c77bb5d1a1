-- ===== src/Bridge/Service/Cd/Returns.antt =====
-- `cd` into a directory and out of it again.
use mathlib.Core.List.{append_assoc}
use anglerfish_ai.Base.{
  ◌≡◌, refl, ap, ◌∙◌, Bool, true, false, not, ◌&&◌, List, [], ◌∷◌, ◌++◌, ◌==◌, some, all, all-cons,
  all-append, text_same, arith,
}
use anglerfish_ai.Base.Text.{Text, text, starts_with}
use anglerfish_ai.Base.Result.{ok}
use anglerfish_ai.Bridge.Path.{normalise_path}
use anglerfish_ai.Bridge.Path.Split.{slash, no_slash, join}
use anglerfish_ai.Bridge.Path.Normal.{is_plain, is_name, root, normalise_path-enter-leave}
use anglerfish_ai.Bridge.Session.{SessionContext, update_cwd}
use anglerfish_ai.Bridge.Service.Cd.{rstrip_slash, base_of, target_of, moved, move_to, cd_tokens}

-- A text that `rstrip("/")` leaves as it is, and that is not empty.
Stays : Text → Type 0
Stays s = (rstrip_slash s ≡ s) × (text_same s [] ≡ false)

rstrip_slash-plain : (s : Text) → all no_slash s ≡ true → rstrip_slash s ≡ s
unfolding rstrip_slash
rstrip_slash-plain [] h = refl
rstrip_slash-plain (c ∷ s) h =
    let (here, rest) = all-cons no_slash c s h in rw (rstrip_slash-plain s rest, other here) refl
  where
    other : no_slash c ≡ true → (c == 47) ≡ false
    other k = ground arith

rstrip_slash-append : (s t : Text) → Stays t → Stays (s ++ t)
unfolding rstrip_slash Stays
rstrip_slash-append [] t h = h
rstrip_slash-append (c ∷ s) t h =
    let (kept, some_left) = rstrip_slash-append s t h in (rw (kept, some_left) (ground arith), refl)

plain_slashes : (s : Text) → all is_plain s ≡ true → all no_slash s ≡ true
plain_slashes [] k = refl
plain_slashes (c ∷ s) k = ground (arith, plain_slashes s)

name-plain : (name : Text) → is_name name ≡ true → all no_slash name ≡ true
name-plain name h = ground (arith, plain_slashes name)

name-Stays : (name : Text) → is_name name ≡ true → Stays name
unfolding Stays
name-Stays name h = (rstrip_slash-plain name (name-plain name h), ground arith)

join-Stays : (p : Text) (ps : List Text) → all is_name (p ∷ ps) ≡ true → Stays (join (p ∷ ps))
unfolding join
join-Stays p [] h = name-Stays p (all-cons is_name p [] h).0
join-Stays p (q ∷ ps) h = rstrip_slash-append p (slash ∷ join (q ∷ ps)) (
    rstrip_slash-append (slash ∷ []) (join (q ∷ ps))
      (join-Stays q ps (all-cons is_name p (q ∷ ps) h).1))

base_of-root : (names : List Text) → all is_name names ≡ true → base_of (root names) ≡ root names
unfolding base_of Stays join rstrip_slash
base_of-root [] h = refl
base_of-root (p ∷ ps) h =
    let (kept, some_left) = rstrip_slash-append (slash ∷ []) (join (p ∷ ps)) (join-Stays p ps h) in
    rw kept refl

-- A name that `cd` reads as one: not `-`, and with no tilde in front.
abbrev pub is_target : Text → Bool
is_target name = not (text_same name (text "-")) && not (starts_with (text "~") name)

not-tilde : (name : Text) → is_target name ≡ true → text_same name (text "~") ≡ false
not-tilde [] h = refl
not-tilde (c ∷ s) h = ground arith

not-rooted : (name : Text) → all no_slash name ≡ true → starts_with (text "/") name ≡ false
not-rooted [] h = refl
not-rooted (c ∷ s) h = ground arith

module _ (s : SessionContext) (names : List Text) (proper : all is_name names ≡ true) where
  target_of-relative :
      (arg : Text)
      → s.cwd ≡ root names
      → all no_slash arg ≡ true
      → is_target arg ≡ true
      → target_of s (arg ∷ []) ≡ some (root names ++ text "/" ++ arg)
  unfolding target_of
  target_of-relative arg here plain target =
      simp
        (
          not-tilde arg target,
          dash target,
          tilde target,
          not-rooted arg plain,
          here,
          base_of-root names proper,
        )
        refl
    where
      dash : is_target arg ≡ true → text_same arg (text "-") ≡ false
      dash k = ground arith

      tilde : is_target arg ≡ true → starts_with (text "~") arg ≡ false
      tilde k = ground arith

  move_to-normal :
      (target : Text) (reached : List Text)
      → normalise_path target ≡ root reached
      → move_to s (some target) ≡ ok (record s { cwd = root reached; oldpwd = some s.cwd }, true)
  unfolding move_to moved update_cwd
  move_to-normal target reached normal = rw normal refl

  -- A relative target, from a directory that is a normal path.
  cd_tokens-relative :
      (arg : Text) (reached : List Text)
      → s.cwd ≡ root names
      → all no_slash arg ≡ true
      → is_target arg ≡ true
      → normalise_path (root names ++ slash ∷ arg) ≡ root reached
      → cd_tokens s (ok (text "cd" ∷ arg ∷ []))
        ≡ ok (record s { cwd = root reached; oldpwd = some (root names) }, true)
  unfolding cd_tokens
  cd_tokens-relative arg reached here plain target normal =
      ap (move_to s) (target_of-relative arg here plain target)
      ∙ move_to-normal (root names ++ text "/" ++ arg) reached
          (ap normalise_path (append_assoc (root names) (text "/") arg) ∙ normal)
      ∙ ap (λ (old : Text). ok (record s { cwd = root reached; oldpwd = some old }, true)) here

-- From a directory that is a normal path, `cd` to a name goes to the directory of that name below,
-- and `cd ..` from there comes back; each remembers where it was and changes nothing else. At the
-- root, `cd ..` stays at the root. A name is no `-` and has no tilde in front: `cd` reads those
-- otherwise.
pub cd_name-returns :
    (s : SessionContext) (names : List Text) (name : Text)
    → all is_name names ≡ true
    → is_name name ≡ true
    → is_target name ≡ true
    → s.cwd ≡ root names
    → let below = root (names ++ name ∷ []) in
      (cd_tokens s (ok (text "cd" ∷ name ∷ []))
        ≡ ok (record s { cwd = below; oldpwd = some (root names) }, true))
      × (cd_tokens
            (record s { cwd = below; oldpwd = some (root names) })
            (ok (text "cd" ∷ text ".." ∷ []))
          ≡ ok (record s { cwd = root names; oldpwd = some below }, true))
      × (cd_tokens (record s { cwd = root [] }) (ok (text "cd" ∷ text ".." ∷ []))
          ≡ ok (record s { cwd = root []; oldpwd = some (root []) }, true))
cd_name-returns s names name proper named target here =
    let (enters, leaves, stays) = normalise_path-enter-leave names name proper (rw named refl) in
    (
      cd_tokens-relative s names proper name (names ++ name ∷ []) here (name-plain name named)
          target enters,
      cd_tokens-relative (record s { cwd = root (names ++ name ∷ []); oldpwd = some (root names) })
          (names ++ name ∷ []) (all-append is_name names (name ∷ []) proper (rw named refl))
          (text "..") names refl refl refl leaves,
      cd_tokens-relative (record s { cwd = root [] }) [] refl (text "..") [] refl refl refl stays,
    )
