-- ===== src/Bridge/Path/Normal.antt =====
-- The normal paths: what `normalise_path` of bridge/path.py returns, and what it leaves alone.
use mathlib.Core.List.{
  reverse, reverse_aux, reverse-reverse, reverse-append, reverse-cons, append-nil,
}
use anglerfish_ai.Base.{
  ℕ, ◌≡◌, refl, ap, sym, ◌∙◌, Bool, true, false, not, ◌||◌, ◌&&◌, leb, ◌==◌, List, [], ◌∷◌, ◌++◌,
  select, text_same, all, all-cons, all-both, all-select, select_of_all, all-append, arith,
  Bool-cases, inl, inr,
}
use anglerfish_ai.Base.Text.{Text, text}
use anglerfish_ai.Bridge.Path.Split.{
  slash, split, join, no_slash, split-join, split-join-slash, split_plain, all-join, all-split,
}
use anglerfish_ai.Bridge.Path.{is_shown, walk_step, walk, anchor, normalise_path}

-- From the space on, and not DEL.
abbrev pub is_visible : ℕ → Bool
is_visible c = leb 32 c && not (c == 127)

abbrev pub is_plain : ℕ → Bool
is_plain c = no_slash c && is_visible c

all-visible : (s : Text) → all is_shown s ≡ true → all is_visible s ≡ true
all-visible [] h = refl
all-visible (c ∷ s) h = ground (arith, all-visible s)

all-shown : (s : Text) → all is_visible s ≡ true → all is_shown s ≡ true
all-shown [] h = refl
all-shown (c ∷ s) h = ground (arith, all-shown s)

-- A directory's name: not empty, neither `.` nor `..`, with no slash, no character below the space and
-- no DEL.
abbrev pub is_name : Text → Bool
is_name p =
    all is_plain p
    && not (text_same p [] || text_same p (text "."))
    && not (text_same p (text ".."))

abbrev pub root : List Text → Text
root names = slash ∷ join names

-- The loop keeps proper names only.
walk_step-names :
    (parts : List Text) (piece : Text)
    → all is_name parts ≡ true
    → all is_plain piece ≡ true
    → all is_name (walk_step parts piece) ≡ true
unfolding walk_step
walk_step-names [] piece h k =
    elim (Bool-cases (text_same piece [] || text_same piece (text "."))) [
      | inl e ↦ rw e
      | inr e ↦ elim (Bool-cases (text_same piece (text ".."))) [
        | inl d ↦ rw (e, d)
        | inr d ↦ rw (e, d) (rw (k, e, d))
      ]
    ]
walk_step-names (p ∷ parts) piece h k =
    elim (Bool-cases (text_same piece [] || text_same piece (text "."))) [
      | inl e ↦ rw e h
      | inr e ↦ elim (Bool-cases (text_same piece (text ".."))) [
        | inl d ↦ rw (e, d) (all-cons is_name p parts h).1
        | inr d ↦ rw (e, d) (rw (k, e, d) h)
      ]
    ]

walk-names :
    (parts pieces : List Text)
    → all is_name parts ≡ true
    → all (all is_plain) pieces ≡ true
    → all is_name (walk parts pieces) ≡ true
unfolding walk
walk-names parts [] h k = h
walk-names parts (p ∷ pieces) h k =
    let (plain, rest) = all-cons (all is_plain) p pieces k in
    walk-names (walk_step parts p) pieces (walk_step-names parts p h plain) rest

all-reverse_aux :
    (names acc : List Text)
    → all is_name names ≡ true
    → all is_name acc ≡ true
    → all is_name (reverse_aux names acc) ≡ true
all-reverse_aux [] acc h k = k
all-reverse_aux (p ∷ names) acc h k =
    let (name, rest) = all-cons is_name p names h in
    all-reverse_aux names (p ∷ acc) rest (rw (name, k))

and_not : (a b c : Bool) → (a && not b && not c) ≡ true → (a ≡ true) × (b ≡ false) × (c ≡ false)
and_not a b c h = ground arith

-- A name is pushed, `..` pops, and the empty piece of a leading slash is passed over.
walk_step_of_name :
    (parts : List Text) (p : Text) → is_name p ≡ true → walk_step parts p ≡ p ∷ parts
unfolding walk_step
walk_step_of_name parts p h = let (plain, skip, up) = and_not _ _ _ h in rw (skip, up)

walk_of_names :
    (parts names rest : List Text)
    → all is_name names ≡ true
    → walk parts (names ++ rest) ≡ walk (reverse_aux names parts) rest
unfolding walk
walk_of_names parts [] rest h = refl
walk_of_names parts (p ∷ names) rest h =
    let (name, more) = all-cons is_name p names h in
    rw (walk, walk_step_of_name parts p name) (walk_of_names (p ∷ parts) names rest more)

name_parts :
    (names : List Text)
    → all is_name names ≡ true
    → (all (all no_slash) names ≡ true) × (all (all is_shown) names ≡ true)
name_parts [] h = (refl, refl)
name_parts (p ∷ names) h =
    let (name, more) = all-cons is_name p names h in
    let (plain, skip, up) = and_not _ _ _ name in
    let (slashes, controls) = name_parts names more in
    let (no_slashes, no_controls) = all-both no_slash is_visible p plain in
    (rw (no_slashes, slashes), rw (all-shown p no_controls, controls))

anchor-IsKept : (s : Text) → all is_shown s ≡ true → all is_shown (anchor s) ≡ true
unfolding anchor
anchor-IsKept s h = ground arith

-- The result is the root, or the root and names: absolute, with no empty piece, no `.` or `..`, no
-- trailing slash, no character below the space and no DEL.
pub normalise_path-IsRoot :
    (path : Text)
    → (names : List Text) × (all is_name names ≡ true) × (normalise_path path ≡ root names)
unfolding normalise_path
normalise_path-IsRoot path = (
  reverse (walk [] (split shown)),
  all-reverse_aux (walk [] (split shown)) [] (walk-names [] (split shown) refl pieces) refl,
  refl,
)
  where
    shown : Text
    shown = anchor (select is_shown path)

    pieces : all (all is_plain) (split shown) ≡ true
    pieces =
        all-split is_visible shown
          (all-visible shown (anchor-IsKept (select is_shown path) (all-select _ path)))

-- A text with no control character, behind a slash: what the loop is given.
normalise_path_of_clean :
    (t : Text)
    → all is_shown t ≡ true
    → normalise_path (slash ∷ t) ≡ root (reverse (walk [] (split t)))
unfolding normalise_path split
normalise_path_of_clean t h = rw (select_of_all is_shown t h)

walked :
    (p : Text) (ps : List Text) → all is_name (p ∷ ps) ≡ true → walk [] (p ∷ ps) ≡ reverse (p ∷ ps)
unfolding walk
walked p ps h = ap (walk []) (sym (append-nil (p ∷ ps))) ∙ walk_of_names [] (p ∷ ps) [] h

root_runs :
    (normalise_path (root []) ≡ root []) × (normalise_path (root [] ++ slash ∷ text "..") ≡ root [])
unfolding normalise_path split join
root_runs = (refl, refl)

-- A normal path is left alone.
normalise_path_of_root :
    (names : List Text) → all is_name names ≡ true → normalise_path (root names) ≡ root names
normalise_path_of_root [] h = root_runs.0
normalise_path_of_root (p ∷ ps) h =
    let (slashes, controls) = name_parts (p ∷ ps) h in
    normalise_path_of_clean (join (p ∷ ps)) (all-join _ (p ∷ ps) refl controls)
    ∙ ap root (rw (split-join p ps slashes) (ap reverse (walked p ps h) ∙ reverse-reverse (p ∷ ps)))

-- Normalising twice is normalising once.
pub normalise_path_idem : (path : Text) → normalise_path (normalise_path path) ≡ normalise_path path
normalise_path_idem path =
    let (names, proper, e) = normalise_path-IsRoot path in
    rw e (normalise_path_of_root names proper)

walk_below :
    (names : List Text) (t : Text)
    → all is_name names ≡ true
    → walk [] (split (join names ++ slash ∷ t)) ≡ walk (reverse names) (split t)
unfolding walk walk_step split join
walk_below [] t h = refl
walk_below (p ∷ ps) t h =
    rw (split-join-slash p ps t (name_parts (p ∷ ps) h).0) (walk_of_names [] (p ∷ ps) (split t) h)

-- `cd` to a relative target: the loop goes on from the names of the working directory.
pub normalise_path-below :
    (names : List Text) (t : Text)
    → all is_name names ≡ true
    → all is_shown t ≡ true
    → normalise_path (root names ++ slash ∷ t) ≡ root (reverse (walk (reverse names) (split t)))
normalise_path-below names t h k =
    normalise_path_of_clean (join names ++ slash ∷ t)
      (all-append _ (join names) (slash ∷ t) (all-join _ names refl (name_parts names h).1) k)
    ∙ ap (λ w. root (reverse w)) (walk_below names t h)

walk_into :
    (names : List Text) (name : Text)
    → all is_name (name ∷ []) ≡ true
    → reverse (walk (reverse names) (split name)) ≡ names ++ name ∷ []
unfolding walk
walk_into names name k =
    let (proper, _) = all-cons is_name name [] k in
    let (slashes, _) = all-cons (all no_slash) name [] (name_parts (name ∷ []) k).0 in
    rw (split_plain name slashes, walk, walk_step_of_name (reverse names) name proper)
      (reverse-cons name (reverse names) ∙ ap (λ w. w ++ name ∷ []) (reverse-reverse names))

walk_out :
    (names : List Text) (name : Text)
    → reverse (walk (reverse (names ++ name ∷ [])) (split (text ".."))) ≡ names
unfolding walk walk_step split
walk_out names name = rw (reverse-append names (name ∷ [])) (reverse-reverse names)

module _ (names : List Text) (name : Text) (h : all is_name names ≡ true)
    (k : all is_name (name ∷ []) ≡ true) where
  -- A name behind a normal path is the directory below, `..` behind that is the path again, and
  -- `..` behind the root is the root.
  pub normalise_path-enter-leave :
      (normalise_path (root names ++ slash ∷ name) ≡ root (names ++ name ∷ []))
      × (normalise_path (root (names ++ name ∷ []) ++ slash ∷ text "..") ≡ root names)
      × (normalise_path (root [] ++ slash ∷ text "..") ≡ root [])
  normalise_path-enter-leave = (
    normalise_path-below names name h
          (all-cons (all is_shown) name [] (name_parts (name ∷ []) k).1).0
        ∙ ap root (walk_into names name k),
    normalise_path-below (names ++ name ∷ []) (text "..") (all-append is_name names (name ∷ []) h k)
          refl
        ∙ ap root (walk_out names name),
    root_runs.1,
  )
