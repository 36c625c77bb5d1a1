-- ===== src/Bridge/Path/Split.antt =====
-- `path.split("/")` and `"/".join(parts)`.
use mathlib.Core.List.{append_assoc}
use anglerfish_ai.Base.{
  all-append, ℕ, ◌≡◌, refl, ap, Bool, true, false, not, List, [], ◌∷◌, ◌++◌, ◌==◌, if◌then◌else◌,
  all, all-cons, arith, ◌∙◌, ◌&&◌, Bool-cases, inl, inr,
}
use anglerfish_ai.Base.Text.{Text}

abbrev pub slash : ℕ
slash = 47

-- The first piece grows by a character; a split has a first piece always.
abbrev pub grow : ℕ → List Text → List Text
grow c [] = (c ∷ []) ∷ []
grow c (p ∷ ps) = (c ∷ p) ∷ ps

unfoldable pub split : Text → List Text
split [] = [] ∷ []
split (c ∷ s) = let pieces = split s in if c == slash then [] ∷ pieces else grow c pieces

unfoldable pub join : List Text → Text
join [] = []
join (p ∷ []) = p
join (p ∷ q ∷ ps) = p ++ slash ∷ join (q ∷ ps)

abbrev pub no_slash : ℕ → Bool
no_slash c = not (c == slash)

grow-append :
    (c : ℕ) (p : Text) (ps qs : List Text) → grow c ((p ∷ ps) ++ qs) ≡ grow c (p ∷ ps) ++ qs
grow-append c p ps qs = refl

-- What stands behind a slash is split on its own.
pub split-slash : (s t : Text) → all no_slash s ≡ true → split (s ++ slash ∷ t) ≡ s ∷ split t
unfolding split
split-slash [] t h = refl
split-slash (c ∷ s) t h =
    let (plain, rest) = all-cons no_slash c s h in rw (not-slash plain, split-slash s t rest)
  where
    not-slash : no_slash c ≡ true → (c == slash) ≡ false
    not-slash e = ground arith

pub split_plain : (s : Text) → all no_slash s ≡ true → split s ≡ s ∷ []
unfolding split
split_plain [] h = refl
split_plain (c ∷ s) h =
    let (plain, rest) = all-cons no_slash c s h in rw (not-slash plain, split_plain s rest)
  where
    not-slash : no_slash c ≡ true → (c == slash) ≡ false
    not-slash e = ground arith

-- Splitting a joined list of slash-free names gives the names back.
pub split-join :
    (p : Text) (ps : List Text)
    → all (all no_slash) (p ∷ ps) ≡ true
    → split (join (p ∷ ps)) ≡ p ∷ ps
unfolding join
split-join p [] h = split_plain p (all-cons (all no_slash) p [] h).0
split-join p (q ∷ ps) h =
    let (plain, rest) = all-cons (all no_slash) p (q ∷ ps) h in
    split-slash p (join (q ∷ ps)) plain ∙ ap (◌∷◌ p) (split-join q ps rest)

-- No piece of a split holds a slash, nor a character that the text has not.
module _ (keep : ℕ → Bool) where
  all-grow :
      (c : ℕ) (pieces : List Text)
      → (no_slash c && keep c) ≡ true
      → all (all (λ x. no_slash x && keep x)) pieces ≡ true
      → all (all (λ x. no_slash x && keep x)) (grow c pieces) ≡ true
  all-grow c [] h k = ground arith
  all-grow c (p ∷ ps) h k = ground arith

  pub all-split :
      (s : Text) → all keep s ≡ true → all (all (λ x. no_slash x && keep x)) (split s) ≡ true
  unfolding split
  all-split [] h = refl
  all-split (c ∷ s) h =
      let (kept, rest) = all-cons keep c s h in
      elim (Bool-cases (c == slash)) [
        | inl e ↦ rw e (all-split s rest)
        | inr e ↦ rw e (all-grow c (split s) (ground arith) (all-split s rest))
      ]

pub split-join-slash :
    (p : Text) (ps : List Text) (t : Text)
    → all (all no_slash) (p ∷ ps) ≡ true
    → split (join (p ∷ ps) ++ slash ∷ t) ≡ (p ∷ ps) ++ split t
unfolding join
split-join-slash p [] t h = split-slash p t (all-cons (all no_slash) p [] h).0
split-join-slash p (q ∷ ps) t h =
    let (plain, rest) = all-cons (all no_slash) p (q ∷ ps) h in
    rw append_assoc
      (split-slash p (join (q ∷ ps) ++ slash ∷ t) plain ∙ ap (◌∷◌ p) (split-join-slash q ps t rest))

pub all-join :
    (keep : ℕ → Bool) (names : List Text)
    → keep slash ≡ true
    → all (all keep) names ≡ true
    → all keep (join names) ≡ true
unfolding join
all-join keep [] h k = refl
all-join keep (p ∷ []) h k = (all-cons (all keep) p [] k).0
all-join keep (p ∷ q ∷ names) h k =
    let (here, rest) = all-cons (all keep) p (q ∷ names) k in
    all-append keep p (slash ∷ join (q ∷ names)) here (rw (h, all-join keep (q ∷ names) h rest))
