-- ===== src/Bridge/Sanitize/Trim.antt =====
-- What `cap_output` and `normalise_for_scan` of bridge/sanitize.py guarantee of their results.
use anglerfish_ai.Base.{
  ℕ, suc, ◌≤◌, ◌≡◌, refl, ap, sym, ◌∙◌, Bool, true, false, not, ◌&&◌, [], ◌∷◌, ◌++◌, length, take,
  select, all, all-select, select_of_all, last?, some, length-take, arith, Bool-cases, inl, inr,
}
use anglerfish_ai.Base.Text.{Text, rstrip, cons_kept, is_space}
use anglerfish_ai.Base.Result.{ok}
use anglerfish_ai.Bridge.Sanitize.{cap_output, Unicode, normalise_for_scan}

cons_kept-length : (c : ℕ) (s : Text) → length (cons_kept c s) ≤ suc (length s)
cons_kept-length c [] = ground arith
cons_kept-length c (d ∷ s) = omega arith

length-rstrip-le : (s : Text) → length (rstrip s) ≤ length s
unfolding rstrip
length-rstrip-le [] = omega arith
length-rstrip-le (c ∷ s) = omega (arith, cons_kept-length c (rstrip s), length-rstrip-le s)

-- What is cut off, behind what is kept.
cons_kept-split :
    (c : ℕ) (s blanks : Text)
    → all is_space blanks ≡ true
    → (cut : Text) × (all is_space cut ≡ true) × (cons_kept c s ++ cut ≡ c ∷ s ++ blanks)
cons_kept-split c [] blanks h = elim (Bool-cases (is_space c)) [
  | inl e ↦ (c ∷ blanks, rw e h, rw e)
  | inr e ↦ (blanks, h, rw e)
]
cons_kept-split c (d ∷ s) blanks h = (blanks, h, refl)

rstrip-split : (s : Text) → (cut : Text) × (all is_space cut ≡ true) × (rstrip s ++ cut ≡ s)
unfolding rstrip
rstrip-split [] = ([], refl, refl)
rstrip-split (c ∷ s) =
    let (cut, blank, e) = rstrip-split s in
    let (cut', blank', e') = cons_kept-split c (rstrip s) cut blank in
    (cut', blank', e' ∙ ap (◌∷◌ c) e)

-- The last character of a trimmed text is no blank.
abbrev pub IsTrimmed : Text → Type 0
IsTrimmed s = (c : ℕ) → last? s ≡ some c → is_space c ≡ false

cons_kept-IsTrimmed : (c : ℕ) (s : Text) → IsTrimmed s → IsTrimmed (cons_kept c s)
cons_kept-IsTrimmed c [] h d = ground arith
cons_kept-IsTrimmed c (x ∷ s) h d = h d

rstrip-IsTrimmed : (s : Text) → IsTrimmed (rstrip s)
unfolding rstrip
rstrip-IsTrimmed [] c h = cc
rstrip-IsTrimmed (c ∷ s) d h = cons_kept-IsTrimmed c (rstrip s) (rstrip-IsTrimmed s) d h

-- A capped response has at most `max_chars` characters, ends in no blank, and with some blanks
-- behind it is the first `max_chars` characters of the raw response.
pub cap_output-IsPrefix :
    (raw : Text) (max_chars : ℕ) (out : Text)
    → cap_output raw max_chars ≡ ok out
    → (length out ≤ max_chars)
      × IsTrimmed out
      × ((cut : Text) × (all is_space cut ≡ true) × (out ++ cut ≡ take max_chars raw))
unfolding cap_output
cap_output-IsPrefix raw m out h = rw (← e) (
  omega (arith, length-rstrip-le (take m raw), length-take m raw),
  rstrip-IsTrimmed (take m raw),
  rstrip-split (take m raw),
)
  where
    e : rstrip (take m raw) ≡ out
    e = ground arith

-- `normalise_for_scan` on plain text with format characters spliced in.
module _ (u : Unicode) where
  abbrev is_seen : ℕ → Bool
  is_seen ch = not (u.is_mark ch) && not (u.is_format ch)

  -- If NFKD leaves a text as it is, the scan reads it without its marks and format characters: two
  -- such texts that differ in those alone are scanned alike.
  pub normalise_for_scan-splice :
      (plain spliced : Text)
      → u.nfkd plain ≡ plain
      → u.nfkd spliced ≡ spliced
      → select is_seen spliced ≡ plain
      → normalise_for_scan u spliced ≡ normalise_for_scan u plain
  unfolding normalise_for_scan
  normalise_for_scan-splice plain spliced p q e =
      rw (p, q, ← e)
        (sym (select_of_all is_seen (select is_seen spliced) (all-select is_seen spliced)))
