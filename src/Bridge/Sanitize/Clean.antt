-- ===== src/Bridge/Sanitize/Clean.antt =====
-- What the filters of bridge/sanitize.py guarantee of their results.
use anglerfish_ai.Base.{
  ℕ, zero, suc, ◌+◌, ◌≤◌, ◌<◌, ◌≡◌, refl, ap, true, false, [], ◌∷◌, ◌++◌, ltb, ◌==◌, if◌then◌else◌,
  length, take, all, all-select, all-cons, select_of_all, all-take, all-append, length-append,
  length-take, arith, inl, inr, ◌⊎◌, ◌≢◌, All,
}
use anglerfish_ai.Base.Text.{Text}
use anglerfish_ai.Base.Result.{ok}
use anglerfish_ai.Bridge.Sanitize.{
  truncation_marker, is_kept, strip_control_chars, replace_crlf, replace_cr, sanitize_command,
}

-- A tab, a line feed, or a character from the space on other than DEL.
abbrev pub IsPrintable : ℕ → Type 0
IsPrintable c = (c ≡ 9) ⊎ ((c ≡ 10) ⊎ ((32 ≤ c) × (c ≢ 127)))

is_kept-IsPrintable : (c : ℕ) → is_kept c ≡ true → IsPrintable c
is_kept-IsPrintable c h = ground arith

kept-IsPrintable : (s : Text) → all is_kept s ≡ true → All IsPrintable s
kept-IsPrintable [] h = tt
kept-IsPrintable (c ∷ s) h =
    let (kept, clean) = all-cons is_kept c s h in
    (is_kept-IsPrintable c kept, kept-IsPrintable s clean)

kept-ne-cr : (c : ℕ) → is_kept c ≡ true → (c == 13) ≡ false
kept-ne-cr c h = ground arith

-- No line ending is left to normalise in a clean text.
replace_crlf_of_clean : (s : Text) → all is_kept s ≡ true → replace_crlf s ≡ s
unfolding replace_crlf
replace_crlf_of_clean [] h = refl
replace_crlf_of_clean (c ∷ s) h =
    let (kept, clean) = all-cons is_kept c s h in
    rw (kept-ne-cr c kept, replace_crlf_of_clean s clean)

replace_cr_of_clean : (s : Text) → all is_kept s ≡ true → replace_cr s ≡ s
unfolding replace_cr
replace_cr_of_clean [] h = refl
replace_cr_of_clean (c ∷ s) h =
    let (kept, clean) = all-cons is_kept c s h in
    rw (kept-ne-cr c kept, replace_cr_of_clean s clean)

take_of_take-append : (n : ℕ) (xs ys : Text) → n ≤ length xs → take n (take n xs ++ ys) ≡ take n xs
take_of_take-append zero xs ys h = refl
take_of_take-append (suc n) [] ys h = absurd (omega arith)
take_of_take-append (suc n) (x ∷ xs) ys h = ap (◌∷◌ x) (take_of_take-append n xs ys (omega arith))

filters_of_clean :
    (s : Text) → all is_kept s ≡ true → strip_control_chars (replace_cr (replace_crlf s)) ≡ s
unfolding strip_control_chars
filters_of_clean s h =
    rw (replace_crlf_of_clean s h, replace_cr_of_clean s h) (select_of_all is_kept s h)

-- On a clean text only the cap is left to apply.
sanitize_command_of_clean :
    (s : Text) (max_chars : ℕ)
    → all is_kept s ≡ true
    → 0 < max_chars
    → sanitize_command s max_chars
      ≡ ok (if ltb max_chars (length s) then take max_chars s ++ truncation_marker else s)
unfolding sanitize_command
sanitize_command_of_clean s max_chars h p = rw (filters_of_clean s h) (ground arith)

module _ (raw : Text) (max_chars : ℕ) (out : Text)
    (h : sanitize_command raw max_chars ≡ ok out) where
  cleaned : Text
  cleaned = strip_control_chars (replace_cr (replace_crlf raw))

  cleaned-IsClean : all is_kept cleaned ≡ true
  unfolding cleaned strip_control_chars
  cleaned-IsClean = all-select is_kept (replace_cr (replace_crlf raw))

  -- What a successful call returns, by whether the cleaned text fits.
  sanitize_command-cases :
      (0 < max_chars)
      × (((length cleaned ≤ max_chars) × (out ≡ cleaned))
          ⊎ ((max_chars < length cleaned) × (out ≡ take max_chars cleaned ++ truncation_marker)))
  unfolding sanitize_command cleaned
  sanitize_command-cases = ground arith

  out-all : (all is_kept out ≡ true) × (length out ≤ max_chars + length truncation_marker)
  out-all = elim sanitize_command-cases.1 [
    | inl (short, e) ↦ rw e (cleaned-IsClean, omega arith)
    | inr (long, e) ↦ rw e (
      all-append is_kept (take max_chars cleaned) truncation_marker
          (all-take is_kept max_chars cleaned cleaned-IsClean) refl,
      omega (
        arith,
        length-append (take max_chars cleaned) truncation_marker,
        length-take max_chars cleaned,
      ),
    )
  ]

  cut_of_out :
      (if ltb max_chars (length out) then take max_chars out ++ truncation_marker else out) ≡ out
  cut_of_out = elim sanitize_command-cases.1 [
    | inl (short, e) ↦ ground arith
    | inr (long, e) ↦ ground (arith, take_of_take-append max_chars cleaned truncation_marker)
  ]

  -- A sanitised command is a fixed point: sanitising it again changes nothing, cut or not.
  pub sanitize_command_idem : sanitize_command out max_chars ≡ ok out
  sanitize_command_idem =
      rw (sanitize_command_of_clean out max_chars out-all.0 sanitize_command-cases.0)
        (ap ok cut_of_out)

  -- Every character of a sanitised command is a tab, a line feed, or from U+0020 on and not U+007F:
  -- no other character below the space and no DEL is left, while U+0080 to U+009F pass. It has at most
  -- `max_chars` characters and the marker, and sanitising it again changes nothing.
  pub sanitize_command-IsClean :
      All IsPrintable out
      × (length out ≤ max_chars + length truncation_marker)
      × (sanitize_command out max_chars ≡ ok out)
  sanitize_command-IsClean = (kept-IsPrintable out out-all.0, out-all.1, sanitize_command_idem)
