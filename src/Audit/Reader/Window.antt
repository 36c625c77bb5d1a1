-- ===== src/Audit/Reader/Window.antt =====
-- Reading a log back: which lines a bounded read sees, and what the events are.
use native.Mathlib.Nat.{zero-add}
use mathlib.Core.List.{reverse}
use anglerfish_ai.Base.{
  ℕ, zero, suc, ◌+◌, ◌-◌, ◌≤◌, ◌<◌, ◌≡◌, refl, sym, ap, ◌∙◌, Bool, true, false, ◌&&◌, ◌||◌, none,
  some, List, [], ◌∷◌, ◌++◌, ◌==◌, leb, leb→le, lt→ltb, if◌then◌else◌, length, length-append, drop,
  all, all-cons, all-append, Bool-cases, inl, inr, arith,
}
use anglerfish_ai.Base.Text.{Text}
use anglerfish_ai.Audit.Lines.{Bytes, newline, encode}
use anglerfish_ai.Audit.Reader.{
  is_boundary, splitlines, find_newline, after_newline, Parsed, file, bounded_text, events_of,
  iter_events,
}

-- A printable ASCII character.
abbrev pub is_ascii : ℕ → Bool
is_ascii c = leb 32 c && leb c 126

abbrev pub is_ascii_line : Text → Bool
is_ascii_line line = all is_ascii line

find_newline-line :
    (s t : Text) → all is_ascii s ≡ true → find_newline (s ++ (newline ∷ t)) ≡ some (length s)
unfolding find_newline
find_newline-line [] t h = refl
find_newline-line (c ∷ s) t h =
    let (here, rest) = all-cons is_ascii c s h in rw (find_newline-line s t rest) (not_here here)
  where
    not_here :
        is_ascii c ≡ true
        → (if c == newline then some 0 else some (suc (length s))) ≡ some (suc (length s))
    not_here k = ground arith

drop-past : (s t : Text) → drop (suc (length s)) (s ++ (newline ∷ t)) ≡ t
drop-past [] t = refl
drop-past (c ∷ s) t = drop-past s t

after_newline-line : (s t : Text) → all is_ascii s ≡ true → after_newline (s ++ (newline ∷ t)) ≡ t
unfolding after_newline
after_newline-line s t h = rw (after_newline, find_newline-line s t h) (drop-past s t)

all-drop : (n : ℕ) (s : Text) → all is_ascii s ≡ true → all is_ascii (drop n s) ≡ true
all-drop zero s h = h
all-drop (suc n) [] h = refl
all-drop (suc n) (c ∷ s) h = all-drop n s (all-cons is_ascii c s h).1

drop-front : (n : ℕ) (s t : Text) → n ≤ length s → drop n (s ++ t) ≡ drop n s ++ t
drop-front zero s t h = refl
drop-front (suc n) [] t h = elim h [ ]
drop-front (suc n) (c ∷ s) t h = drop-front n s t (omega arith)

drop-behind : (n : ℕ) (s t : Text) → drop (suc (length s + n)) (s ++ (newline ∷ t)) ≡ drop n t
drop-behind n [] t = rw (zero-add n) refl
drop-behind n (c ∷ s) t = rw (shifted (length s)) (drop-behind n s t)
  where
    shifted : (m : ℕ) → suc m + n ≡ suc (m + n)
    shifted m = omega arith

-- The line that holds byte `n` is cut off, and the whole lines behind it are left.
after_newline-encode :
    (n : ℕ) (lines : List Bytes)
    → all is_ascii_line lines ≡ true
    → n < length (encode lines)
    → (front : List Bytes) × (line : Bytes) × (newer : List Bytes) × (lines
        ≡ front ++ (line ∷ newer))
      × (length (encode front) ≤ n)
      × (n ≤ length (encode front) + length line)
      × (after_newline (drop n (encode lines)) ≡ encode newer)
after_newline-encode n [] h inside = elim inside [ ]
after_newline-encode n (line ∷ lines) h inside =
    let (here, rest) = all-cons is_ascii_line line lines h in
    elim (Bool-cases (leb n (length line))) [
      | inl within ↦ (
        [],
        line,
        lines,
        refl,
        omega arith,
        omega (arith, leb→le n (length line) within),
        rw (drop-front n line (newline ∷ encode lines) (leb→le n (length line) within))
            (after_newline-line (drop n line) (encode lines) (all-drop n line here)),
      )
      | inr behind ↦
          let m = n - suc (length line) in
          let split : n ≡ suc (length line + m) = ground arith in
          let (front, last, newer, same, low, high, left) =
            after_newline-encode m lines rest
              (omega (arith, split, length-append line (newline ∷ encode lines))) in
          (
            line ∷ front,
            last,
            newer,
            ap (◌∷◌ line) same,
            omega (arith, split, low, length-append line (newline ∷ encode front)),
            omega (arith, split, high, length-append line (newline ∷ encode front)),
            ap (λ k. after_newline (drop k (encode (line ∷ lines)))) split
                ∙ ap after_newline (drop-behind m line (encode lines))
                ∙ left,
          )
    ]

splitlines-line :
    (s t : Text)
    → all is_ascii s ≡ true
    → splitlines false (s ++ (newline ∷ t)) ≡ s ∷ splitlines false t
unfolding splitlines is_boundary
splitlines-line [] t h = refl
splitlines-line (c ∷ s) t h =
    let (here, rest) = all-cons is_ascii c s h in
    rw (no_cr here, splitlines-line s t rest, no_boundary here) refl
  where
    no_cr : is_ascii c ≡ true → (c == 13) ≡ false
    no_cr k = ground arith

    no_boundary : is_ascii c ≡ true → is_boundary c ≡ false
    no_boundary k = ground arith

splitlines-encode :
    (lines : List Bytes) → all is_ascii_line lines ≡ true → splitlines false (encode lines) ≡ lines
unfolding splitlines
splitlines-encode [] h = refl
splitlines-encode (line ∷ lines) h =
    let (here, rest) = all-cons is_ascii_line line lines h in
    splitlines-line line (encode lines) here ∙ ap (◌∷◌ line) (splitlines-encode lines rest)

abbrev pub is_log_char : ℕ → Bool
is_log_char c = is_ascii c || c == newline

log_chars : (line : Bytes) → all is_ascii line ≡ true → all is_log_char line ≡ true
log_chars [] h = refl
log_chars (c ∷ s) h = ground (arith, log_chars s)

encode-log_chars :
    (lines : List Bytes) → all is_ascii_line lines ≡ true → all is_log_char (encode lines) ≡ true
encode-log_chars [] h = refl
encode-log_chars (line ∷ lines) h =
    let (here, rest) = all-cons is_ascii_line line lines h in
    all-append is_log_char line (newline ∷ encode lines) (log_chars line here)
      (encode-log_chars lines rest)

log_chars-drop : (n : ℕ) (s : Bytes) → all is_log_char s ≡ true → all is_log_char (drop n s) ≡ true
log_chars-drop zero s h = h
log_chars-drop (suc n) [] h = refl
log_chars-drop (suc n) (c ∷ s) h = log_chars-drop n s (all-cons is_log_char c s h).1

behind :
    (front newer : List Bytes) (line : Bytes) {lines : List Bytes}
    → lines ≡ front ++ (line ∷ newer)
    → all is_ascii_line lines ≡ true
    → all is_ascii_line newer ≡ true
behind front newer line same h = go front (ap (all is_ascii_line) (sym same) ∙ h)
  where
    go :
        (older : List Bytes)
        → all is_ascii_line (older ++ (line ∷ newer)) ≡ true
        → all is_ascii_line newer ≡ true
    go [] k = (all-cons is_ascii_line line newer k).1
    go (first ∷ older) k = go older (all-cons is_ascii_line first (older ++ (line ∷ newer)) k).1

module _ {E : Type 0} (decode : Bytes → Text) (loads : Text → Parsed E)
    (plain : (s : Bytes) → all is_log_char s ≡ true → decode s ≡ s) where
  -- Of a log of ASCII lines, an unbounded read gives the events of all lines, the last line's first.
  -- A read of the last `n` bytes, fewer than there are, gives in the same way the events of the lines
  -- behind the one in which those bytes begin, so never an event from a piece of a line. Decoding
  -- leaves ASCII as it is.
  pub iter_events-lines :
      (lines : List Bytes) (n : ℕ)
      → all is_ascii_line lines ≡ true
      → 1 ≤ n
      → n < length (encode lines)
      → (iter_events decode loads none (file (encode lines))
          ≡ events_of decode loads (reverse lines))
        × (front : List Bytes) × (line : Bytes) × (newer : List Bytes) × (lines
            ≡ front ++ (line ∷ newer))
        × (length (encode front) + n ≤ length (encode lines))
        × (length (encode lines) ≤ (length (encode front) + length line) + n)
        × (iter_events decode loads (some n) (file (encode lines))
            ≡ events_of decode loads (reverse newer))
  unfolding iter_events bounded_text
  iter_events-lines lines n h some_bytes fewer =
      let at = length (encode lines) - n in
      let (front, line, newer, same, low, high, left) =
        after_newline-encode at lines h (omega arith) in
      let decoded = plain (encode lines) (encode-log_chars lines h) in
      let cut =
        plain (drop at (encode lines))
          (log_chars-drop at (encode lines) (encode-log_chars lines h)) in
      (
        rw (decoded, splitlines-encode lines h) refl,
        front,
        line,
        newer,
        same,
        omega (arith, low),
        omega (arith, high),
        rw
            (
              lt→ltb n (length (encode lines)) fewer,
              cut,
              left,
              splitlines-encode newer (behind front newer line same h),
            )
            refl,
      )
