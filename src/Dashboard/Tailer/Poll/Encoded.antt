-- ===== src/Dashboard/Tailer/Poll/Encoded.antt =====
-- The events in the bytes of a log with whole lines.
use mathlib.Core.List.{append_assoc}
use anglerfish_ai.Base.{
  sym, ℕ, ◌≡◌, refl, ap, ◌∙◌, Bool, true, false, not, ◌&&◌, List, [], ◌∷◌, ◌++◌, ◌==◌, all,
  all-cons, arith,
}
use anglerfish_ai.Base.Result.{Result, ok, bind_returned, ok-injective}
use anglerfish_ai.Audit.Lines.{Bytes, newline, encode}
use anglerfish_ai.Audit.Reader.{Parsed, malformed, other_json, event}
use anglerfish_ai.Dashboard.Tailer.Poll.{
  byte_lines, parse_each, parse_lines, parse_line, cons_parsed, strip_bytes,
}

-- A line without line breaks.
abbrev pub is_unbroken : Bytes → Bool
is_unbroken line = all (λ c. not (c == newline) && not (c == 13)) line

abbrev unbroken_char : ℕ → Bool
unbroken_char c = not (c == newline) && not (c == 13)

byte_lines-line :
    (s t : Bytes)
    → all unbroken_char s ≡ true
    → byte_lines false (s ++ (newline ∷ t)) ≡ s ∷ byte_lines false t
unfolding byte_lines
byte_lines-line [] t h = refl
byte_lines-line (c ∷ s) t h =
    let (here, rest) = all-cons unbroken_char c s h in
    rw (no_cr here, byte_lines-line s t rest, no_break here) refl
  where
    no_cr : unbroken_char c ≡ true → (c == 13) ≡ false
    no_cr k = ground arith

    no_break : unbroken_char c ≡ true → (c == newline) ≡ false
    no_break k = ground arith

byte_lines-encode :
    (lines : List Bytes) → all is_unbroken lines ≡ true → byte_lines false (encode lines) ≡ lines
unfolding byte_lines
byte_lines-encode [] h = refl
byte_lines-encode (line ∷ lines) h =
    let (here, rest) = all-cons is_unbroken line lines h in
    byte_lines-line line (encode lines) here ∙ ap (◌∷◌ line) (byte_lines-encode lines rest)

module _ {E : Type 0} (loads : Bytes → Result (Parsed E)) where
  -- A parsed list is what its first line gives, in front of what the others give.
  parse_line-ok :
      (line : Bytes) (rest : Result (List E)) (all_events : List E)
      → parse_line loads line rest ≡ ok all_events
      → (first events : List E) × (rest ≡ ok events)
        × ((later : List E) → parse_line loads line (ok later) ≡ ok (first ++ later))
        × (all_events ≡ first ++ events)
  parse_line-ok [] rest all_events h = ([], all_events, h, λ later. refl, refl)
  parse_line-ok (c ∷ s) rest all_events h =
      let (parsed, loaded, more) = bind_returned (loads (c ∷ s)) _ h in
      let (events, got, last) = bind_returned rest _ more in
      (
        cons_parsed loads parsed [],
        events,
        got,
        λ later. rw loaded (ap ok (front parsed later)),
        sym (ok-injective last) ∙ front parsed events,
      )
    where
      front :
          (parsed : Parsed E) (later : List E)
          → cons_parsed loads parsed later ≡ cons_parsed loads parsed [] ++ later
      front malformed later = refl
      front other_json later = refl
      front (event e) later = refl

  -- Where all lines can be loaded, the events of two runs of lines are those of the first and then
  -- those of the second.
  pub parse_each-append :
      (xs ys : List Bytes) (all_events : List E)
      → parse_each loads (xs ++ ys) ≡ ok all_events
      → (before after : List E) × (parse_each loads xs ≡ ok before)
        × (parse_each loads ys ≡ ok after)
        × (all_events ≡ before ++ after)
  unfolding parse_each
  parse_each-append [] ys all_events h = ([], all_events, refl, h, refl)
  parse_each-append (line ∷ xs) ys all_events h =
      let (first, events, got, again, shape) =
        parse_line-ok (strip_bytes line) (parse_each loads (xs ++ ys)) all_events h in
      let (before, after, read, read_after, parts) = parse_each-append xs ys events got in
      (
        first ++ before,
        after,
        rw read (again before),
        read_after,
        shape ∙ ap (λ later. first ++ later) parts ∙ sym (append_assoc first before after),
      )

  pub parse_lines-encode :
      (lines : List Bytes)
      → all is_unbroken lines ≡ true
      → parse_lines loads (encode lines) ≡ parse_each loads lines
  unfolding parse_lines
  parse_lines-encode lines h = ap (parse_each loads) (byte_lines-encode lines h)
