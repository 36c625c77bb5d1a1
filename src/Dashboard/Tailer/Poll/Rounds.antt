-- ===== src/Dashboard/Tailer/Poll/Rounds.antt =====
-- However the log's growth falls on the polls, each line is dispatched once, in order.
use mathlib.Core.List.{append-nil, append_assoc}
use anglerfish_ai.Base.{
  drop-length, ℕ, ◌+◌, ◌≤◌, ◌≡◌, refl, sym, ap, ◌∙◌, Bool, true, ◌&&◌, none, List, [], ◌∷◌, ◌++◌,
  ◌==◌, length, length-append, all, all-cons, Bool-cases, inl, inr, arith,
}
use anglerfish_ai.Base.Result.{Result, ok, ok-injective}
use anglerfish_ai.Audit.Lines.{
  Bytes, encode, encode-append, no_newline, complete_part, complete_part-encode,
}
use anglerfish_ai.Audit.Reader.{Parsed}
use anglerfish_ai.Dashboard.Tailer.Poll.{
  byte_lines, LogView, readable, Polling, parse_each, parse_lines, dispatch_all, rotated,
  dispatch_complete, read_new, poll_once, poll_all,
}
use anglerfish_ai.Dashboard.Tailer.Poll.Encoded.{is_unbroken, parse_each-append, parse_lines-encode}

-- What each poll finds: whole lines that are new, and the beginning of another.
abbrev pub Round : Type 0
Round = List Bytes × Bytes

abbrev pub views : List Bytes → List Round → List LogView
views seen [] = []
views seen ((added, partial) ∷ rounds) =
    readable (encode (seen ++ added) ++ partial) ∷ views (seen ++ added) rounds

abbrev pub all_added : List Round → List Bytes
all_added [] = []
all_added ((added, partial) ∷ rounds) = added ++ all_added rounds

abbrev pub is_round : Round → Bool
is_round (added, partial) = all is_unbroken added && all no_newline partial

module _ {E S : Type 0} (loads : Bytes → Result (Parsed E))
    (dispatch : E → S → S × Result (Unit {0}))
    (returns : (e : E) (s : S) → (dispatch e s).1 ≡ ok tt) where
  returned_pair : (e : E) (s : S) → dispatch e s ≡ ((dispatch e s).0, ok tt)
  returned_pair e s = ap (λ result. ((dispatch e s).0, result)) (returns e s)

  dispatch_all_returns :
      (events : List E) (s : S)
      → dispatch_all loads dispatch events s ≡ ((dispatch_all loads dispatch events s).0, ok tt)
  unfolding dispatch_all
  dispatch_all_returns [] s = refl
  dispatch_all_returns (e ∷ events) s =
      rw (returned_pair e s) (dispatch_all_returns events (dispatch e s).0)

  dispatch_all-append :
      (xs ys : List E) (s : S)
      → (dispatch_all loads dispatch (xs ++ ys) s).0
        ≡ (dispatch_all loads dispatch ys (dispatch_all loads dispatch xs s).0).0
  unfolding dispatch_all
  dispatch_all-append [] ys s = refl
  dispatch_all-append (e ∷ xs) ys s =
      rw (returned_pair e s) (dispatch_all-append xs ys (dispatch e s).0)

  -- The tailer has dispatched `events`, those of the lines `seen`, and no others.
  abbrev IsThrough : S → List E → List Bytes → Polling S → Type 0
  IsThrough start events seen p =
      (p.state ≡ (dispatch_all loads dispatch events start).0) × (p.offset ≡ length (encode seen))

  dispatch_complete_lem :
      (blob : Bytes) (events : List E) (p : Polling S)
      → parse_lines loads blob ≡ ok events
      → ((dispatch_complete loads dispatch blob p).state
          ≡ (dispatch_all loads dispatch events p.state).0)
        × ((dispatch_complete loads dispatch blob p).offset ≡ p.offset + length blob)
  unfolding parse_lines parse_each dispatch_all byte_lines
  dispatch_complete_lem [] events p h =
      (ap (λ found. (dispatch_all loads dispatch found p.state).0) (ok-injective h), omega arith)
  dispatch_complete_lem (c ∷ s) events p h =
      rw (h, dispatch_all_returns events p.state) (refl, refl)

  read_new_lem :
      (front blob partial : Bytes) (p : Polling S)
      → p.offset ≡ length front
      → complete_part (blob ++ partial) ≡ blob
      → read_new loads dispatch (front ++ (blob ++ partial)) p
        ≡ dispatch_complete loads dispatch blob p
  read_new_lem front blob partial p at whole =
      elim (Bool-cases (length (front ++ (blob ++ partial)) == p.offset)) [
        | inl same ↦ rw (same, nothing_new same) refl
        | inr longer ↦ rw (longer, at, drop-length front (blob ++ partial), whole) refl
      ]
    where
      no_bytes : (s : Bytes) → length s ≡ 0 → s ≡ []
      no_bytes [] h = refl
      no_bytes (c ∷ s) h = ground arith

      nothing_new : (length (front ++ (blob ++ partial)) == p.offset) ≡ true → blob ≡ []
      nothing_new same =
          no_bytes blob
            (ground (arith, length-append front (blob ++ partial), length-append blob partial))

  rotated_not : (size : ℕ) (p : Polling S) → p.offset ≤ size → rotated loads dispatch size p ≡ p
  rotated_not size p h = ground arith

  poll_once-IsThrough :
      (start : S) (before after : List E) (seen added : List Bytes) (partial : Bytes)
      (p : Polling S)
      → is_round (added, partial) ≡ true
      → parse_each loads added ≡ ok after
      → IsThrough start before seen p
      → IsThrough start
          (before ++ after)
          (seen ++ added)
          (poll_once loads dispatch (readable (encode (seen ++ added) ++ partial)) p)
  unfolding poll_once
  poll_once-IsThrough start before after seen added partial p h read (state, at) =
      let (plain, no_break) = round_parts h in
      let blob = encode added in
      let done = dispatch_complete_lem blob after p (parse_lines-encode loads added plain ∙ read) in
      rw
        (
          encode-append seen added,
          append_assoc (encode seen) blob partial,
          rotated_not (length (encode seen ++ (blob ++ partial))) p
              (omega (arith, at, length-append (encode seen) (blob ++ partial))),
          read_new_lem (encode seen) blob partial p at
              (complete_part-encode added partial no_break),
        )
        (
          done.0
              ∙ ap (λ s. (dispatch_all loads dispatch after s).0) state
              ∙ sym (dispatch_all-append before after start),
          omega (arith, done.1, at, length-append (encode seen) blob),
        )
    where
      round_parts :
          is_round (added, partial) ≡ true
          → (all is_unbroken added ≡ true) × (all no_newline partial ≡ true)
      round_parts k = ground arith

  poll_all-IsThrough :
      (start : S) (before events : List E) (seen : List Bytes) (rounds : List Round) (p : Polling S)
      → all is_round rounds ≡ true
      → parse_each loads (all_added rounds) ≡ ok events
      → IsThrough start before seen p
      → IsThrough start
          (before ++ events)
          (seen ++ all_added rounds)
          (poll_all loads dispatch (views seen rounds) p)
  unfolding poll_all parse_each
  poll_all-IsThrough start before events seen [] p h read (state, at) = (
    state
        ∙ ap (λ found. (dispatch_all loads dispatch found start).0)
            (sym (append-nil before) ∙ ap (λ later. before ++ later) (ok-injective read)),
    at ∙ ap (λ lines. length (encode lines)) (sym (append-nil seen)),
  )
  poll_all-IsThrough start before events seen ((added, partial) ∷ rounds) p h read through =
      let (here, rest) = all-cons is_round (added, partial) rounds h in
      let (now, later, read_now, read_later, parts) =
        parse_each-append loads added (all_added rounds) events read in
      rw (← append_assoc seen added (all_added rounds), parts, ← append_assoc before now later)
        (poll_all-IsThrough start (before ++ now) later (seen ++ added) rounds
          (poll_once loads dispatch (readable (encode (seen ++ added) ++ partial)) p) rest
          read_later
          (poll_once-IsThrough start before now seen added partial p here read_now through))

  -- However the growth of the log falls on the polls, and whatever part of a line each finds at the
  -- end, the tailer ends as if it had dispatched the events of all whole lines at once, each once and
  -- in order, and its offset is behind them. Each whole line can be loaded or is malformed JSON (one
  -- that is not UTF-8 raises), the lines have no line breaks inside, no dispatch raises, and the
  -- tailer starts at offset 0 of an empty log that only grows.
  pub poll_all-dispatches :
      (start : S) (rounds : List Round) (events : List E)
      → all is_round rounds ≡ true
      → parse_each loads (all_added rounds) ≡ ok events
      → let fresh : Polling S = record {
        state = start;
        offset = 0;
        consecutive_failures = 0;
        cached = none;
      } in
        ((poll_all loads dispatch (views [] rounds) fresh).state
          ≡ (dispatch_all loads dispatch events start).0)
        × ((poll_all loads dispatch (views [] rounds) fresh).offset
            ≡ length (encode (all_added rounds)))
  unfolding dispatch_all
  poll_all-dispatches start rounds events h read =
      poll_all-IsThrough start [] events [] rounds _ h read (refl, refl)
