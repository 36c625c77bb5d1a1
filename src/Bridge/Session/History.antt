-- ===== src/Bridge/Session/History.antt =====
-- The window of a session's history.
use anglerfish_ai.Base.{
  ℕ, zero, suc, inl, inr, map, Bool-cases, leb, ◌+◌, ◌-◌, ◌≤◌, ◌≡◌, refl, sym, ap, ◌∙◌, List, [],
  ◌∷◌, ◌++◌, length, drop, length-append, length-drop, arith,
}
use anglerfish_ai.Base.Text.{Text}
use anglerfish_ai.Bridge.Session.{
  CommandTurn, ResponseSource, SessionContext, append_bounded, record_turn,
}

-- A command of a session, as it is recorded.
pub record Recorded : Type 0 where
  pub command : Text
  pub response : Text
  pub source : ResponseSource
  pub latency_ms : ℕ
  pub now : ℕ

abbrev pub turn_of : Recorded → CommandTurn
turn_of r = record {
  command = r.command;
  response = r.response;
  source = r.source;
  timestamp = r.now;
  latency_ms = r.latency_ms;
}

unfoldable pub record_all_turns : SessionContext → List Recorded → SessionContext
record_all_turns s [] = s
record_all_turns s (r ∷ later) =
    record_all_turns (record_turn s r.command r.response r.source r.latency_ms r.now) later

-- The last `n` of a list.
abbrev pub last_n {ℓ} : {A : Type ℓ} → ℕ → List A → List A
last_n n xs = drop (length xs - n) xs

module _ {ℓ} {A : Type ℓ} where
  drop-append : (n : ℕ) (xs ys : List A) → n ≤ length xs → drop n (xs ++ ys) ≡ drop n xs ++ ys
  drop-append zero xs ys h = refl
  drop-append (suc n) [] ys h = ground arith
  drop-append (suc n) (x ∷ xs) ys h = drop-append n xs ys (omega arith)

  drop-one : (n : ℕ) (xs : List A) → drop 1 (drop n xs) ≡ drop (suc n) xs
  drop-one zero [] = refl
  drop-one zero (x ∷ xs) = refl
  drop-one (suc n) [] = refl
  drop-one (suc n) (x ∷ xs) = drop-one n xs

  append-none : (xs : List A) → xs ++ [] ≡ xs
  append-none [] = refl
  append-none (x ∷ xs) = ap (◌∷◌ x) (append-none xs)

  append-one : (xs : List A) (x : A) (ys : List A) → (xs ++ x ∷ []) ++ ys ≡ xs ++ x ∷ ys
  append-one [] x ys = refl
  append-one (y ∷ xs) x ys = ap (◌∷◌ y) (append-one xs x ys)

  drop-none : (n : ℕ) → drop {A = A} (0 - n) [] ≡ []
  drop-none n = let none_left : 0 - n ≡ 0 = omega arith in rw none_left refl

  -- What a bounded append keeps of the last items is the last items.
  pub append_bounded-last_n :
      (w : ℕ) (xs : List A) (x : A) → append_bounded w (last_n w xs) x ≡ last_n w (xs ++ x ∷ [])
  unfolding append_bounded
  append_bounded-last_n w xs x =
      let k = length xs - w in
      let sizes = length-append (drop k xs) (x ∷ []) in
      let size = length-append xs (x ∷ []) in
      let kept = length-drop k xs in
      elim (Bool-cases (leb (length xs) w)) [
        | inl few ↦ (let none_dropped : k ≡ 0 = ground arith in rw none_dropped refl)
        | inr many ↦
            (let one : length (drop k xs ++ x ∷ []) - w ≡ 1 = ground (arith, sizes, kept) in
              let more : length (xs ++ x ∷ []) - w ≡ suc k = ground (arith, size) in
              rw (one, more)
                (ap (drop 1) (sym (drop-append k xs (x ∷ []) (omega arith)))
                  ∙ drop-one k (xs ++ x ∷ [])))
      ]

module _ (window : ℕ) where
  record_all_turns-from :
      (s : SessionContext) (before : List CommandTurn) (later : List Recorded)
      → s.history_window ≡ window
      → s.history ≡ last_n window before
      → ((record_all_turns s later).history ≡ last_n window (before ++ map turn_of later))
        × ((record_all_turns s later).command_count ≡ s.command_count + length later)
  unfolding record_all_turns record_turn
  record_all_turns-from s before [] w h =
      (h ∙ ap (last_n window) (sym (append-none before)), omega arith)
  record_all_turns-from s before (r ∷ later) w h =
      let s' = record_turn s r.command r.response r.source r.latency_ms r.now in
      let first : s'.history ≡ last_n window (before ++ turn_of r ∷ []) =
        rw (w, h) (append_bounded-last_n window before (turn_of r)) in
      let (kept, counted) = record_all_turns-from s' (before ++ turn_of r ∷ []) later w first in
      (
        kept ∙ ap (last_n window) (append-one before (turn_of r) (map turn_of later)),
        omega (arith, counted),
      )

-- After any commands, the history of a new session is the last of them, as many as its window
-- holds, in order; the counter has counted all of them.
pub record_all_turns-window :
    (s : SessionContext) (later : List Recorded)
    → s.history ≡ []
    → s.command_count ≡ 0
    → ((record_all_turns s later).history ≡ last_n s.history_window (map turn_of later))
      × ((record_all_turns s later).command_count ≡ length later)
record_all_turns-window s later fresh uncounted =
    let (kept, counted) =
      record_all_turns-from s.history_window s [] later refl
        (fresh ∙ sym (drop-none s.history_window)) in
    (kept, omega (arith, counted, uncounted))
