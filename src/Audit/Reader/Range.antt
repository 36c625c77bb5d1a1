-- ===== src/Audit/Reader/Range.antt =====
-- A range read by stopping early is the range read by a filter.
use anglerfish_ai.Base.{
  ℕ, ◌≤◌, ◌≡◌, refl, sym, Bool, true, false, ◌&&◌, Option, none, some, List, [], ◌∷◌, leb, ltb,
  if◌then◌else◌, select, All, Bool-cases, inl, inr, arith,
}
use anglerfish_ai.Base.Text.{Text}
use anglerfish_ai.Audit.Lines.{Bytes}
use anglerfish_ai.Audit.Reader.{
  Parsed, Source, Stamp, TsField, parse_event_timestamp, range_step, range_loop, events_in_range,
  iter_events, iter_events_in_range,
}

-- The time is known and within the interval.
abbrev pub in_range : ℕ → ℕ → Option ℕ → Bool
in_range start end_ none = false
in_range start end_ (some t) = leb start t && leb t end_

-- The second time is not known, or not later than the first.
abbrev pub NotAfter : Option ℕ → Option ℕ → Type 0
NotAfter none later = Unit
NotAfter (some t) none = Unit
NotAfter (some t) (some u) = u ≤ t

module _ {E : Type 0} (ts : E → TsField) (fromisoformat : Text → Option Stamp) where
  abbrev pub stamp : E → Option ℕ
  stamp e = parse_event_timestamp ts fromisoformat e

  -- No event is followed by one with a later time.
  abbrev pub IsNewestFirst : List E → Type 0
  IsNewestFirst [] = Unit
  IsNewestFirst (e ∷ events) =
      All (λ later. NotAfter (stamp e) (stamp later)) events × IsNewestFirst events

  abbrev pub is_wanted : ℕ → ℕ → E → Bool
  is_wanted start end_ e = in_range start end_ (stamp e)

  older_out :
      (start end_ t : ℕ) (events : List E)
      → ltb t start ≡ true
      → All (λ later. NotAfter (some t) (stamp later)) events
      → select (is_wanted start end_) events ≡ []
  older_out start end_ t [] old h = refl
  older_out start end_ t (e ∷ events) old h =
      rw (unwanted (stamp e) h.0) (older_out start end_ t events old h.1)
    where
      unwanted : (o : Option ℕ) → NotAfter (some t) o → in_range start end_ o ≡ false
      unwanted none k = refl
      unwanted (some u) k = ground arith

  nothing_wanted :
      (start end_ : ℕ) (events : List E)
      → ltb end_ start ≡ true
      → select (is_wanted start end_) events ≡ []
  nothing_wanted start end_ [] h = refl
  nothing_wanted start end_ (e ∷ events) h =
      rw (unwanted (stamp e)) (nothing_wanted start end_ events h)
    where
      unwanted : (o : Option ℕ) → in_range start end_ o ≡ false
      unwanted none = refl
      unwanted (some u) = ground arith

  step_lem :
      (start end_ : ℕ) (e : E) (o : Option ℕ) (events : List E)
      → All (λ later. NotAfter o (stamp later)) events
      → range_loop ts fromisoformat start end_ events ≡ select (is_wanted start end_) events
      → range_step ts fromisoformat start end_ e o (range_loop ts fromisoformat start end_ events)
        ≡ (if in_range start end_ o
            then e ∷ select (is_wanted start end_) events
            else select (is_wanted start end_) events)
  unfolding range_step
  step_lem start end_ e none events old ih = ih
  step_lem start end_ e (some t) events old ih = elim (Bool-cases (ltb t start)) [
    | inl past ↦ ground (arith, older_out start end_ t events past old)
    | inr recent ↦ ground arith
  ]

  range_loop-select :
      (start end_ : ℕ) (events : List E)
      → IsNewestFirst events
      → range_loop ts fromisoformat start end_ events ≡ select (is_wanted start end_) events
  unfolding range_loop
  range_loop-select start end_ [] h = refl
  range_loop-select start end_ (e ∷ events) h =
      go (stamp e) h.0 (range_loop-select start end_ events h.1)
    where
      go :
          (o : Option ℕ)
          → All (λ later. NotAfter o (stamp later)) events
          → range_loop ts fromisoformat start end_ events ≡ select (is_wanted start end_) events
          → range_step ts fromisoformat start end_ e o
              (range_loop ts fromisoformat start end_ events)
            ≡ (if in_range start end_ o
                then e ∷ select (is_wanted start end_) events
                else select (is_wanted start end_) events)
      go o old ih = step_lem start end_ e o events old ih

  -- Where the log's times do not go back, the early stop loses nothing: the events read are those
  -- of the log whose time is known and lies from `start` to `end_`, in the log's order turned round.
  pub iter_events_in_range-select :
      (decode : Bytes → Text) (loads : Text → Parsed E) (source : Source) (start end_ : ℕ)
      → IsNewestFirst (iter_events decode loads none source)
      → iter_events_in_range decode loads ts fromisoformat source start end_
        ≡ select (is_wanted start end_) (iter_events decode loads none source)
  unfolding iter_events_in_range events_in_range
  iter_events_in_range-select decode loads source start end_ h =
      elim (Bool-cases (ltb end_ start)) [
        | inl empty ↦
            rw empty (sym (nothing_wanted start end_ (iter_events decode loads none source) empty))
        | inr some_range ↦
            rw some_range (range_loop-select start end_ (iter_events decode loads none source) h)
      ]
