-- ===== src/Dashboard/Fanout/Newest.antt =====
-- A subscriber that reads nothing keeps the newest events.
use mathlib.Core.List.{append-nil, append_assoc}
use anglerfish_ai.Base.{
  ℕ, ◌-◌, ◌≤◌, ◌≡◌, refl, sym, ap, ◌∙◌, Bool, true, List, [], ◌∷◌, ◌++◌, ltb, length, length-append,
  length-drop, drop, all, all-cons, ltb→lt, Bool-cases, inl, inr, arith,
}
use anglerfish_ai.Bridge.Session.{append_bounded}
use anglerfish_ai.Bridge.Session.History.{last_n, append_bounded-last_n}
use anglerfish_ai.Dashboard.Fanout.{Queue, offer, publish_to, publish_all}

module _ {A : Type 0} where
  drop-append_one :
      (items : List A) (event : A)
      → 1 ≤ length items
      → drop 1 (items ++ (event ∷ [])) ≡ drop 1 items ++ (event ∷ [])
  drop-append_one [] event h = elim h [ ]
  drop-append_one (x ∷ items) event h = refl

  offer-append_bounded :
      (event : A) (size : ℕ) (items : List A)
      → 1 ≤ size
      → length items ≤ size
      → offer event (record { maxsize = size; items = items })
        ≡ record { maxsize = size; items = append_bounded size items event }
  unfolding offer append_bounded
  offer-append_bounded event size items room fits =
      let longer = length-append items (event ∷ []) in
      elim (Bool-cases (ltb (length items) size)) [
        | inl free ↦
            let kept : length (items ++ (event ∷ [])) - size ≡ 0 = ground (arith, longer) in
            rw (free, kept) refl
        | inr full ↦
            let one : length (items ++ (event ∷ [])) - size ≡ 1 = ground (arith, longer) in
            let filled : 1 ≤ length items = ground arith in
            let again : ltb (length (drop 1 items)) size ≡ true =
              ground (arith, length-drop 1 items) in
            rw (full, again, one)
              (ap (λ kept. record { maxsize = size; items = kept })
                (sym (drop-append_one items event filled)))
      ]

  length-last_n-le : (n : ℕ) (xs : List A) → length (last_n n xs) ≤ n
  length-last_n-le n xs = omega (arith, length-drop (length xs - n) xs)

  -- What `events` leave in the queue of a subscriber that had seen `before` and reads nothing.
  abbrev pub newest : ℕ → List A → Queue A
  newest size events = record { maxsize = size; items = last_n size events }

  offer-newest :
      (event : A) (size : ℕ) (before : List A)
      → 1 ≤ size
      → offer event (newest size before) ≡ newest size (before ++ (event ∷ []))
  offer-newest event size before room =
      offer-append_bounded event size (last_n size before) room (length-last_n-le size before)
      ∙ ap (λ kept. record { maxsize = size; items = kept })
          (append_bounded-last_n size before event)

  -- Subscribers by the sizes of their queues and the events they had seen.
  abbrev pub queues_of : List (ℕ × List A) → List (Queue A)
  queues_of [] = []
  queues_of ((size, before) ∷ subscribers) = newest size before ∷ queues_of subscribers

  abbrev pub with_events : List A → List (ℕ × List A) → List (ℕ × List A)
  with_events events [] = []
  with_events events ((size, before) ∷ subscribers) =
      (size, before ++ events) ∷ with_events events subscribers

  abbrev pub has_room : ℕ × List A → Bool
  has_room (size, before) = ltb 0 size

  publish_to-queues :
      (event : A) (subscribers : List (ℕ × List A))
      → all has_room subscribers ≡ true
      → publish_to event (queues_of subscribers) ≡ queues_of (with_events (event ∷ []) subscribers)
  unfolding publish_to
  publish_to-queues event [] h = refl
  publish_to-queues event ((size, before) ∷ subscribers) h =
      let (here, rest) = all-cons has_room (size, before) subscribers h in
      rw
        (
          offer-newest event size before (ltb→lt 0 size here),
          publish_to-queues event subscribers rest,
        )
        refl

  with_events-room :
      (events : List A) (subscribers : List (ℕ × List A))
      → all has_room subscribers ≡ true
      → all has_room (with_events events subscribers) ≡ true
  with_events-room events [] h = refl
  with_events-room events ((size, before) ∷ subscribers) h =
      ground (arith, with_events-room events subscribers)

  with_events-append :
      (events later : List A) (subscribers : List (ℕ × List A))
      → with_events later (with_events events subscribers)
        ≡ with_events (events ++ later) subscribers
  with_events-append events later [] = refl
  with_events-append events later ((size, before) ∷ subscribers) =
      rw (append_assoc before events later, with_events-append events later subscribers) refl

  with_no_events : (subscribers : List (ℕ × List A)) → with_events [] subscribers ≡ subscribers
  with_no_events [] = refl
  with_no_events ((size, before) ∷ subscribers) =
      rw (append-nil before, with_no_events subscribers) refl

  -- After any events, the queue of every subscriber holds the newest of all events that it was sent,
  -- in order and as many as its size, whichever other subscribers are full. Every queue has room for
  -- an event, and no subscriber reads in between.
  pub publish_all-newest :
      (events : List A) (subscribers : List (ℕ × List A))
      → all has_room subscribers ≡ true
      → publish_all events (queues_of subscribers) ≡ queues_of (with_events events subscribers)
  unfolding publish_all
  publish_all-newest [] subscribers h = ap queues_of (sym (with_no_events subscribers))
  publish_all-newest (event ∷ events) subscribers h =
      ap (publish_all events) (publish_to-queues event subscribers h)
      ∙ publish_all-newest events (with_events (event ∷ []) subscribers)
          (with_events-room (event ∷ []) subscribers h)
      ∙ ap queues_of (with_events-append (event ∷ []) events subscribers)
