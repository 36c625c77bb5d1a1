-- ===== src/Dashboard/Tailer/Replay.antt =====
-- What a batch that fails again and again does to the stored turns.
use mathlib.Core.Path.{subst}
use mathlib.Core.List.{append-nil, append_assoc}
use anglerfish_ai.Base.{
  ℕ, zero, suc, ◌+◌, ◌≡◌, refl, sym, ap, ◌∙◌, Bool, false, Option, some, List, [], ◌∷◌, ◌++◌, ◌==◌,
  length, drop, number_key, arith,
}
use anglerfish_ai.Base.Dict
use anglerfish_ai.Base.Text.{Text, text}
use anglerfish_ai.Base.Result.{Exception, Result, ok, raise}
use anglerfish_ai.Bridge.Session.{CommandTurn, ResponseSource}
use anglerfish_ai.Dashboard.Sessions.{State}
use anglerfish_ai.Dashboard.Tailer.{Tailer, turn_of, handle_command, dispatch_event}
use anglerfish_ai.Dashboard.Tailer.Events.{
  Event, Enrichment, command, enriched, to_session, str_field, route,
}
use anglerfish_ai.Audit.Lines.{Bytes, complete_part, rfind_newline}
use anglerfish_ai.Audit.Reader.{Parsed}
use anglerfish_ai.Dashboard.Tailer.Poll.{
  LogView, readable, parse_lines, byte_lines, rotated, dispatch_complete, read_new, poll_once,
  Polling, parse_each, dispatch_all, poll_all,
}
use anglerfish_ai.Dashboard.Tailer.Turns.{on_accumulator-Adds}
use anglerfish_ai.Dashboard.Tailer.Follows.{turns_at, IsInStep, Adds}

abbrev pub copies : ℕ → CommandTurn → List CommandTurn
copies zero turn = []
copies (suc n) turn = turn ∷ copies n turn

abbrev pub repeated : ℕ → LogView → List LogView
repeated zero view = []
repeated (suc n) view = view ∷ repeated n view

module _ (fails : ℕ → Bool) (never : (n : ℕ) → fails n ≡ false) (now : ℕ)
    (fromisoformat : Text → Option ℕ) (uuid : Text → Option ℕ)
    (enrich : Enrichment → Option ℕ → Event → State → State × Result (Unit {0})) where
  abbrev dispatch_here : Event → Tailer → Tailer × Result (Unit {0})
  dispatch_here event t = dispatch_event fails now fromisoformat uuid enrich event t

  command-Adds :
      (sid : ℕ) (event : Event) (source : ResponseSource) (c : ℕ) (s : Text) (t : Tailer)
      → route uuid event ≡ to_session (command source) sid
      → str_field event (text "command") [] ≡ c ∷ s
      → IsInStep (turns_at sid t) (Dict.get sid t.accumulators)
      → Adds sid (turn_of now fromisoformat event (c ∷ s) source ∷ []) t (dispatch_here event t)
  unfolding dispatch_event handle_command
  command-Adds sid event source c s t goes has in_step =
      rw (goes, has)
        (on_accumulator-Adds fails never now fromisoformat uuid enrich sid event
          (turn_of now fromisoformat event (c ∷ s) source) t (Dict.get sid t.accumulators) in_step)

  enriched_raises :
      (kind : Enrichment) (sid : ℕ) (bad : Event) (x : Exception) (t : Tailer)
      → route uuid bad ≡ to_session (enriched kind) sid
      → ((s : State) → enrich kind (some sid) bad s ≡ (s, raise x))
      → dispatch_here bad t ≡ (t, raise x)
  unfolding dispatch_event
  enriched_raises kind sid bad x t goes raises = rw (goes, raises t.state) refl

  module _ (loads : Bytes → Result (Parsed Event)) (content : Bytes) (event bad : Event)
      (events : parse_lines loads (complete_part content) ≡ ok (event ∷ bad ∷ [])) (sid : ℕ)
      (source : ResponseSource) (c : ℕ) (s : Text)
      (goes : route uuid event ≡ to_session (command source) sid)
      (has : str_field event (text "command") [] ≡ c ∷ s) (other : ℕ) (kind : Enrichment)
      (x : Exception) (bad_goes : route uuid bad ≡ to_session (enriched kind) other)
      (raises : (state : State) → enrich kind (some other) bad state ≡ (state, raise x)) where
    abbrev turn : CommandTurn
    turn = turn_of now fromisoformat event (c ∷ s) source

    abbrev poll_here : Polling Tailer → Polling Tailer
    poll_here p = poll_once loads dispatch_here (readable content) p

    dispatch_two :
        (t : Tailer)
        → (dispatch_here event t).1 ≡ ok tt
        → dispatch_all loads dispatch_here (event ∷ bad ∷ []) t
          ≡ ((dispatch_here event t).0, raise x)
    unfolding dispatch_all
    dispatch_two t returned =
        rw
          (
            pair_of returned,
            enriched_raises kind other bad x (dispatch_here event t).0 bad_goes raises,
          )
          refl
      where
        pair_of :
            (dispatch_here event t).1 ≡ ok tt
            → dispatch_here event t ≡ ((dispatch_here event t).0, ok tt)
        pair_of e = ap (λ result. ((dispatch_here event t).0, result)) e

    abbrev failed : Polling Tailer → Polling Tailer
    failed p = record p {
      state = (dispatch_here event p.state).0;
      consecutive_failures = p.consecutive_failures + 1;
    }

    complete_failing :
        (blob : Bytes) (p : Polling Tailer)
        → parse_lines loads blob ≡ ok (event ∷ bad ∷ [])
        → (dispatch_here event p.state).1 ≡ ok tt
        → dispatch_complete loads dispatch_here blob p ≡ failed p
    unfolding parse_lines parse_each byte_lines
    complete_failing [] p two returned = cc
    complete_failing (d ∷ ds) p two returned = rw (two, dispatch_two p.state returned) refl

    read_failing :
        (bytes : Bytes) (p : Polling Tailer)
        → parse_lines loads (complete_part bytes) ≡ ok (event ∷ bad ∷ [])
        → p.offset ≡ 0
        → (dispatch_here event p.state).1 ≡ ok tt
        → read_new loads dispatch_here bytes p ≡ failed p
    unfolding parse_lines parse_each byte_lines complete_part rfind_newline
    read_failing [] p two at returned = cc
    read_failing (d ∷ ds) p two at returned = rw (longer (length ds)) (
        ap (λ k. dispatch_complete loads dispatch_here (complete_part (drop k (d ∷ ds))) p) at
        ∙ complete_failing (complete_part (d ∷ ds)) p two returned)
      where
        longer : (n : ℕ) → (suc n == p.offset) ≡ false
        longer n = ground arith

    poll_failing :
        (p : Polling Tailer)
        → p.offset ≡ 0
        → (dispatch_here event p.state).1 ≡ ok tt
        → poll_here p ≡ failed p
    unfolding poll_once
    poll_failing p at returned =
        ap (read_new loads dispatch_here content) (not_rotated (length content))
        ∙ read_failing content p events at returned
      where
        not_rotated : (size : ℕ) → rotated loads dispatch_here size p ≡ p
        not_rotated size = ground arith

    abbrev IsRepeated : ℕ → Polling Tailer → Polling Tailer → Type 0
    IsRepeated n before q =
        (turns_at sid q.state ≡ turns_at sid before.state ++ copies n turn)
        × (q.offset ≡ 0)
        × (q.consecutive_failures ≡ before.consecutive_failures + n)

    copies-append :
        (n : ℕ) (turns : List CommandTurn)
        → (turns ++ (turn ∷ [])) ++ copies n turn ≡ turns ++ copies (suc n) turn
    copies-append n turns = append_assoc turns (turn ∷ []) (copies n turn)

    -- A batch whose first event is a command and whose second raises, as the event of an intent does
    -- whose session has no row, is dispatched again at every poll: after `n` polls of a log that does
    -- not change, the command's turn is stored `n` times, the offset is still 0, and `n` failures are
    -- counted. The session's kept snapshot has the turns stored before, and no other statement fails.
    pub poll_all-repeats :
        (n : ℕ) (p : Polling Tailer)
        → p.offset ≡ 0
        → IsInStep (turns_at sid p.state) (Dict.get sid p.state.accumulators)
        → let after_polls =
            poll_all loads
              (dispatch_event fails now fromisoformat uuid enrich)
              (repeated n (readable content))
              p in
          (turns_at sid after_polls.state ≡ turns_at sid p.state ++ copies n turn)
          × (after_polls.offset ≡ 0)
          × (after_polls.consecutive_failures ≡ p.consecutive_failures + n)
    unfolding poll_all
    poll_all-repeats zero p at in_step = (sym (append-nil (turns_at sid p.state)), at, omega arith)
    poll_all-repeats (suc n) p at in_step =
        let a = command-Adds sid event source c s p.state goes has in_step in
        let (stored_n, still, failures) = poll_all-repeats n (failed p) at a.in_step in
        subst
          (λ q.
            IsRepeated (suc n) p (poll_all loads dispatch_here (repeated n (readable content)) q))
          (sym (poll_failing p at a.returned))
          ((
            stored_n
                ∙ ap (λ turns. turns ++ copies n turn) a.turns
                ∙ copies-append n (turns_at sid p.state),
            still,
            omega (arith, failures),
          ))
