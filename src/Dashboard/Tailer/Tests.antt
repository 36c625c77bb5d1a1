-- ===== src/Dashboard/Tailer/Tests.antt =====
-- Runs of the tailer, and its properties at concrete inputs.
use anglerfish_ai.Base.{
  ℕ, ◌+◌, ◌≡◌, refl, Bool, false, Option, none, some, List, [], ◌∷◌, ◌++◌, ◌==◌, if◌then◌else◌,
  length, text_key, number_key,
}
use anglerfish_ai.Base.Text.{Text, text}
use anglerfish_ai.Base.Result.{Result, ok, raise, value_error}
use anglerfish_ai.Audit.Lines.{Bytes, encode, complete_part, rfind_newline}
use anglerfish_ai.Audit.Reader.{Parsed, malformed, event}
use anglerfish_ai.Bridge.Session.{ai}
use anglerfish_ai.Dashboard.Sessions
use anglerfish_ai.Dashboard.Sessions.{State}
use anglerfish_ai.Dashboard.Tailer
use anglerfish_ai.Dashboard.Tailer.{Tailer, dispatch_event, turn_of}
use anglerfish_ai.Dashboard.Tailer.Events.{
  Event, string, Enrichment, intent_extracted, route, kind_of,
}
use anglerfish_ai.Dashboard.Tailer.Poll
use anglerfish_ai.Dashboard.Tailer.Poll.{Polling, readable, dispatch_all, parse_each, poll_all}
use anglerfish_ai.Dashboard.Tailer.Poll.Rounds.{Round, views, all_added, poll_all-dispatches}
use anglerfish_ai.Dashboard.Tailer.Follows.{turns_at}
use anglerfish_ai.Dashboard.Tailer.Stored.{new_tailer}
use anglerfish_ai.Dashboard.Tailer.Replay.{copies, repeated, poll_all-repeats}

abbrev session_event : Text → Event
session_event event_type =
    (text "event_type", string event_type)
    ∷ (text "session_id", string (text "s"))
    ∷ (text "command", string (text "id"))
    ∷ []

abbrev command_event : Event
command_event = session_event (text "lure.command_bridge")

abbrev intent_event : Event
intent_event = session_event (text "bridge.intent_extracted")

-- One letter a line: an opening, a command, an intent. The byte 255 is in no UTF-8.
abbrev loads : Bytes → Result (Parsed Event)
loads [] = ok malformed
loads (c ∷ s) =
    if c == 255
    then raise value_error
    else if c == 111
    then ok (event (session_event (text "lure.session_opened")))
    else if c == 99
    then ok (event command_event)
    else if c == 105
    then ok (event intent_event)
    else ok malformed

abbrev never_fails : ℕ → Bool
never_fails n = false

abbrev no_time : Text → Option ℕ
no_time s = none

abbrev uuid : Text → Option ℕ
uuid s = some 7

abbrev enrich : Enrichment → Option ℕ → Event → State → State × Result (Unit {0})
enrich kind sid e s = (s, ok tt)

-- A handler that always raises, as the table of intents does for a session without a row.
abbrev refuse : Enrichment → Option ℕ → Event → State → State × Result (Unit {0})
refuse kind sid e s = (s, raise value_error)

abbrev rounds : List Round
rounds =
    (text "o" ∷ text "c" ∷ [], text "c") ∷ ([], text "ci") ∷ (text "c" ∷ text "i" ∷ [], []) ∷ []

abbrev fresh : Polling Tailer
fresh = record { state = new_tailer; offset = 0; consecutive_failures = 0; cached = none }

program : Unit {0}
unfolding kind_of Tailer.put_snapshot Tailer.handle_opened Tailer.turn_of Tailer.push_turn
    Tailer.handle_command Tailer.handle_closed route Tailer.dispatch_event Poll.is_byte_space
    Poll.lstrip_bytes Poll.rstrip_bytes Poll.strip_bytes Poll.byte_lines Poll.parse_each
    Poll.parse_lines Poll.dispatch_all Poll.poll_once Poll.poll_all Sessions.statement
    Sessions.get_session Sessions.upsert_session Sessions.record_turn Sessions.record_turns
    Sessions.update_session Sessions.mark_ended Sessions.end_session complete_part rfind_newline
program = tt

two_commands :
    length (
      turns_at 7
        (poll_all loads
          (dispatch_event never_fails 3 no_time uuid enrich)
          (views [] rounds)
          fresh).state)
    ≡ 2
unfolding program
two_commands = refl

abbrev keep : Event → List Event → List Event × Result (Unit {0})
keep e events = (e ∷ events, ok tt)

abbrev idle : Polling (List Event)
idle = record { state = []; offset = 0; consecutive_failures = 0; cached = none }

abbrev told : List Event
told =
    session_event (text "lure.session_opened") ∷ command_event ∷ command_event ∷ intent_event ∷ []

told_runs : parse_each loads (all_added rounds) ≡ ok told
unfolding program
told_runs = refl

poll_all-dispatches_example :
    ((poll_all loads keep (views [] rounds) idle).state ≡ (dispatch_all loads keep told []).0)
    × ((poll_all loads keep (views [] rounds) idle).offset ≡ length (encode (all_added rounds)))
poll_all-dispatches_example =
    poll_all-dispatches loads keep (λ e events. refl) [] rounds told refl told_runs

poll_all-repeats_example :
    let after_polls =
      poll_all loads
        (dispatch_event never_fails 3 no_time uuid refuse)
        (repeated 4 (readable (text "c\ni\n")))
        fresh in
    (turns_at 7 after_polls.state
      ≡ turns_at 7 new_tailer ++ copies 4 (turn_of 3 no_time command_event (text "id") ai))
    × (after_polls.offset ≡ 0)
    × (after_polls.consecutive_failures ≡ 0 + 4)
unfolding program
poll_all-repeats_example =
    poll_all-repeats never_fails (λ n. refl) 3 no_time uuid refuse loads (text "c\ni\n")
      command_event intent_event refl 7 ai b'i' (text "d") refl refl 7 intent_extracted value_error
      refl (λ s. refl) 4 fresh refl refl

-- A line that is not UTF-8 stops the tailer: at each poll the offset stays, and neither the command in
-- front of the line nor the one behind it is dispatched.
undecodable_stays :
    poll_all loads keep (repeated 2 (readable (text "c\n" ++ 255 ∷ text "\nc\n"))) idle
    ≡ record idle { consecutive_failures = 2 }
unfolding program
undecodable_stays = refl
