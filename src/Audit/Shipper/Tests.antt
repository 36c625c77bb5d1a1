-- ===== src/Audit/Shipper/Tests.antt =====
-- Runs of the shipper, and its properties at concrete inputs.
use anglerfish_ai.Base.{
  ℕ, ◌≡◌, refl, true, Option, some, List, [], ◌∷◌, ◌++◌, ◌==◌, if◌then◌else◌, text_key, arith,
}
use anglerfish_ai.Base.Dict.{Dict}
use anglerfish_ai.Base.Text.{Text, text}
use anglerfish_ai.Base.Result.{ok}
use anglerfish_ai.Audit.Lines.{Bytes, encode, rfind_newline, complete_part, split_lines}
use anglerfish_ai.Audit.Log.{is_reserved, clashes, record_event}
use anglerfish_ai.Audit.Shipper
use anglerfish_ai.Audit.Shipper.{
  Answer, status, http_error, Config, Shipping, unreadable, document, is_accepted, ship_pending,
}
use anglerfish_ai.Audit.Shipper.Delivery.{sent}
use anglerfish_ai.Audit.Shipper.Trail.{Step, write, cycle, fresh, recorded, run, PrintsLines}
use anglerfish_ai.Audit.Shipper.Trail.Ships.{run-ships, run-ships_all}

abbrev of_text : Text → Text
of_text s = s

abbrev dumps : Dict Text Text → Option Bytes
dumps entry = some (text "{}")

dumps-PrintsLines : PrintsLines of_text dumps
dumps-PrintsLines entry payload e = ground arith

-- The first request fails, later ones are accepted.
abbrev flaky : ℕ → Answer
flaky n = if n == 0 then http_error else status 200

abbrev steady : ℕ → Answer
steady n = status 202

steady-accepted : (n : ℕ) → is_accepted (steady n) ≡ true
unfolding is_accepted
steady-accepted n = refl

abbrev config : Config
config = record { has_url = true; batch_max_records = 2 }

abbrev steps : List (Step Text)
steps =
    write (text "1") true (text "a") []
    ∷ cycle
    ∷ write (text "2") true (text "b") []
    ∷ write (text "3") true (text "c") []
    ∷ cycle
    ∷ []

program : Unit {0}
unfolding Shipper.batches_within Shipper.batches Shipper.load_offset Shipper.save_offset
    Shipper.read_complete_lines Shipper.body_of Shipper.is_accepted Shipper.advance_of
    Shipper.start_of Shipper.post Shipper.ship_batches Shipper.ship_lines Shipper.ship_from
    Shipper.ship_log Shipper.ship_pending Shipper.ship_round rfind_newline complete_part split_lines
    record_event clashes is_reserved
program = tt

-- The refused line goes out again with the two that follow it.
refused_line_again :
    sent (run of_text dumps flaky config steps (fresh 7)).posts ≡ text "{}\n{}\n{}\n"
unfolding program
refused_line_again = refl

-- Two blank lines in front are not counted: the saved offset is inside the record that was sent, and
-- the next cycle sends the record's last byte as a record of its own.
abbrev blank_front : Shipping
blank_front = record {
  log = some (record { inode = 7; content = text "\n\nab\n" });
  offset_file = unreadable;
  posts = [];
}

blank_lines_lag :
    ship_pending steady true config blank_front
    ≡ ok (
      1,
      record blank_front {
        offset_file = document (record { inode = some 7; pos = 3 });
        posts = (text "ab\n", true) ∷ [];
      },
    )
unfolding program
blank_lines_lag = refl

blank_lines_fragment :
    ship_pending steady true config
      (record blank_front { offset_file = document (record { inode = some 7; pos = 3 }) })
    ≡ ok (
      1,
      record blank_front {
        offset_file = document (record { inode = some 7; pos = 5 });
        posts = (text "b\n", true) ∷ [];
      },
    )
unfolding program
blank_lines_fragment = refl

run-ships_example :
    (delivered : List Bytes) × (waiting : List Bytes) × (recorded of_text dumps steps
      ≡ delivered ++ waiting)
    × (sent (run of_text dumps flaky config steps (fresh 7)).posts ≡ encode delivered)
run-ships_example = run-ships of_text dumps dumps-PrintsLines flaky config (omega arith) 7 steps

run-ships_all_example :
    sent (run of_text dumps steady config (steps ++ (cycle ∷ [])) (fresh 7)).posts
    ≡ encode (recorded of_text dumps steps)
run-ships_all_example =
    run-ships_all of_text dumps dumps-PrintsLines steady config (omega arith) refl steady-accepted 7
      steps
