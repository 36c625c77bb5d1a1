-- ===== src/Audit/Shipper/Trail/Ships.antt =====
-- What the collector holds after any run of the writer and the shipper.
use mathlib.Core.List.{append-nil, append_assoc}
use anglerfish_ai.Base.{
  ℕ, ◌≤◌, ◌≡◌, refl, sym, ap, ◌∙◌, Bool, true, inl, inr, Option, none, some, List, [], ◌∷◌, ◌++◌,
  all, all-append, Bool-cases,
}
use anglerfish_ai.Base.Dict.{Dict}
use anglerfish_ai.Base.Text.{Text}
use anglerfish_ai.Audit.Lines.{Bytes, encode, is_line}
use anglerfish_ai.Audit.Log.{clashes, stamped}
use anglerfish_ai.Audit.Shipper.{
  LogFile, Answer, Config, Shipping, load_offset, is_accepted, ship_round,
}
use anglerfish_ai.Audit.Shipper.Trail.{
  Step, write, cycle, fresh, line_if, lines_of, recorded, write_log, after_step, run,
  written-encode, PrintsLines,
}
use anglerfish_ai.Audit.Shipper.Delivery.{sent}
use anglerfish_ai.Audit.Shipper.Cycle.{
  file_of, IsSynced, ship_pending-IsCycled, ship_pending_switched_off,
}

module _ {V : Type 0} (of_text : Text → V) (dumps : Dict Text V → Option Bytes) where
  module _ (prints : PrintsLines of_text dumps) where
    line_if-lines :
        (writable : Bool) (entry : Dict Text V)
        → all is_line (line_if writable (dumps entry)) ≡ true
    line_if-lines writable entry = go (dumps entry) (λ payload e. prints entry payload e)
      where
        go :
            (printed : Option Bytes)
            → ((payload : Bytes) → printed ≡ some payload → is_line payload ≡ true)
            → all is_line (line_if writable printed) ≡ true
        go none h = refl
        go (some payload) h = elim (Bool-cases writable) [
          | inl yes_it ↦ rw (yes_it, h payload refl) refl
          | inr no_it ↦ rw no_it refl
        ]

    lines_of-lines : (step : Step V) → all is_line (lines_of of_text dumps step) ≡ true
    lines_of-lines cycle = refl
    lines_of-lines (write now writable [] fields) = refl
    lines_of-lines (write now writable (c ∷ kind) fields) = elim (Bool-cases (clashes fields)) [
      | inl clash ↦ rw clash refl
      | inr free ↦ rw free (line_if-lines writable (stamped of_text dumps now (c ∷ kind) fields))
    ]

    IsAt-grows :
        (inode : ℕ) (delivered waiting more : List Bytes) (w : Shipping)
        (synced : IsSynced inode delivered waiting w) (log : Option LogFile)
        → log ≡ some (file_of inode ((delivered ++ waiting) ++ more))
        → all is_line more ≡ true
        → IsSynced inode delivered (waiting ++ more) (record w { log = log })
    IsAt-grows inode delivered waiting more w synced log same filled = record {
      same_log =
          same ∙ ap (λ lines. some (file_of inode lines)) (append_assoc delivered waiting more);
      lines = all-append is_line waiting more synced.lines filled;
      bytes = synced.bytes;
      saved = synced.saved;
      loaded = synced.loaded;
      place = synced.place;
    }

    module _ (answer : ℕ → Answer) (c : Config) (some_size : 1 ≤ c.batch_max_records) where
      -- What is known of the log after some steps.
      record IsTrail (inode : ℕ) (lines : List Bytes) (w : Shipping) : Type 0 where
        delivered : List Bytes
        waiting : List Bytes
        split : lines ≡ delivered ++ waiting
        synced : IsSynced inode delivered waiting w

      after_cycle :
          (inode : ℕ) (delivered waiting : List Bytes) (w : Shipping)
          → IsSynced inode delivered waiting w
          → IsTrail inode (delivered ++ waiting) (ship_round answer true c w)
      unfolding ship_round
      after_cycle inode delivered waiting w synced = elim (Bool-cases c.has_url) [
        | inl url ↦
            let (r, returned, cycled) =
              ship_pending-IsCycled answer c some_size inode delivered waiting w url synced in
            rw returned (record {
              delivered = delivered ++ cycled.kept;
              waiting = cycled.left;
              split =
                  ap (λ lines. delivered ++ lines) cycled.split
                  ∙ sym (append_assoc delivered cycled.kept cycled.left);
              synced = cycled.synced;
            })
        | inr off ↦
            rw (ship_pending_switched_off answer c w off)
              (record { delivered = delivered; waiting = waiting; split = refl; synced = synced })
      ]

      after_step-IsTrail :
          (inode : ℕ) (lines : List Bytes) (step : Step V) (w : Shipping)
          → IsTrail inode lines w
          → IsTrail inode
              (lines ++ lines_of of_text dumps step)
              (after_step of_text dumps answer c step w)
      after_step-IsTrail inode lines cycle w t =
          rw (append-nil lines, t.split) (after_cycle inode t.delivered t.waiting w t.synced)
      after_step-IsTrail inode lines (write now writable kind fields) w t =
          let step = write now writable kind fields in
          record {
            delivered = t.delivered;
            waiting = t.waiting ++ lines_of of_text dumps step;
            split = rw (t.split) (append_assoc t.delivered t.waiting (lines_of of_text dumps step));
            synced =
                IsAt-grows inode t.delivered t.waiting (lines_of of_text dumps step) w t.synced
                  (write_log of_text dumps answer c now writable kind fields w.log)
                  (rw t.synced.same_log (
                    ap some (
                      written-encode of_text dumps inode now writable kind fields
                        (t.delivered ++ t.waiting))))
                  (lines_of-lines step);
          }

      run-IsTrail :
          (inode : ℕ) (lines : List Bytes) (steps : List (Step V)) (w : Shipping)
          → IsTrail inode lines w
          → IsTrail inode
              (lines ++ recorded of_text dumps steps)
              (run of_text dumps answer c steps w)
      run-IsTrail inode lines [] w t = rw (append-nil lines) t
      run-IsTrail inode lines (step ∷ steps) w t =
          rw (← append_assoc lines (lines_of of_text dumps step) (recorded of_text dumps steps)) (
            run-IsTrail inode (lines ++ lines_of of_text dumps step) steps
              (after_step of_text dumps answer c step w) (after_step-IsTrail inode lines step w t))

      fresh-IsTrail : (inode : ℕ) → IsTrail inode [] (fresh inode)
      unfolding load_offset
      fresh-IsTrail inode = record {
        delivered = [];
        waiting = [];
        split = refl;
        synced = record {
          same_log = refl;
          lines = refl;
          bytes = refl;
          saved = record { inode = none; pos = 0 };
          loaded = refl;
          place = inr (refl, refl);
        };
      }

      run-cycle :
          (steps : List (Step V)) (w : Shipping)
          → run of_text dumps answer c (steps ++ (cycle ∷ [])) w
            ≡ ship_round answer true c (run of_text dumps answer c steps w)
      run-cycle [] w = refl
      run-cycle (step ∷ steps) w = run-cycle steps (after_step of_text dumps answer c step w)

      after_whole :
          (inode : ℕ) (delivered waiting : List Bytes) (w : Shipping)
          → c.has_url ≡ true
          → ((n : ℕ) → is_accepted (answer n) ≡ true)
          → IsSynced inode delivered waiting w
          → sent (ship_round answer true c w).posts ≡ encode (delivered ++ waiting)
      unfolding ship_round
      after_whole inode delivered waiting w url always synced =
          let (r, returned, cycled) =
            ship_pending-IsCycled answer c some_size inode delivered waiting w url synced in
          rw returned (
            cycled.synced.bytes
            ∙ ap (λ lines. encode (delivered ++ lines))
                (sym (cycled.split ∙ rw (cycled.whole always) (append-nil cycled.kept))))

      -- However recording and shipping follow each other, and whichever requests the collector
      -- accepts, the bodies that it has accepted are together the first lines recorded, each once and
      -- in order. Every line that `json.dumps` gives is a line with something in it, a batch has room
      -- for a record, the offset can be saved, and the log was empty when it began.
      pub run-ships :
          (inode : ℕ) (steps : List (Step V))
          → (delivered : List Bytes) × (waiting : List Bytes) × (recorded of_text dumps steps
              ≡ delivered ++ waiting)
            × (sent (run of_text dumps answer c steps (fresh inode)).posts ≡ encode delivered)
      run-ships inode steps =
          let t = run-IsTrail inode [] steps (fresh inode) (fresh-IsTrail inode) in
          (t.delivered, t.waiting, t.split, t.synced.bytes)

      -- One more cycle with a URL, if the collector accepts every request, has it hold all that was
      -- recorded, under the same conditions.
      pub run-ships_all :
          c.has_url ≡ true
          → ((n : ℕ) → is_accepted (answer n) ≡ true)
          → (inode : ℕ) (steps : List (Step V))
          → sent (run of_text dumps answer c (steps ++ (cycle ∷ [])) (fresh inode)).posts
            ≡ encode (recorded of_text dumps steps)
      run-ships_all url always inode steps =
          let t = run-IsTrail inode [] steps (fresh inode) (fresh-IsTrail inode) in
          ap (λ (v : Shipping). sent v.posts) (run-cycle steps (fresh inode))
          ∙ after_whole inode t.delivered t.waiting (run of_text dumps answer c steps (fresh inode))
              url always t.synced
          ∙ ap encode (sym t.split)
