-- ===== src/Audit/Shipper.antt =====
-- src/anglerfish/audit_shipper.py: the audit log goes to a collector, from a saved offset. The
-- collector is a function of the number of requests made so far.
mod Delivery
mod Cycle
mod Trail
mod Tests
use anglerfish_ai.Base.{
  ℕ, zero, suc, ◌+◌, Bool, true, false, ◌&&◌, Option, none, some, List, [], ◌∷◌, ◌++◌, ◌==◌, leb,
  ltb, if◌then◌else◌, length, take, drop, select,
}
use anglerfish_ai.Base.Result.{Result, ok, raise, unexpected, ◌>>=◌}
use anglerfish_ai.Audit.Lines.{Bytes, newline, complete_part, split_lines, is_filled}

pub record Offset : Type 0 where
  pub inode : Option ℕ
  pub pos : ℕ

-- What the offset file holds: nothing that can be read as an offset, a JSON value that is no object,
-- or an offset.
pub data OffsetFile : Type 0 where
  unreadable other_json : OffsetFile
  document : Offset → OffsetFile

pub record LogFile : Type 0 where
  pub inode : ℕ
  pub content : Bytes

-- How a request ends.
pub data Answer : Type 0 where
  status : ℕ → Answer
  http_error : Answer

pub record Config : Type 0 where
  pub has_url : Bool
  pub batch_max_records : ℕ

-- The two files, and each request made so far with whether it was accepted.
pub record Shipping : Type 0 where
  pub log : Option LogFile
  pub offset_file : OffsetFile
  pub posts : List (Bytes × Bool)

-- Slices of `size` items; with `size` from 1, as the configuration has it, the number of items is fuel
-- enough. The source raises at a size of 0.
unfoldable pub batches_within : ℕ → ℕ → List Bytes → List (List Bytes)
batches_within fuel size [] = []
batches_within zero size (line ∷ lines) = []
batches_within (suc fuel) size (line ∷ lines) =
    take size (line ∷ lines) ∷ batches_within fuel size (drop size (line ∷ lines))

unfoldable pub batches : List Bytes → ℕ → List (List Bytes)
unfolding batches_within
batches items size = batches_within (length items) size items

unfoldable pub load_offset : OffsetFile → Result Offset
load_offset unreadable = ok (record { inode = none; pos = 0 })
load_offset other_json = raise unexpected
load_offset (document offset) = ok offset

-- A failed write is logged, and leaves what was there.
unfoldable pub save_offset : Bool → Offset → Shipping → Shipping
save_offset writable offset w = if writable then record w { offset_file = document offset } else w

-- The complete lines behind `start`. The source returns the offset behind them too, which its one
-- caller drops.
unfoldable pub read_complete_lines : Bytes → ℕ → List Bytes
read_complete_lines content start =
    select is_filled (split_lines (complete_part (drop start content)))

-- `b"\n".join(batch) + b"\n"`
unfoldable pub body_of : List Bytes → Bytes
body_of [] = newline ∷ []
body_of (line ∷ []) = line ++ (newline ∷ [])
body_of (line ∷ next ∷ lines) = line ++ (newline ∷ body_of (next ∷ lines))

unfoldable pub is_accepted : Answer → Bool
is_accepted (status code) = leb 200 code && ltb code 300
is_accepted http_error = false

-- `sum(len(line) + 1 for line in batch)`
unfoldable pub advance_of : List Bytes → ℕ
advance_of [] = 0
advance_of (line ∷ lines) = (length line + 1) + advance_of lines

abbrev pub inode_is : Option ℕ → ℕ → Bool
inode_is none n = false
inode_is (some m) n = m == n

-- Where a cycle starts: at the saved offset if the file is the same and not cut short.
unfoldable pub start_of : Offset → LogFile → ℕ
start_of saved file =
    if inode_is saved.inode file.inode && leb saved.pos (length file.content) then saved.pos else 0

module _ (answer : ℕ → Answer) (writable : Bool) where
  unfoldable pub post : List Bytes → Shipping → Bool × Shipping
  unfolding body_of
  post batch w =
      let accepted = is_accepted (answer (length w.posts)) in
      (accepted, record w { posts = w.posts ++ ((body_of batch, accepted) ∷ []) })

  -- The loop over the batches, which stops at the first that is not accepted.
  unfoldable pub ship_batches : ℕ → List (List Bytes) → ℕ → ℕ → Shipping → ℕ × Shipping
  ship_batches inode [] pos shipped w = (shipped, w)
  ship_batches inode (batch ∷ rest) pos shipped w =
      let (accepted, posted) = post batch w in
      let pos' = pos + advance_of batch in
      let saved = save_offset writable (record { inode = some inode; pos = pos' }) posted in
      let more = ship_batches inode rest pos' (shipped + length batch) saved in
      if accepted then more else (shipped, posted)

  unfoldable pub ship_lines : Config → LogFile → ℕ → List Bytes → Shipping → ℕ × Shipping
  ship_lines c file start [] w =
      (0, save_offset writable (record { inode = some file.inode; pos = start }) w)
  ship_lines c file start (line ∷ lines) w =
      ship_batches file.inode (batches (line ∷ lines) c.batch_max_records) start 0 w

  unfoldable pub ship_from : Config → LogFile → Offset → Shipping → ℕ × Shipping
  ship_from c file saved w =
      let start = start_of saved file in
      ship_lines c file start (read_complete_lines file.content start) w

  unfoldable pub ship_log : Config → Option LogFile → Shipping → Result (ℕ × Shipping)
  ship_log c none w = ok (0, w)
  ship_log c (some file) w = do saved ← load_offset w.offset_file; ok (ship_from c file saved w)

  unfoldable pub ship_pending : Config → Shipping → Result (ℕ × Shipping)
  ship_pending c w = if c.has_url then ship_log c w.log w else ok (0, w)

  -- One round of `run_forever`, which logs an exception and goes on.
  abbrev pub after_round : Shipping → Result (ℕ × Shipping) → Shipping
  after_round w (raise e) = w
  after_round w (ok (count, after)) = after

  unfoldable pub ship_round : Config → Shipping → Shipping
  ship_round c w = after_round w (ship_pending c w)
