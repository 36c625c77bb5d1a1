-- ===== src/Audit/Shipper/Cycle.antt =====
-- One cycle of the shipper on a log whose first lines are sent.
use mathlib.Core.Path.{subst}
use mathlib.Core.List.{append-nil, append_assoc}
use anglerfish_ai.Base.{
  drop-length, ℕ, ◌+◌, ◌≤◌, ◌≡◌, refl, sym, ap, ◌∙◌, Bool, true, false, ◌⊎◌, inl, inr, some, List,
  [], ◌∷◌, ◌++◌, length, length-append, all, all-cons, number_iff, arith,
}
use anglerfish_ai.Base.Result.{ok}
use anglerfish_ai.Audit.Lines.{
  Bytes, encode, encode-append, is_line, no_newline, complete_part-encode, select-split-encode,
}
use anglerfish_ai.Audit.Shipper.{
  Offset, LogFile, Answer, Config, Shipping, batches, load_offset, save_offset, read_complete_lines,
  is_accepted, inode_is, start_of, ship_batches, ship_lines, ship_from, ship_log, ship_pending,
}
use anglerfish_ai.Audit.Shipper.Delivery.{
  sent, offset_at, flatten-batches_within, Progress, ship_batches-Progress,
}

abbrev pub file_of : ℕ → List Bytes → LogFile
file_of file_inode lines = record { inode = file_inode; content = encode lines }

-- The saved offset is at byte `n` of the file, or is of another file and `n` is its start.
abbrev pub IsAt : Offset → ℕ → ℕ → Type 0
IsAt saved inode n =
    ((inode_is saved.inode inode ≡ true) × (saved.pos ≡ n))
    ⊎ ((inode_is saved.inode inode ≡ false) × (n ≡ 0))

-- The collector has the lines `delivered`, and the log holds those and the lines `waiting`.
pub record IsSynced (inode : ℕ) (delivered waiting : List Bytes) (w : Shipping) : Type 0 where
  pub same_log : w.log ≡ some (file_of inode (delivered ++ waiting))
  pub lines : all is_line waiting ≡ true
  pub bytes : sent w.posts ≡ encode delivered
  pub saved : Offset
  pub loaded : load_offset w.offset_file ≡ ok saved
  pub place : IsAt saved inode (length (encode delivered))

-- Where all lines before the offset are sent, a read gives the lines behind it, and leaves a part of
-- a line for later.
pub read_complete_lines-encode :
    (delivered waiting : List Bytes) (rest : Bytes)
    → all is_line waiting ≡ true
    → all no_newline rest ≡ true
    → read_complete_lines (encode (delivered ++ waiting) ++ rest) (length (encode delivered))
      ≡ waiting
unfolding read_complete_lines
read_complete_lines-encode delivered waiting rest h k =
    rw
      (
        encode-append delivered waiting,
        append_assoc (encode delivered) (encode waiting) rest,
        drop-length (encode delivered) (encode waiting ++ rest),
        complete_part-encode waiting rest k,
      )
      (select-split-encode waiting h)

start_of-IsAt :
    (saved : Offset) (inode : ℕ) (delivered waiting : List Bytes)
    → IsAt saved inode (length (encode delivered))
    → start_of saved (file_of inode (delivered ++ waiting)) ≡ length (encode delivered)
unfolding start_of
start_of-IsAt saved inode delivered waiting place =
    rw (encode-append delivered waiting, length-append (encode delivered) (encode waiting))
      (ground arith)

-- After a cycle, the first `kept` of the waiting lines are delivered.
pub record IsCycled (answer : ℕ → Answer) (inode : ℕ) (delivered waiting : List Bytes)
    (r : ℕ × Shipping) : Type 0 where
  pub kept : List Bytes
  pub left : List Bytes
  pub split : waiting ≡ kept ++ left
  pub count : r.0 ≡ length kept
  pub synced : IsSynced inode (delivered ++ kept) left r.1
  pub whole : ((n : ℕ) → is_accepted (answer n) ≡ true) → left ≡ []

left_lines :
    (kept left waiting : List Bytes)
    → waiting ≡ kept ++ left
    → all is_line waiting ≡ true
    → all is_line left ≡ true
left_lines [] left waiting split h = ap (all is_line) (sym split) ∙ h
left_lines (line ∷ kept) left [] split h = cc
left_lines (line ∷ kept) left (first ∷ waiting) split h =
    left_lines kept left waiting (tail_same split) (all-cons is_line first waiting h).1
  where
    tail_same : first ∷ waiting ≡ line ∷ (kept ++ left) → waiting ≡ kept ++ left
    tail_same e = cc

module _ (answer : ℕ → Answer) (inode : ℕ) (delivered waiting : List Bytes) (w : Shipping)
    (synced : IsSynced inode delivered waiting w) where
  bytes_kept :
      (kept : List Bytes) (posts : List (Bytes × Bool))
      → sent posts ≡ sent w.posts ++ encode kept
      → sent posts ≡ encode (delivered ++ kept)
  bytes_kept kept posts e =
      e ∙ ap (λ s. s ++ encode kept) synced.bytes ∙ sym (encode-append delivered kept)

  place_kept :
      (shipped : ℕ) (r : ℕ × Shipping)
      (p : Progress answer inode (length (encode delivered)) shipped waiting w r)
      → (saved : Offset) × (load_offset r.1.offset_file ≡ ok saved)
        × IsAt saved inode (length (encode (delivered ++ p.kept)))
  unfolding load_offset
  place_kept shipped r p = elim p.place [
    | inl at_kept ↦ (
      record { inode = some inode; pos = length (encode delivered) + length (encode p.kept) },
      rw at_kept refl,
      inl ((number_iff inode inode).1 refl, sum p.kept),
    )
    | inr (none_kept, unmoved) ↦
        (synced.saved, rw unmoved synced.loaded, rw (none_kept, append-nil delivered) synced.place)
  ]
    where
      sum :
          (kept : List Bytes)
          → length (encode delivered) + length (encode kept) ≡ length (encode (delivered ++ kept))
      sum kept =
          rw (encode-append delivered kept) (sym (length-append (encode delivered) (encode kept)))

  Progress-IsCycled :
      (r : ℕ × Shipping)
      → Progress answer inode (length (encode delivered)) 0 waiting w r
      → IsCycled answer inode delivered waiting r
  Progress-IsCycled r p =
      let (saved, loaded, place) = place_kept 0 r p in
      record {
        kept = p.kept;
        left = p.left;
        split = p.split;
        count = omega (arith, p.count);
        synced = record {
          same_log =
              p.same_log
              ∙ synced.same_log
              ∙ ap (λ lines. some (file_of inode lines))
                  (ap (λ lines. delivered ++ lines) p.split
                    ∙ sym (append_assoc delivered p.kept p.left));
          lines = left_lines p.kept p.left waiting p.split synced.lines;
          bytes = bytes_kept p.kept r.1.posts p.bytes;
          saved = saved;
          loaded = loaded;
          place = place;
        };
        whole = p.whole;
      }

module _ (answer : ℕ → Answer) (c : Config) (some_size : 1 ≤ c.batch_max_records) where
  ship_lines-Progress :
      (file : LogFile) (start : ℕ) (lines : List Bytes) (w : Shipping)
      → Progress answer file.inode start 0 lines w (ship_lines answer true c file start lines w)
  unfolding ship_lines save_offset batches
  ship_lines-Progress file start [] w = record {
    kept = [];
    left = [];
    split = refl;
    bytes = sym (append-nil (sent w.posts));
    count = omega arith;
    same_log = refl;
    place = inl (ap (offset_at file.inode) (omega arith));
    whole = λ always. refl;
  }
  ship_lines-Progress file start (line ∷ lines) w =
      let (same, filled) =
        flatten-batches_within (length (line ∷ lines)) c.batch_max_records (line ∷ lines) some_size
          (omega arith) in
      subst
        (λ all_lines. Progress answer file.inode start 0 all_lines w (
          ship_batches answer true file.inode (batches (line ∷ lines) c.batch_max_records) start 0
            w))
        (same)
        (ship_batches-Progress answer file.inode start 0
          (batches (line ∷ lines) c.batch_max_records) w filled)

  ship_from-IsCycled :
      (inode : ℕ) (delivered waiting : List Bytes) (w : Shipping)
      (synced : IsSynced inode delivered waiting w)
      → IsCycled answer inode delivered waiting
          (ship_from answer true c (file_of inode (delivered ++ waiting)) synced.saved w)
  unfolding ship_from
  ship_from-IsCycled inode delivered waiting w synced =
      rw (start_of-IsAt synced.saved inode delivered waiting synced.place, read_all)
        (Progress-IsCycled answer inode delivered waiting w synced _ (
          ship_lines-Progress (file_of inode (delivered ++ waiting)) (length (encode delivered))
            waiting w))
    where
      read_all :
          read_complete_lines (encode (delivered ++ waiting)) (length (encode delivered)) ≡ waiting
      read_all =
          ap (λ content. read_complete_lines content (length (encode delivered)))
            (sym (append-nil (encode (delivered ++ waiting))))
          ∙ read_complete_lines-encode delivered waiting [] synced.lines refl

  -- A cycle with a URL returns how many of the waiting lines it has delivered, the first of them in
  -- order, and all of them if the collector accepts every request.
  pub ship_pending-IsCycled :
      (inode : ℕ) (delivered waiting : List Bytes) (w : Shipping)
      → c.has_url ≡ true
      → IsSynced inode delivered waiting w
      → (r : ℕ × Shipping) × (ship_pending answer true c w ≡ ok r)
        × IsCycled answer inode delivered waiting r
  unfolding ship_pending ship_log
  ship_pending-IsCycled inode delivered waiting w url synced = (
    ship_from answer true c (file_of inode (delivered ++ waiting)) synced.saved w,
    rw (url, synced.same_log, synced.loaded) refl,
    ship_from-IsCycled inode delivered waiting w synced,
  )

pub ship_pending_switched_off :
    (answer : ℕ → Answer) (c : Config) (w : Shipping)
    → c.has_url ≡ false
    → ship_pending answer true c w ≡ ok (0, w)
unfolding ship_pending
ship_pending_switched_off answer c w off = rw off refl
