-- ===== src/Audit/Shipper/Delivery.antt =====
-- What one cycle of the shipper sends, and where it leaves the offset.
use mathlib.Core.List.{append-nil, append_assoc}
use anglerfish_ai.Base.{
  ℕ, zero, suc, ◌+◌, ◌≤◌, ◌≡◌, refl, sym, ap, ◌∙◌, Bool, true, false, ◌⊎◌, inl, inr, some, List, [],
  ◌∷◌, ◌++◌, if◌then◌else◌, length, drop, length-append, length-drop, take-append-drop, all,
  all-cons, Bool-cases, arith,
}
use anglerfish_ai.Audit.Lines.{Bytes, newline, encode, encode-append}
use anglerfish_ai.Audit.Shipper.{
  OffsetFile, document, Answer, Shipping, batches_within, save_offset, body_of, is_accepted,
  advance_of, post, ship_batches,
}

-- The bodies that the collector accepted, one after another.
abbrev pub sent : List (Bytes × Bool) → Bytes
sent [] = []
sent ((body, accepted) ∷ posts) = if accepted then body ++ sent posts else sent posts

sent-append : (ps qs : List (Bytes × Bool)) → sent (ps ++ qs) ≡ sent ps ++ sent qs
sent-append [] qs = refl
sent-append ((body, true) ∷ ps) qs = rw (sent-append ps qs, append_assoc) refl
sent-append ((body, false) ∷ ps) qs = sent-append ps qs

abbrev pub flatten : List (List Bytes) → List Bytes
flatten [] = []
flatten (batch ∷ rest) = batch ++ flatten rest

abbrev pub is_batch : List Bytes → Bool
is_batch [] = false
is_batch (line ∷ lines) = true

body_of-encode : (batch : List Bytes) → is_batch batch ≡ true → body_of batch ≡ encode batch
unfolding body_of
body_of-encode [] h = cc
body_of-encode (line ∷ []) h = refl
body_of-encode (line ∷ next ∷ lines) h =
    ap (λ rest. line ++ (newline ∷ rest)) (body_of-encode (next ∷ lines) refl)

advance_of-length : (batch : List Bytes) → advance_of batch ≡ length (encode batch)
unfolding advance_of
advance_of-length [] = refl
advance_of-length (line ∷ lines) =
    omega (arith, advance_of-length lines, length-append line (newline ∷ encode lines))

pub flatten-batches_within :
    (fuel size : ℕ) (lines : List Bytes)
    → 1 ≤ size
    → length lines ≤ fuel
    → (flatten (batches_within fuel size lines) ≡ lines)
      × (all is_batch (batches_within fuel size lines) ≡ true)
unfolding batches_within
flatten-batches_within fuel size [] some_size enough = (refl, refl)
flatten-batches_within zero size (line ∷ lines) some_size enough = elim enough [ ]
flatten-batches_within (suc fuel) zero (line ∷ lines) some_size enough = elim some_size [ ]
flatten-batches_within (suc fuel) (suc n) (line ∷ lines) some_size enough =
    let (same, filled) =
      flatten-batches_within fuel (suc n) (drop n lines) some_size
        (omega (arith, length-drop n lines)) in
    (rw same (ap (◌∷◌ line) (take-append-drop n lines)), filled)

abbrev pub offset_at : ℕ → ℕ → OffsetFile
offset_at file_inode n = document (record { inode = some file_inode; pos = n })

moved :
    (pos : ℕ) (batch kept : List Bytes)
    → (pos + advance_of batch) + length (encode kept) ≡ pos + length (encode (batch ++ kept))
moved pos batch kept =
    rw (encode-append batch kept, length-append (encode batch) (encode kept))
      (omega (arith, advance_of-length batch))

unmoved_lem :
    (pos : ℕ) (batch kept : List Bytes)
    → kept ≡ []
    → pos + advance_of batch ≡ pos + length (encode (batch ++ kept))
unmoved_lem pos batch kept none_kept = rw none_kept (omega (arith, moved pos batch []))

module _ (answer : ℕ → Answer) where
  -- How far the loop over the batches has come: the first `kept` lines are sent, in order and once,
  -- and the offset stands behind them.
  pub record Progress (inode pos shipped : ℕ) (lines : List Bytes) (w : Shipping) (r : ℕ × Shipping)
      : Type 0 where
    pub kept : List Bytes
    pub left : List Bytes
    pub split : lines ≡ kept ++ left
    pub bytes : sent r.1.posts ≡ sent w.posts ++ encode kept
    pub count : r.0 ≡ shipped + length kept
    pub same_log : r.1.log ≡ w.log
    pub place :
        (r.1.offset_file ≡ offset_at inode (pos + length (encode kept)))
        ⊎ ((kept ≡ []) × (r.1.offset_file ≡ w.offset_file))
    pub whole : ((n : ℕ) → is_accepted (answer n) ≡ true) → left ≡ []

  sent_post :
      (batch : List Bytes) (posts : List (Bytes × Bool)) (accepted : Bool)
      → is_batch batch ≡ true
      → sent (posts ++ ((body_of batch, accepted) ∷ []))
        ≡ sent posts ++ (if accepted then encode batch else [])
  sent_post batch posts true h =
      sent-append posts ((body_of batch, true) ∷ [])
      ∙ ap (λ s. sent posts ++ s) (append-nil (body_of batch) ∙ body_of-encode batch h)
  sent_post batch posts false h = sent-append posts ((body_of batch, false) ∷ [])

  Progress-refused :
      (inode pos shipped : ℕ) (batch : List Bytes) (lines : List Bytes) (w : Shipping)
      → is_batch batch ≡ true
      → is_accepted (answer (length w.posts)) ≡ false
      → Progress inode pos shipped lines w (shipped, (post answer true batch w).1)
  unfolding post
  Progress-refused inode pos shipped batch lines w h refused = record {
    kept = [];
    left = lines;
    split = refl;
    bytes = rw (refused, sent_post batch w.posts false h) refl;
    count = omega arith;
    same_log = refl;
    place = inr (refl, refl);
    whole = λ always. never (always (length w.posts));
  }
    where
      never : is_accepted (answer (length w.posts)) ≡ true → lines ≡ []
      never e = ground arith

  -- The state after an accepted request, with the offset moved.
  abbrev after_accepted : ℕ → ℕ → List Bytes → Shipping → Shipping
  after_accepted inode pos batch w =
      save_offset true (record { inode = some inode; pos = pos + advance_of batch })
        (post answer true batch w).1

  Progress-accepted :
      (inode pos shipped : ℕ) (batch : List Bytes) (lines : List Bytes) (w : Shipping)
      (r : ℕ × Shipping)
      → is_batch batch ≡ true
      → is_accepted (answer (length w.posts)) ≡ true
      → Progress inode
          (pos + advance_of batch)
          (shipped + length batch)
          lines
          (after_accepted inode pos batch w)
          r
      → Progress inode pos shipped (batch ++ lines) w r
  unfolding post save_offset
  Progress-accepted inode pos shipped batch lines w r h accepted p = record {
    kept = batch ++ p.kept;
    left = p.left;
    split = rw append_assoc (ap (λ rest. batch ++ rest) p.split);
    bytes =
        p.bytes
        ∙ ap (λ s. s ++ encode p.kept) (rw accepted (sent_post batch w.posts true h))
        ∙ append_assoc (sent w.posts) (encode batch) (encode p.kept)
        ∙ ap (λ s. sent w.posts ++ s) (sym (encode-append batch p.kept));
    count = omega (arith, p.count, length-append batch p.kept);
    same_log = p.same_log;
    place = inl (elim p.place [
      | inl at_kept ↦ at_kept ∙ ap (offset_at inode) (moved pos batch p.kept)
      | inr (none_kept, unmoved) ↦
          unmoved ∙ ap (offset_at inode) (unmoved_lem pos batch p.kept none_kept)
    ]);
    whole = p.whole;
  }

  post_first :
      (w : Shipping) (batch : List Bytes)
      → (post answer true batch w).0 ≡ is_accepted (answer (length w.posts))
  unfolding post
  post_first w batch = refl

  pub ship_batches-Progress :
      (inode pos shipped : ℕ) (bs : List (List Bytes)) (w : Shipping)
      → all is_batch bs ≡ true
      → Progress inode pos shipped (flatten bs) w (ship_batches answer true inode bs pos shipped w)
  unfolding ship_batches
  ship_batches-Progress inode pos shipped [] w h = record {
    kept = [];
    left = [];
    split = refl;
    bytes = sym (append-nil (sent w.posts));
    count = omega arith;
    same_log = refl;
    place = inr (refl, refl);
    whole = λ always. refl;
  }
  ship_batches-Progress inode pos shipped (batch ∷ rest) w h =
      let (here, later) = all-cons is_batch batch rest h in
      elim (Bool-cases (is_accepted (answer (length w.posts)))) [
        | inl accepted ↦
            rw (post_first w batch, accepted)
              (Progress-accepted inode pos shipped batch (flatten rest) w _ here accepted (
                ship_batches-Progress inode (pos + advance_of batch) (shipped + length batch) rest
                  (after_accepted inode pos batch w) later))
        | inr refused ↦
            rw (post_first w batch, refused)
              (Progress-refused inode pos shipped batch (batch ++ flatten rest) w here refused)
      ]
