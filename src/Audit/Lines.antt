-- ===== src/Audit/Lines.antt =====
-- Lines of bytes in a file: how the readers of the audit log cut it, and how whole lines come back.
use mathlib.Core.List.{append_assoc}
use anglerfish_ai.Base.{
  ℕ, suc, ◌≡◌, refl, ap, ◌∙◌, Bool, true, false, not, ◌&&◌, Option, none, some, List, [], ◌∷◌, ◌++◌,
  ◌==◌, if◌then◌else◌, length, take, select, all, all-cons, arith,
}

abbrev pub Bytes : Type 0
Bytes = List ℕ

abbrev pub newline : ℕ
newline = 10

-- `data.rfind(b"\n")`
unfoldable pub rfind_newline : Bytes → Option ℕ
rfind_newline [] = none
rfind_newline (c ∷ s) = elim (rfind_newline s) [
  | some n ↦ some (suc n)
  | none ↦ if c == newline then some 0 else none
]

-- `data[: last_nl + 1]`, which is nothing where no newline is found.
unfoldable pub complete_part : Bytes → Bytes
complete_part s = elim (rfind_newline s) [ some n ↦ take (suc n) s | none ↦ [] ]

abbrev pub grow_line : ℕ → List Bytes → List Bytes
grow_line c [] = (c ∷ []) ∷ []
grow_line c (p ∷ ps) = (c ∷ p) ∷ ps

-- `complete.split(b"\n")`
unfoldable pub split_lines : Bytes → List Bytes
split_lines [] = [] ∷ []
split_lines (c ∷ s) =
    let pieces = split_lines s in if c == newline then [] ∷ pieces else grow_line c pieces

abbrev pub is_filled : Bytes → Bool
is_filled [] = false
is_filled (c ∷ s) = true

abbrev pub no_newline : ℕ → Bool
no_newline c = not (c == newline)

-- A line with something in it.
abbrev pub is_line : Bytes → Bool
is_line s = is_filled s && all no_newline s

-- Lines as they stand in the file.
abbrev pub encode : List Bytes → Bytes
encode [] = []
encode (line ∷ lines) = line ++ (newline ∷ encode lines)

pub encode-append : (xs ys : List Bytes) → encode (xs ++ ys) ≡ encode xs ++ encode ys
encode-append [] ys = refl
encode-append (x ∷ xs) ys = rw (encode-append xs ys, append_assoc) refl

rfind_none : (s : Bytes) → all no_newline s ≡ true → rfind_newline s ≡ none
unfolding rfind_newline
rfind_none [] h = refl
rfind_none (c ∷ s) h = ground (arith, rfind_none s)

rfind_last :
    (s t : Bytes) → all no_newline t ≡ true → rfind_newline (s ++ (newline ∷ t)) ≡ some (length s)
unfolding rfind_newline
rfind_last [] t h = rw (rfind_none t h) refl
rfind_last (c ∷ s) t h = rw (rfind_last s t h) refl

take-past : (s t : Bytes) → take (suc (length s)) (s ++ (newline ∷ t)) ≡ s ++ (newline ∷ [])
take-past [] t = refl
take-past (c ∷ s) t = ap (◌∷◌ c) (take-past s t)

complete_part_last :
    (s t : Bytes)
    → all no_newline t ≡ true
    → complete_part (s ++ (newline ∷ t)) ≡ s ++ (newline ∷ [])
unfolding complete_part
complete_part_last s t h = rw (complete_part, rfind_last s t h) (take-past s t)

-- The last line of a file apart from those in front.
encode_last :
    (line : Bytes) (lines : List Bytes)
    → (front : Bytes) × (encode (line ∷ lines) ≡ front ++ (newline ∷ []))
encode_last line [] = (line, refl)
encode_last line (next ∷ lines) =
    let (front, e) = encode_last next lines in
    (line ++ (newline ∷ front), rw (e, append_assoc) refl)

-- Behind whole lines, a part of a line is left for later.
pub complete_part-encode :
    (lines : List Bytes) (rest : Bytes)
    → all no_newline rest ≡ true
    → complete_part (encode lines ++ rest) ≡ encode lines
unfolding complete_part
complete_part-encode [] rest h = rw (complete_part, rfind_none rest h) refl
complete_part-encode (line ∷ lines) rest h =
    let (front, e) = encode_last line lines in
    rw (e, append_assoc) (complete_part_last front rest h)

split-newline :
    (line t : Bytes)
    → all no_newline line ≡ true
    → split_lines (line ++ (newline ∷ t)) ≡ line ∷ split_lines t
unfolding split_lines
split-newline [] t h = refl
split-newline (c ∷ s) t h =
    let (plain, rest) = all-cons no_newline c s h in rw (not-newline plain, split-newline s t rest)
  where
    not-newline : no_newline c ≡ true → (c == newline) ≡ false
    not-newline e = ground arith

-- Cutting whole lines and leaving out the empty pieces gives the lines back.
pub select-split-encode :
    (lines : List Bytes)
    → all is_line lines ≡ true
    → select is_filled (split_lines (encode lines)) ≡ lines
unfolding split_lines
select-split-encode [] h = refl
select-split-encode (line ∷ lines) h =
    let (here, rest) = all-cons is_line line lines h in
    rw (split-newline line (encode lines) (plain line here))
      (filled line here ∙ ap (◌∷◌ line) (select-split-encode lines rest))
  where
    plain : (l : Bytes) → is_line l ≡ true → all no_newline l ≡ true
    plain l e = ground arith

    filled :
        (l : Bytes)
        → is_line l ≡ true
        → select is_filled (l ∷ split_lines (encode lines))
          ≡ l ∷ select is_filled (split_lines (encode lines))
    filled l e = ground arith
