-- ===== src/Bridge/Sanitize.antt =====
-- src/anglerfish/bridge/sanitize.py: the filters over attacker input and model output.
pub mod Clean
pub mod Trim
mod Tests
use anglerfish_ai.Base.{
  ℕ, Bool, true, false, not, ◌&&◌, ◌||◌, List, [], ◌∷◌, ◌++◌, map, leb, ltb, ◌==◌, if◌then◌else◌,
  length, take, select,
}
use anglerfish_ai.Base.Text.{Text, text, rstrip, starts_with}
use anglerfish_ai.Base.Result.{Result, ok, raise, value_error}

abbrev pub truncation_marker : Text
truncation_marker = text "\n[input truncated]"

-- `_ALLOWED_CONTROL_CHARS`: tab and LF.
abbrev pub is_allowed_control : ℕ → Bool
is_allowed_control ch = ch == 9 || ch == 10

-- The test of `strip_control_chars`, with its default `allowed`.
abbrev pub is_kept : ℕ → Bool
is_kept ch = is_allowed_control ch || (leb 0x20 ch && not (ch == 0x7F))

unfoldable pub strip_control_chars : Text → Text
strip_control_chars s = select is_kept s

-- `s.replace("\r\n", "\n")`: each CR with an LF behind it goes.
unfoldable pub replace_crlf : Text → Text
replace_crlf [] = []
replace_crlf (c ∷ s) =
    let rest = replace_crlf s in if c == 13 && starts_with (10 ∷ []) s then rest else c ∷ rest

-- `s.replace("\r", "\n")`
unfoldable pub replace_cr : Text → Text
replace_cr s = map (λ c. if c == 13 then 10 else c) s

-- The `TypeError` of the source is a type here; a cap below zero is one of zero.
unfoldable pub sanitize_command : Text → ℕ → Result Text
sanitize_command raw max_chars =
    if leb max_chars 0
    then raise value_error
    else (let cleaned = strip_control_chars (replace_cr (replace_crlf raw)) in
        ok (
          if ltb max_chars (length cleaned)
          then take max_chars cleaned ++ truncation_marker
          else cleaned))

unfoldable pub cap_output : Text → ℕ → Result Text
cap_output raw max_chars =
    if leb max_chars 0 then raise value_error else ok (rstrip (take max_chars raw))

-- What `unicodedata` gives to `normalise_for_scan`: the NFKD form, and whether a character's general
-- category is one of the marks (M*) or the format characters (Cf).
pub record Unicode : Type 0 where
  pub nfkd : Text → Text
  pub is_mark : ℕ → Bool
  pub is_format : ℕ → Bool

unfoldable pub normalise_for_scan : Unicode → Text → Text
normalise_for_scan u s = select (λ ch. not (u.is_mark ch) && not (u.is_format ch)) (u.nfkd s)
