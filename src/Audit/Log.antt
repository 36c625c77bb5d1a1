-- ===== src/Audit/Log.antt =====
-- src/anglerfish/audit.py: `AuditLog.record`. JSON values are an unknown type; `json.dumps` is an
-- argument, which gives no text for what it cannot print.
mod Stamps
mod Tests
use anglerfish_ai.Base.{
  Bool, true, false, ◌||◌, Option, none, some, List, [], ◌∷◌, ◌++◌, if◌then◌else◌, any, text_key,
  text_same,
}
use anglerfish_ai.Base.Dict
use anglerfish_ai.Base.Dict.{Dict}
use anglerfish_ai.Base.Text.{Text, text}
use anglerfish_ai.Base.Result.{Result, ok, raise, value_error}
use anglerfish_ai.Audit.Lines.{Bytes, newline}

abbrev pub ts_key : Text
ts_key = text "ts"

abbrev pub event_type_key : Text
event_type_key = text "event_type"

-- `_RESERVED_FIELDS`
unfoldable pub is_reserved : Text → Bool
is_reserved key = text_same key ts_key || text_same key event_type_key

unfoldable pub clashes : {V : Type 0} → Dict Text V → Bool
unfolding is_reserved
clashes fields = any (λ field. is_reserved field.0) fields

-- `{**base, **fields}`
abbrev pub merge : {V : Type 0} → Dict Text V → Dict Text V → Dict Text V
merge base [] = base
merge base ((key, value) ∷ fields) = merge (Dict.put key value base) fields

-- A file that cannot be written is left alone, with a warning. A write that fails halfway, and one
-- whose fsync alone fails, are taken to have written nothing.
abbrev pub append_line : Bool → Option Bytes → Bytes → Bytes
append_line writable none content = content
append_line writable (some payload) content =
    if writable then content ++ (payload ++ (newline ∷ [])) else content

module _ {V : Type 0} (of_text : Text → V) (dumps : Dict Text V → Option Bytes) where
  -- The record that is written, stamped with the time.
  abbrev pub stamped : Text → Text → Dict Text V → Dict Text V
  stamped now event_type fields =
      merge ((ts_key, of_text now) ∷ (event_type_key, of_text event_type) ∷ []) fields

  unfoldable pub record_event : Text → Bool → Text → Dict Text V → Bytes → Result Bytes
  record_event now writable [] fields content = raise value_error
  record_event now writable (c ∷ event_type) fields content =
      if clashes fields
      then raise value_error
      else ok (append_line writable (dumps (stamped now (c ∷ event_type) fields)) content)
