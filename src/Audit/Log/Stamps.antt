-- ===== src/Audit/Log/Stamps.antt =====
-- What a line of the audit log says, whoever wrote it.
use anglerfish_ai.Base.{
  ◌≡◌, refl, sym, ◌∙◌, Bool, true, false, ◌⊎◌, inl, inr, Option, none, some, [], ◌∷◌, ◌++◌,
  if◌then◌else◌, text_key, text_iff, text_same, Bool-cases, arith,
}
use anglerfish_ai.Base.Dict
use anglerfish_ai.Base.Dict.{Dict}
use anglerfish_ai.Base.Text.{Text}
use anglerfish_ai.Base.Result.{ok-injective, ok}
use anglerfish_ai.Audit.Lines.{Bytes, newline}
use anglerfish_ai.Audit.Log.{
  ts_key, event_type_key, is_reserved, clashes, merge, stamped, append_line, record_event,
}

get-merge :
    {V : Type 0} (key : Text) (base fields : Dict Text V)
    → is_reserved key ≡ true
    → clashes fields ≡ false
    → Dict.get key (merge base fields) ≡ Dict.get key base
unfolding clashes
get-merge key base [] reserved free = refl
get-merge key base ((j, v) ∷ fields) reserved free =
    get-merge key (Dict.put j v base) fields reserved (ground arith)
    ∙ Dict.get-put j key v base
    ∙ other
  where
    other : (if text_same j key then some v else Dict.get key base) ≡ Dict.get key base
    other = ground (arith, text_iff j key)

get-merge_ts :
    {V : Type 0} (base fields : Dict Text V)
    → clashes fields ≡ false
    → Dict.get ts_key (merge base fields) ≡ Dict.get ts_key base
unfolding is_reserved
get-merge_ts base fields free = get-merge ts_key base fields refl free

get-merge_event_type :
    {V : Type 0} (base fields : Dict Text V)
    → clashes fields ≡ false
    → Dict.get event_type_key (merge base fields) ≡ Dict.get event_type_key base
unfolding is_reserved
get-merge_event_type base fields free = get-merge event_type_key base fields refl free

append_line-cases :
    (writable : Bool) (printed : Option Bytes) (content : Bytes)
    → (append_line writable printed content ≡ content)
      ⊎ ((payload : Bytes) × (printed ≡ some payload)
          × (append_line writable printed content ≡ content ++ (payload ++ (newline ∷ []))))
append_line-cases writable none content = inl refl
append_line-cases false (some payload) content = inl refl
append_line-cases true (some payload) content = inr (payload, refl, refl)

-- A call that returns had an event type and no reserved field.
pub record_event_returned :
    {V : Type 0} (of_text : Text → V) (dumps : Dict Text V → Option Bytes) (now : Text)
    (writable : Bool) (event_type : Text) (fields : Dict Text V) (content after : Bytes)
    → record_event of_text dumps now writable event_type fields content ≡ ok after
    → (clashes fields ≡ false)
      × (append_line writable (dumps (stamped of_text dumps now event_type fields)) content ≡ after)
unfolding record_event
record_event_returned of_text dumps now writable [] fields content after returned = cc
record_event_returned of_text dumps now writable (c ∷ rest) fields content after returned =
    elim (Bool-cases (clashes fields)) [
      | inl clash ↦ ground arith
      | inr free ↦ (free, ok-injective (rw free at returned))
    ]

module _ {V : Type 0} (of_text : Text → V) (dumps : Dict Text V → Option Bytes) where
  -- A call that returns has left the log as it was, or has put one line behind it, the printed form
  -- of a record that has the clock's time and the call's event type, whatever fields were passed.
  pub record_event-stamps :
      (now : Text) (writable : Bool) (event_type : Text) (fields : Dict Text V)
      (content after : Bytes)
      → record_event of_text dumps now writable event_type fields content ≡ ok after
      → (after ≡ content)
        ⊎ ((entry : Dict Text V) × (payload : Bytes) × (dumps entry ≡ some payload)
            × (Dict.get ts_key entry ≡ some (of_text now))
            × (Dict.get event_type_key entry ≡ some (of_text event_type))
            × (after ≡ content ++ (payload ++ (newline ∷ []))))
  record_event-stamps now writable event_type fields content after returned =
      let entry = stamped of_text dumps now event_type fields in
      let (free, same) =
        record_event_returned of_text dumps now writable event_type fields content after returned in
      elim (append_line-cases writable (dumps entry) content) [
        | inl kept ↦ inl (sym same ∙ kept)
        | inr (payload, printed, added) ↦ inr (
          entry,
          payload,
          printed,
          get-merge_ts (base now event_type) fields free,
          get-merge_event_type (base now event_type) fields free,
          sym same ∙ added,
        )
      ]
    where
      base : Text → Text → Dict Text V
      base time kind = (ts_key, of_text time) ∷ (event_type_key, of_text kind) ∷ []
