-- ===== src/Audit/Log/Tests.antt =====
-- Runs of `record`, and its properties at concrete inputs.
use anglerfish_ai.Base.{◌≡◌, refl, true, ◌⊎◌, Option, some, [], ◌∷◌, ◌++◌, text_key}
use anglerfish_ai.Base.Dict
use anglerfish_ai.Base.Dict.{Dict}
use anglerfish_ai.Base.Text.{Text, text}
use anglerfish_ai.Base.Result.{ok, raise, value_error}
use anglerfish_ai.Audit.Lines.{Bytes, newline}
use anglerfish_ai.Audit.Log.{ts_key, event_type_key, is_reserved, clashes, record_event}
use anglerfish_ai.Audit.Log.Stamps.{record_event-stamps}

abbrev of_text : Text → Text
of_text s = s

abbrev print : Dict Text Text → Bytes
print [] = text "}"
print ((key, value) ∷ entry) = key ++ (text ":" ++ (value ++ (text "," ++ print entry)))

abbrev dumps : Dict Text Text → Option Bytes
dumps entry = some (print entry)

abbrev fields : Dict Text Text
fields = (text "command", text "ls") ∷ []

abbrev line : Bytes
line = text "ts:9,event_type:lure.command_native,command:ls,}"

recorded_example :
    record_event of_text dumps (text "9") true (text "lure.command_native") fields (text "x")
    ≡ ok (text "x" ++ (line ++ (newline ∷ [])))
unfolding record_event clashes is_reserved
recorded_example = refl

forged_ts :
    record_event of_text dumps (text "9") true (text "x") ((text "ts", text "1") ∷ []) []
    ≡ raise value_error
unfolding record_event clashes is_reserved
forged_ts = refl

record_event-stamps_example :
    (text "x" ++ (line ++ (newline ∷ [])) ≡ text "x")
    ⊎ ((entry : Dict Text Text) × (payload : Bytes) × (dumps entry ≡ some payload)
        × (Dict.get ts_key entry ≡ some (text "9"))
        × (Dict.get event_type_key entry ≡ some (text "lure.command_native"))
        × (text "x" ++ (line ++ (newline ∷ [])) ≡ text "x" ++ (payload ++ (newline ∷ []))))
record_event-stamps_example =
    record_event-stamps of_text dumps (text "9") true (text "lure.command_native") fields (text "x")
      (text "x" ++ (line ++ (newline ∷ []))) recorded_example
