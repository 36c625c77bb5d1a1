-- ===== src/Persona/Tests.antt =====
-- A choice by digest, and its repetition, at a registry of two.
use anglerfish_ai.Base.{ℕ, ◌≡◌, refl, none, some, [], ◌∷◌, length}
use anglerfish_ai.Base.Dict.{Dict}
use anglerfish_ai.Base.Text.{Text, text}
use anglerfish_ai.Base.Result.{ok}
use anglerfish_ai.Persona.{
  Registry, Reader, hash_fallback, make_registry, get_persona, names, hash_select, by_hash,
  by_recurrence, select,
}
use anglerfish_ai.Persona.Sticky.{IsSticky, select-IsSticky}

abbrev personas : Dict Text ℕ
personas = (text "web", 1) ∷ (text "db", 2) ∷ []

abbrev registry : Registry ℕ
registry = record { personas = personas; default_name = text "web" }

-- The pin names a persona that is gone.
abbrev reader : Reader
reader = record {
  get_persona_pin = λ source_ip. ok (some (text "old"));
  recent_persona_for_source_ip = λ source_ip. ok none;
}

made : make_registry personas (text "web") ≡ ok registry
unfolding make_registry
made = refl

-- The names are sorted, so that the second is the one declared first.
by_digest :
    select length registry reader (text "10.0.0.77")
    ≡ ok (record { persona = 1; reason = hash_fallback })
unfolding select by_recurrence by_hash hash_select names get_persona
by_digest = refl

select-IsSticky_example : IsSticky length registry reader (text "10.0.0.77")
select-IsSticky_example =
    select-IsSticky length personas (text "web") registry reader 49 (text "0.0.0.77")
      (some (text "old")) none made refl refl
