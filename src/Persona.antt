-- ===== src/Persona.antt =====
-- The choice of a persona: src/anglerfish/persona/registry.py and selector.py. A persona is any type;
-- the digest of an address, as a number, and the two queries to the store are arguments.
pub mod Sticky
mod Tests
use anglerfish_ai.Base.{
  ℕ, zero, suc, ◌%◌, Bool, true, false, ◌&&◌, ◌||◌, Option, none, some, List, [], ◌∷◌, ◌==◌, ltb,
  if◌then◌else◌, length, text_key,
}
use anglerfish_ai.Base.Dict
use anglerfish_ai.Base.Dict.{Dict}
use anglerfish_ai.Base.Text.{Text}
use anglerfish_ai.Base.Result.{Result, ok, raise, value_error, key_error, unexpected, ◌>>=◌}

-- Python's `<=` of texts.
abbrev pub text_leb : Text → Text → Bool
text_leb [] t = true
text_leb (c ∷ s) [] = false
text_leb (c ∷ s) (d ∷ t) = ltb c d || (c == d && text_leb s t)

abbrev pub insert_name : Text → List Text → List Text
insert_name name [] = name ∷ []
insert_name name (n ∷ ns) =
    let rest = insert_name name ns in if text_leb name n then name ∷ n ∷ ns else n ∷ rest

abbrev pub sorted_keys : {P : Type 0} → Dict Text P → List Text
sorted_keys [] = []
sorted_keys ((name, persona) ∷ personas) = insert_name name (sorted_keys personas)

-- `names[index]`
abbrev pub name_at : ℕ → List Text → Result Text
name_at index [] = raise unexpected
name_at zero (n ∷ ns) = ok n
name_at (suc index) (n ∷ ns) = name_at index ns

pub data SelectionReason : Type 0 where
  pin source_ip_recurrence hash_fallback : SelectionReason

pub record Registry (P : Type 0) : Type 0 where
  pub personas : Dict Text P
  pub default_name : Text

pub record Selection (P : Type 0) : Type 0 where
  pub persona : P
  pub reason : SelectionReason

-- The two queries to the session store.
pub record Reader : Type 0 where
  pub get_persona_pin : Text → Result (Option Text)
  pub recent_persona_for_source_ip : Text → Result (Option Text)

abbrev pub is_known : {P : Type 0} → Option P → Bool
is_known none = false
is_known (some persona) = true

abbrev pub found_or_raise : {P : Type 0} → Option P → Result P
found_or_raise none = raise key_error
found_or_raise (some persona) = ok persona

module _ {P : Type 0} where
  abbrev pub contains : Dict Text P → Text → Bool
  contains personas name = is_known (Dict.get name personas)

  -- `PersonaRegistry.__init__`
  unfoldable pub make_registry : Dict Text P → Text → Result (Registry P)
  make_registry [] default_name = raise value_error
  make_registry (first ∷ personas) default_name =
      if contains (first ∷ personas) default_name
      then ok (record { personas = first ∷ personas; default_name = default_name })
      else raise value_error

  unfoldable pub get_persona : Registry P → Text → Result P
  get_persona registry name = found_or_raise (Dict.get name registry.personas)

  unfoldable pub names : Registry P → List Text
  names registry = sorted_keys registry.personas

module _ {P : Type 0} (digest : Text → ℕ) (registry : Registry P) where
  -- An index modulo the number of names; Python raises where there are none.
  unfoldable pub hash_select : Text → Result P
  hash_select source_ip =
      name_at (digest source_ip % length (names registry)) (names registry) >>= get_persona registry

  abbrev pub selected : SelectionReason → P → Result (Selection P)
  selected reason persona = ok (record { persona = persona; reason = reason })

  unfoldable pub by_hash : Text → Result (Selection P)
  by_hash source_ip = hash_select source_ip >>= selected hash_fallback

  -- A name that is in the registry decides, and any other goes on.
  abbrev pub by_name : SelectionReason → Option Text → Result (Selection P) → Result (Selection P)
  by_name reason none otherwise = otherwise
  by_name reason (some name) otherwise =
      if contains registry.personas name
      then get_persona registry name >>= selected reason
      else otherwise

  unfoldable pub by_recurrence : Reader → Text → Result (Selection P)
  by_recurrence reader source_ip = reader.recent_persona_for_source_ip source_ip >>= λ recurrence.
      by_name source_ip_recurrence recurrence (by_hash source_ip)

  abbrev pub select_for : Reader → Text → Result (Selection P)
  select_for reader source_ip = reader.get_persona_pin source_ip >>= λ pinned.
      by_name pin pinned (by_recurrence reader source_ip)

  unfoldable pub select : Reader → Text → Result (Selection P)
  select reader [] = raise value_error
  select reader (c ∷ s) = select_for reader (c ∷ s)
