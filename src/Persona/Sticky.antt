-- ===== src/Persona/Sticky.antt =====
-- The selection succeeds, and an address keeps its persona.
use native.Mathlib.Nat.{mod-lt}
use mathlib.Core.Path.{subst}
use anglerfish_ai.Base.{
  ℕ, zero, suc, ◌+◌, ◌%◌, ◌<◌, ◌≡◌, refl, ◌⊎◌, inl, inr, Bool, true, Option, none, some, List, [],
  ◌∷◌, length, all, all-cons, Bool-cases, same_refl, text_same, text_key, arith,
}
use anglerfish_ai.Base.Dict
use anglerfish_ai.Base.Dict.{Dict}
use anglerfish_ai.Base.Text.{Text}
use anglerfish_ai.Base.Result.{Result, ok, ◌>>=◌}
use anglerfish_ai.Persona.{
  insert_name, sorted_keys, name_at, Registry, Selection, Reader, SelectionReason, pin,
  source_ip_recurrence, is_known, contains, make_registry, get_persona, names, hash_select, by_hash,
  by_name, by_recurrence, select,
}

length-insert_name : (name : Text) (ns : List Text) → length (insert_name name ns) ≡ length ns + 1
length-insert_name name [] = omega arith
length-insert_name name (n ∷ ns) = ground (arith, length-insert_name name ns)

all-insert_name :
    (p : Text → Bool) (name : Text) (ns : List Text)
    → p name ≡ true
    → all p ns ≡ true
    → all p (insert_name name ns) ≡ true
all-insert_name p name [] here rest = ground arith
all-insert_name p name (n ∷ ns) here rest = ground (arith, all-insert_name p name ns)

all_later :
    (p q : Text → Bool) (ns : List Text)
    → ((n : Text) → p n ≡ true → q n ≡ true)
    → all p ns ≡ true
    → all q ns ≡ true
all_later p q [] imp h = refl
all_later p q (n ∷ ns) imp h = ground (arith, imp n, all_later p q ns imp)

name_at-all :
    (p : Text → Bool) (index : ℕ) (ns : List Text)
    → index < length ns
    → all p ns ≡ true
    → (name : Text) × (name_at index ns ≡ ok name) × (p name ≡ true)
name_at-all p index [] h every = elim (not_below h) [ ]
  where
    not_below : index < 0 → ⊥
    not_below k = omega arith
name_at-all p zero (n ∷ ns) h every = (n, refl, (all-cons p n ns every).0)
name_at-all p (suc index) (n ∷ ns) h every =
    name_at-all p index ns (omega arith) (all-cons p n ns every).1

module _ {P : Type 0} where
  contains_later :
      (name other : Text) (persona : P) (personas : Dict Text P)
      → contains personas other ≡ true
      → contains ((name, persona) ∷ personas) other ≡ true
  contains_later name other persona personas h = elim (Bool-cases (text_same name other)) [
    | inl same ↦ rw same refl
    | inr differ ↦ rw differ h
  ]

  sorted_keys-contains :
      (personas : Dict Text P) → all (contains personas) (sorted_keys personas) ≡ true
  sorted_keys-contains [] = refl
  sorted_keys-contains ((name, persona) ∷ personas) =
      all-insert_name (contains ((name, persona) ∷ personas)) name (sorted_keys personas)
        (rw (same_refl name) refl)
        (all_later (contains personas) (contains ((name, persona) ∷ personas))
          (sorted_keys personas) (λ n h. contains_later name n persona personas h)
          (sorted_keys-contains personas))

  contains-get :
      (personas : Dict Text P) (name : Text)
      → contains personas name ≡ true
      → (persona : P) × (Dict.get name personas ≡ some persona)
  contains-get personas name h = go (Dict.get name personas) h
    where
      go : (found : Option P) → is_known found ≡ true → (persona : P) × (found ≡ some persona)
      go none k = cc
      go (some persona) k = (persona, refl)

  make_registry-names :
      (personas : Dict Text P) (default_name : Text) (registry : Registry P)
      → make_registry personas default_name ≡ ok registry
      → zero < length (names registry)
  unfolding make_registry names
  make_registry-names [] default_name registry h = cc
  make_registry-names ((name, persona) ∷ personas) default_name registry h =
      elim (Bool-cases (contains ((name, persona) ∷ personas) default_name)) [
        | inl there ↦
            subst (λ r. zero < length (sorted_keys r.personas)) (whole there)
              (omega (arith, length-insert_name name (sorted_keys personas)))
        | inr missing ↦ ground arith
      ]
    where
      whole :
          contains ((name, persona) ∷ personas) default_name ≡ true
          → record { personas = (name, persona) ∷ personas; default_name = default_name } ≡ registry
      whole there = ground arith

module _ {P : Type 0} (digest : Text → ℕ) (registry : Registry P) where
  by_name-get :
      (reason : SelectionReason) (name : Text) (otherwise : Result (Selection P)) (persona : P)
      → Dict.get name registry.personas ≡ some persona
      → by_name digest registry reason (some name) otherwise
        ≡ ok (record { persona = persona; reason = reason })
  unfolding get_persona
  by_name-get reason name otherwise persona h = simp h refl

  hash_select-get :
      (source_ip : Text)
      → zero < length (names registry)
      → (name : Text) × (persona : P) × (hash_select digest registry source_ip ≡ ok persona)
        × (Dict.get name registry.personas ≡ some persona)
  unfolding hash_select get_persona names
  hash_select-get source_ip some_names =
      let listed = sorted_keys registry.personas in
      let (name, at, known) =
        name_at-all (contains registry.personas) (digest source_ip % length listed) listed
          (mod-lt (digest source_ip) some_names) (sorted_keys-contains registry.personas) in
      let (persona, found) = contains-get registry.personas name known in
      (name, persona, simp (at, found) refl, found)

  -- A name decides, or the choice goes on.
  Decides : Option Text → Type 0
  Decides named =
      (name : Text) × (persona : P) × (named ≡ some name)
      × (Dict.get name registry.personas ≡ some persona)

  GoesOn : Option Text → Type 0
  GoesOn named =
      (reason : SelectionReason) (otherwise : Result (Selection P))
      → by_name digest registry reason named otherwise ≡ otherwise

  by_name-cases : (named : Option Text) → Decides named ⊎ GoesOn named
  unfolding Decides GoesOn
  by_name-cases none = inr (λ reason otherwise. refl)
  by_name-cases (some name) = elim (Bool-cases (contains registry.personas name)) [
    | inl there ↦
        let (persona, found) = contains-get registry.personas name there in
        inl (name, persona, refl, found)
    | inr missing ↦ inr (λ reason otherwise. rw missing refl)
  ]

  -- What the store answers once a session of the name is the latest.
  abbrev pub remembering : Reader → Text → Reader
  remembering reader name = record reader {
    recent_persona_for_source_ip = λ source_ip. ok (some name);
  }

  abbrev pub persona_of : Result (Selection P) → Result P
  persona_of chosen = chosen >>= λ selection. ok selection.persona

  -- The persona that is chosen, and the name that makes the choice again.
  abbrev pub IsSticky : Reader → Text → Type 0
  IsSticky reader source_ip =
      (name : Text) × (persona : P) × (Dict.get name registry.personas ≡ some persona)
      × (persona_of (select digest registry reader source_ip) ≡ ok persona)
      × (persona_of (select digest registry (remembering reader name) source_ip) ≡ ok persona)

  module _ (reader : Reader) (c : ℕ) (s : Text) where
    pinned-IsSticky :
        (pinned : Option Text)
        → reader.get_persona_pin (c ∷ s) ≡ ok pinned
        → Decides pinned
        → IsSticky reader (c ∷ s)
    unfolding Decides select get_persona
    pinned-IsSticky pinned read (name, persona, e, found) =
        (name, persona, found, simp (read, e, found) refl, simp (read, e, found) refl)

    recurred-IsSticky :
        (pinned recent : Option Text)
        → reader.get_persona_pin (c ∷ s) ≡ ok pinned
        → reader.recent_persona_for_source_ip (c ∷ s) ≡ ok recent
        → GoesOn pinned
        → Decides recent
        → IsSticky reader (c ∷ s)
    unfolding Decides GoesOn select get_persona by_recurrence
    recurred-IsSticky pinned recent read_pin read goes_on (name, persona, e, found) = (
      name,
      persona,
      found,
      simp (read_pin, goes_on pin, read, e, found) refl,
      simp (read_pin, goes_on pin, found) refl,
    )

    hashed-IsSticky :
        (pinned recent : Option Text)
        → reader.get_persona_pin (c ∷ s) ≡ ok pinned
        → reader.recent_persona_for_source_ip (c ∷ s) ≡ ok recent
        → GoesOn pinned
        → GoesOn recent
        → zero < length (names registry)
        → IsSticky reader (c ∷ s)
    unfolding Decides GoesOn select get_persona by_recurrence by_hash
    hashed-IsSticky pinned recent read_pin read goes_on none_recent some_names =
        let (name, persona, chosen, found) = hash_select-get (c ∷ s) some_names in
        (
          name,
          persona,
          found,
          simp (read_pin, goes_on pin, read, none_recent source_ip_recurrence, chosen) refl,
          simp (read_pin, goes_on pin, found) refl,
        )

-- The choice for an address that is not empty succeeds where the queries to the store do, over any
-- registry that was made and whatever names the store gives. Its persona is in the registry under a
-- name, and while the pin of the address stays, the choice after a session of that name gives the
-- same persona.
pub select-IsSticky :
    {P : Type 0} (digest : Text → ℕ) (personas : Dict Text P) (default_name : Text)
    (registry : Registry P) (reader : Reader) (c : ℕ) (s : Text) (pinned recent : Option Text)
    → make_registry personas default_name ≡ ok registry
    → reader.get_persona_pin (c ∷ s) ≡ ok pinned
    → reader.recent_persona_for_source_ip (c ∷ s) ≡ ok recent
    → IsSticky digest registry reader (c ∷ s)
select-IsSticky digest personas default_name registry reader c s pinned recent made read_pin read =
    elim (by_name-cases digest registry pinned) [
      | inl decides ↦ pinned-IsSticky digest registry reader c s pinned read_pin decides
      | inr goes_on ↦ elim (by_name-cases digest registry recent) [
        | inl decides ↦
            recurred-IsSticky digest registry reader c s pinned recent read_pin read goes_on decides
        | inr none_recent ↦
            hashed-IsSticky digest registry reader c s pinned recent read_pin read goes_on
              none_recent (make_registry-names personas default_name registry made)
      ]
    ]
