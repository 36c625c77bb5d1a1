-- ===== src/Base/Result.antt =====
-- What a call returns when it may raise: the exceptions of bridge/errors.py and llm/errors.py, with
-- Python's own that the modelled code raises or catches.
use mathlib.Core.Path.{◌≡◌, refl}

pub data Exception : Type 0 where
  value_error type_error key_error os_error : Exception
  session_rate_limited global_queue_timeout : Exception
  injection_detected output_filter_fired : Exception
  budget_exhausted ollama_unavailable ollama_response : Exception
  unexpected : Exception

pub data Result {ℓ} (A : Type ℓ) : Type ℓ where
  ok : A → Result A
  raise : Exception → Result A

infixl 5 ◌>>=◌
abbrev pub ◌>>=◌ {ℓ κ} : {X : Type ℓ} {Y : Type κ} → Result X → (X → Result Y) → Result Y
raise e >>= next = raise e
ok value >>= next = next value

pub ok-injective {ℓ} : {X : Type ℓ} {x y : X} → ok x ≡ ok y → x ≡ y
ok-injective same = cc

-- A bind that returned had a first half that returned.
pub bind_returned {ℓ κ} :
    {X : Type ℓ} {Y : Type κ} (action : Result X) (next : X → Result Y) {y : Y}
    → (action >>= next) ≡ ok y
    → (value : X) × (action ≡ ok value) × (next value ≡ ok y)
bind_returned (raise e) next returned = cc
bind_returned (ok value) next returned = (value, refl, returned)
