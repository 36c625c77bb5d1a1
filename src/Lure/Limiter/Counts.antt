-- ===== src/Lure/Limiter/Counts.antt =====
-- Bounds over the connection counts of `_PerIPLimiter`.
use anglerfish_ai.Base.{ℕ, ◌≤◌, [], ◌∷◌, inl, inr, Bool-cases, All, text_same, text_key, arith}
use anglerfish_ai.Base.Dict
use anglerfish_ai.Base.Dict.{Dict}
use anglerfish_ai.Base.Text.{Text}
use anglerfish_ai.Lure.Limiter.{count_in}

abbrev pub Capped : ℕ → Dict Text ℕ → Type 0
Capped n d = All (λ e. e.1 ≤ n) d

pub Capped-put :
    (n : ℕ) (ip : Text) (m : ℕ) (d : Dict Text ℕ) → m ≤ n → Capped n d → Capped n (Dict.put ip m d)
Capped-put n ip m [] k h = (k, h)
Capped-put n ip m ((j, w) ∷ d) k (first, rest) = elim (Bool-cases (text_same j ip)) [
  | inl here ↦ rw here (k, rest)
  | inr other ↦ rw other (first, Capped-put n ip m d k rest)
]

pub Capped-remove : (n : ℕ) (ip : Text) (d : Dict Text ℕ) → Capped n d → Capped n (Dict.remove ip d)
Capped-remove n ip [] h = h
Capped-remove n ip ((j, w) ∷ d) (first, rest) = elim (Bool-cases (text_same j ip)) [
  | inl here ↦ rw here (Capped-remove n ip d rest)
  | inr other ↦ rw other (first, Capped-remove n ip d rest)
]

pub Capped-get : (n : ℕ) (ip : Text) (d : Dict Text ℕ) → Capped n d → count_in (Dict.get ip d) ≤ n
Capped-get n ip [] h = omega arith
Capped-get n ip ((j, w) ∷ d) (first, rest) = elim (Bool-cases (text_same j ip)) [
  | inl here ↦ rw here first
  | inr other ↦ rw other (Capped-get n ip d rest)
]
