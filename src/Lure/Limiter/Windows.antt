-- ===== src/Lure/Limiter/Windows.antt =====
-- The rate windows of `_PerIPLimiter`: how many are kept, and how long each is.
use anglerfish_ai.Base.{
  ℕ, ◌+◌, ◌-◌, ◌≤◌, ◌≡◌, refl, ap, Bool, true, not, [], ◌∷◌, ◌++◌, inl, inr, Bool-cases, ltb,
  select, any, all, All, length, take, drop, text_same, same_refl, length-drop, length-select-le,
  take-append-drop, text_key, arith,
}
use anglerfish_ai.Base.Dict
use anglerfish_ai.Base.Dict.{Dict}
use anglerfish_ai.Base.Text.{Text}
use anglerfish_ai.Lure.Limiter.{
  Deque, is_stale, recent_sweep_threshold, recent_evict_target, insert_by_recency,
  sorted_by_recency, delete_all, cap_recent, sweep_recent, maybe_sweep, drop_expired, window_of,
}

length-insert :
    (p : Text × Deque → Bool) (e : Text × Deque) (d : Dict Text Deque)
    → length (select p (insert_by_recency e d)) ≡ length (select p (e ∷ d))
length-insert p e [] = refl
length-insert p e (f ∷ d) = ground (arith, length-insert p e d)

-- Sorting keeps how many entries pass a test.
length-sorted :
    (p : Text × Deque → Bool) (d : Dict Text Deque)
    → length (select p (sorted_by_recency d)) ≡ length (select p d)
length-sorted p [] = refl
length-sorted p (e ∷ d) = ground (arith, length-insert p e (sorted_by_recency d), length-sorted p d)

length-insert-all :
    (e : Text × Deque) (d : Dict Text Deque) → length (insert_by_recency e d) ≡ length d + 1
length-insert-all e [] = refl
length-insert-all e (f ∷ d) = ground (arith, length-insert-all e d)

length-sorted-all : (d : Dict Text Deque) → length (sorted_by_recency d) ≡ length d
length-sorted-all [] = refl
length-sorted-all (e ∷ d) =
    omega (arith, length-insert-all e (sorted_by_recency d), length-sorted-all d)

length-select-append :
    (p : Text × Deque → Bool) (c d : Dict Text Deque)
    → length (select p (c ++ d)) ≡ length (select p c) + length (select p d)
length-select-append p [] d = omega arith
length-select-append p (e ∷ c) d = ground (arith, length-select-append p c d)

abbrev among : Dict Text Deque → Text × Deque → Bool
among gone e = any (λ (g : Text × Deque). text_same g.0 e.0) gone

all_mono :
    (p q : Text × Deque → Bool) (d : Dict Text Deque)
    → ((e : Text × Deque) → p e ≡ true → q e ≡ true)
    → all p d ≡ true
    → all q d ≡ true
all_mono p q [] imp h = refl
all_mono p q (e ∷ d) imp h = ground (arith, imp e, all_mono p q d imp)

among_self : (gone : Dict Text Deque) → all (among gone) gone ≡ true
among_self [] = refl
among_self (g ∷ gone) =
    let rest =
      all_mono (among gone) (among (g ∷ gone)) gone (λ e h. ground arith) (among_self gone) in
    ground (arith, rest, same_refl g.0)

select-refused :
    (p : Text × Deque → Bool) (d : Dict Text Deque)
    → all p d ≡ true
    → length (select (λ e. not (p e)) d) ≡ 0
select-refused p [] h = refl
select-refused p (e ∷ d) h = ground (arith, select-refused p d)

-- Deleting the first `k` entries in the order of recency leaves at most the others.
length-delete-le :
    (k : ℕ) (d : Dict Text Deque)
    → length (delete_all (take k (sorted_by_recency d)) d) ≤ length d - k
length-delete-le k d =
    let s = sorted_by_recency d in
    let p : Text × Deque → Bool = λ e. not (among (take k s) e) in
    let parted = length-select-append p (take k s) (drop k s) in
    let whole = ap (λ x. length (select p x)) (take-append-drop k s) in
    omega (
      arith,
      length-sorted p d,
      parted,
      whole,
      select-refused (among (take k s)) (take k s) (among_self (take k s)),
      length-select-le p (drop k s),
      length-drop k s,
      length-sorted-all d,
    )

pub length-maybe_sweep :
    (cutoff : ℕ) (d : Dict Text Deque) → length (maybe_sweep cutoff d) ≤ recent_sweep_threshold
unfolding maybe_sweep sweep_recent cap_recent
length-maybe_sweep cutoff d =
    let live = select (λ e. not (is_stale cutoff e)) d in
    ground (arith, length-delete-le (length live - recent_evict_target) live)

-- Every window is at most `n` long.
abbrev pub Short : ℕ → Dict Text Deque → Type 0
Short n d = All (λ e. length e.1 ≤ n) d

Short-select :
    (n : ℕ) (p : Text × Deque → Bool) (d : Dict Text Deque) → Short n d → Short n (select p d)
Short-select n p [] h = h
Short-select n p (e ∷ d) h = ground (arith, Short-select n p d)

pub Short-maybe_sweep :
    (n cutoff : ℕ) (d : Dict Text Deque) → Short n d → Short n (maybe_sweep cutoff d)
unfolding maybe_sweep sweep_recent cap_recent
Short-maybe_sweep n cutoff d h =
    let live = select (λ e. not (is_stale cutoff e)) d in
    let kept = Short-select n (λ e. not (is_stale cutoff e)) d h in
    let capped =
      Short-select n
        (λ e. not (among (take (length live - recent_evict_target) (sorted_by_recency live)) e))
        live kept in
    elim (Bool-cases (ltb recent_sweep_threshold (length d))) [
      | inl over ↦ elim (Bool-cases (ltb recent_sweep_threshold (length live))) [
        | inl still ↦ rw (over, still) capped
        | inr few ↦ rw (over, few) kept
      ]
      | inr under ↦ rw under h
    ]

pub Short-put :
    (n : ℕ) (ip : Text) (ts : Deque) (d : Dict Text Deque)
    → length ts ≤ n
    → Short n d
    → Short n (Dict.put ip ts d)
Short-put n ip ts [] k h = (k, h)
Short-put n ip ts ((j, w) ∷ d) k (first, rest) = elim (Bool-cases (text_same j ip)) [
  | inl here ↦ rw here (k, rest)
  | inr other ↦ rw other (first, Short-put n ip ts d k rest)
]

Short-get :
    (n : ℕ) (ip : Text) (d : Dict Text Deque) → Short n d → length (window_of (Dict.get ip d)) ≤ n
Short-get n ip [] h = omega arith
Short-get n ip ((j, w) ∷ d) (first, rest) = elim (Bool-cases (text_same j ip)) [
  | inl here ↦ rw here first
  | inr other ↦ rw other (Short-get n ip d rest)
]

length-drop_expired-le : (cutoff : ℕ) (ts : Deque) → length (drop_expired cutoff ts) ≤ length ts
length-drop_expired-le cutoff [] = omega arith
length-drop_expired-le cutoff (t ∷ ts) = ground (arith, length-drop_expired-le cutoff ts)

pub length-window-le :
    (n cutoff : ℕ) (ip : Text) (d : Dict Text Deque)
    → Short n d
    → length (drop_expired cutoff (window_of (Dict.get ip d))) ≤ n
length-window-le n cutoff ip d h =
    omega (arith, Short-get n ip d h, length-drop_expired-le cutoff (window_of (Dict.get ip d)))
