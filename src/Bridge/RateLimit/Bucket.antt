-- ===== src/Bridge/RateLimit/Bucket.antt =====
-- The token bucket of bridge/rate_limit.py: its bound, its promise, and what a refusal changes.
use anglerfish_ai.Base.{
  ℕ, zero, suc, ◌+◌, ◌-◌, ◌*◌, ◌≤◌, ◌<◌, ◌≡◌, refl, ap, true, List, [], ◌∷◌, if◌then◌else◌, arith,
}
use anglerfish_ai.Base.Result.{ok}
use anglerfish_ai.Bridge.RateLimit.{TokenBucket, refill_locked, take_units, try_consume}

elapsed_split : (r last t u : ℕ) → last ≤ t → t ≤ u → (u - last) * r ≡ (t - last) * r + (u - t) * r
elapsed_split r last t u h k =
    let e : u - last ≡ (t - last) + (u - t) = omega arith in omega (arith, ap (λ (x : ℕ). x * r) e)

module _ (unit : ℕ) where
  pub record IsValid (b : TokenBucket) : Type 0 where
    pub filled : b.tokens ≤ b.capacity * unit

  pub refill_locked-IsValid : (b : TokenBucket) (now : ℕ) → IsValid (refill_locked unit b now)
  unfolding refill_locked
  refill_locked-IsValid b now = record { filled = omega arith }

  -- The calls at the given moments, each for one token: how many were let through.
  unfoldable pub let_through : TokenBucket → List ℕ → ℕ
  let_through b [] = 0
  let_through b (now ∷ later) =
      let (b', taken) = take_units unit (refill_locked unit b now) unit in
      (if taken then 1 else 0) + let_through b' later

  -- The moments do not go back.
  abbrev pub Ascending : ℕ → List ℕ → Type 0
  Ascending t [] = Unit
  Ascending t (now ∷ later) = (t ≤ now) × Ascending now later

  abbrev pub last_of : ℕ → List ℕ → ℕ
  last_of t [] = t
  last_of t (now ∷ later) = last_of now later

  last_of-le : (t : ℕ) (times : List ℕ) → Ascending t times → t ≤ last_of t times
  last_of-le t [] h = omega arith
  last_of-le t (now ∷ later) h = omega (arith, last_of-le now later h.1)

  -- The bucket after one call at `now`, and what the call is charged.
  after : TokenBucket → ℕ → TokenBucket
  after b now = (take_units unit (refill_locked unit b now) unit).0

  charge : TokenBucket → ℕ → ℕ
  charge b now = if (take_units unit (refill_locked unit b now) unit).1 then 1 else 0

  charge_paid :
      (b : TokenBucket) (now rate t : ℕ)
      → b.refill ≡ rate
      → b.last ≡ t
      → (charge b now * unit + (after b now).tokens ≤ b.tokens + (now - t) * rate)
        × ((after b now).refill ≡ rate)
        × ((after b now).last ≡ now)
  unfolding charge after take_units refill_locked
  charge_paid b now rate t er et = ground (arith, same_product)
    where
      same_product : (now - b.last) * b.refill ≡ (now - t) * rate
      same_product = cc

  let_through-cons :
      (b : TokenBucket) (now : ℕ) (later : List ℕ)
      → let_through b (now ∷ later) ≡ charge b now + let_through (after b now) later
  unfolding let_through charge after
  let_through-cons b now later = refl

  let_through-le :
      (times : List ℕ) (b : TokenBucket) (rate t : ℕ)
      → b.refill ≡ rate
      → b.last ≡ t
      → Ascending t times
      → let_through b times * unit ≤ b.tokens + (last_of t times - t) * rate
  let_through-le [] b rate t er et h = unfold let_through in omega arith
  let_through-le (now ∷ later) b rate t er et h =
      let (paid, same_rate, moved) = charge_paid b now rate t er et in
      rw let_through-cons (
        omega (
          arith,
          let_through-le later (after b now) rate now same_rate moved h.1,
          paid,
          elapsed_split rate t now (last_of now later) h.0 (last_of-le now later h.1),
        ))

  charge_capped :
      (b : TokenBucket) (now : ℕ) → charge b now * unit + (after b now).tokens ≤ b.capacity * unit
  unfolding charge after take_units refill_locked
  charge_capped b now = ground arith

  -- In any stretch of time that starts with a call, whatever the state of the bucket and however
  -- long it was idle, the calls let through are at most the burst and what the stretch has refilled.
  pub let_through-bound :
      (b : TokenBucket) (now : ℕ) (later : List ℕ)
      → Ascending now later
      → let_through b (now ∷ later) * unit
        ≤ b.capacity * unit + (last_of now later - now) * b.refill
  let_through-bound b now later h =
      let (_, same_rate, moved) = charge_paid b now b.refill b.last refl refl in
      rw let_through-cons (
        omega (
          arith,
          let_through-le later (after b now) b.refill now same_rate moved h,
          charge_capped b now,
        ))

  one_fits : (capacity : ℕ) → 0 < capacity → unit ≤ capacity * unit
  one_fits zero h = elim h [ ]
  one_fits (suc c) h = omega arith

  -- With a capacity above zero, a call is let through as soon as the time since the last one has
  -- refilled a token's worth.
  pub try_consume-recovers :
      (b : TokenBucket) (now : ℕ)
      → 0 < unit
      → 0 < b.capacity
      → unit ≤ (now - b.last) * b.refill
      → (b' : TokenBucket) × (try_consume unit b unit now ≡ ok (b', true))
  unfolding try_consume
  try_consume-recovers b now p fits waited = (
    (take_units unit (refill_locked unit b now) unit).0,
    ground (arith, one_fits b.capacity fits),
  )
