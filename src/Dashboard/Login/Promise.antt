-- ===== src/Dashboard/Login/Promise.antt =====
-- How much the login limiter remembers, and what its refusals promise.
use anglerfish_ai.Base.{
  ℕ, zero, suc, ◌+◌, ◌-◌, ◌*◌, ◌≤◌, ◌<◌, ◌≡◌, refl, ap, min, true, false, some, length, text_key,
  same_refl, arith,
}
use anglerfish_ai.Base.Dict
use anglerfish_ai.Base.Text.{Text}
use anglerfish_ai.Dashboard.Login.{
  LoginRateLimiter, refilled, clear_if_over, evict, tokens_at, decide, consume_login,
}

module _ (unit : ℕ) where
  length-evict-le :
      (l : LoginRateLimiter) (now : ℕ) → length (evict unit l now).buckets ≤ l.max_buckets
  unfolding evict clear_if_over
  length-evict-le l now = ground arith

  evict-max_buckets :
      (l : LoginRateLimiter) (now : ℕ) → (evict unit l now).max_buckets ≡ l.max_buckets
  unfolding evict clear_if_over
  evict-max_buckets l now = ground arith

  length-decide-le :
      (l : LoginRateLimiter) (key : Text) (now tokens : ℕ)
      → length (decide unit l key now tokens).0.buckets ≤ length l.buckets + 1
  unfolding decide
  length-decide-le l key now tokens = ground (
    arith,
    Dict.length-put-le key (tokens - unit, now) l.buckets,
    Dict.length-put-le key (tokens, now) l.buckets,
  )

  -- Whatever the addresses that try, the limiter remembers at most one more of them than
  -- `max_buckets`.
  pub consume_login-IsSmall :
      (l : LoginRateLimiter) (key : Text) (now : ℕ)
      → length (consume_login unit l key now).0.buckets ≤ l.max_buckets + 1
  unfolding consume_login
  consume_login-IsSmall l key now =
      let swept = evict unit l now in
      omega (
        arith,
        length-evict-le l now,
        length-decide-le swept key now (tokens_at unit swept now (Dict.get key swept.buckets)),
      )

  evict-small :
      (l : LoginRateLimiter) (now : ℕ) → length l.buckets ≤ l.max_buckets → evict unit l now ≡ l
  unfolding evict
  evict-small l now small = ground arith

  evict-rates :
      (l : LoginRateLimiter) (now : ℕ)
      → ((evict unit l now).capacity ≡ l.capacity) × ((evict unit l now).refill ≡ l.refill)
  unfolding evict clear_if_over
  evict-rates l now = ground arith

  decide-refused :
      (l : LoginRateLimiter) (key : Text) (now tokens : ℕ)
      → (decide unit l key now tokens).1.allowed ≡ false
      → ((decide unit l key now tokens).0
          ≡ record l { buckets = Dict.put key (tokens, now) l.buckets })
        × ((decide unit l key now tokens).1.missing ≡ unit - tokens)
  unfolding decide
  decide-refused l key now tokens refused = ground arith

  decide-allowed :
      (l : LoginRateLimiter) (key : Text) (now tokens : ℕ)
      → unit ≤ tokens
      → (decide unit l key now tokens).1.allowed ≡ true
  unfolding decide
  decide-allowed l key now tokens enough = ground arith

  one_fits : (capacity : ℕ) → 0 < capacity → unit ≤ capacity * unit
  one_fits zero room = elim room [ ]
  one_fits (suc c) room = omega arith

  -- A bucket that is found again with its missing units refilled lets the attempt pass.
  found-allowed :
      (l : LoginRateLimiter) (key : Text) (tokens now later : ℕ)
      → length l.buckets ≤ l.max_buckets
      → Dict.get key l.buckets ≡ some (tokens, now)
      → 0 < l.capacity
      → unit - tokens ≤ (later - now) * l.refill
      → (consume_login unit l key later).1.allowed ≡ true
  unfolding consume_login tokens_at refilled
  found-allowed l key tokens now later small found room waited =
      rw (evict-small l later small, found)
        (decide-allowed l key later (min (l.capacity * unit) (tokens + (later - now) * l.refill))
          (omega (arith, one_fits l.capacity room, waited)))

  -- A refused attempt at `now` tells how many units are missing, and an attempt of the same address
  -- that comes when they have been refilled, none between and the map not over its bound, is allowed.
  pub consume_login-recovers :
      (l : LoginRateLimiter) (key : Text) (now later : ℕ)
      → (consume_login unit l key now).1.allowed ≡ false
      → length (consume_login unit l key now).0.buckets ≤ l.max_buckets
      → 0 < l.capacity
      → (consume_login unit l key now).1.missing ≤ (later - now) * l.refill
      → (consume_login unit (consume_login unit l key now).0 key later).1.allowed ≡ true
  unfolding consume_login
  consume_login-recovers l key now later refused small room waited =
      let swept = evict unit l now in
      let tokens = tokens_at unit swept now (Dict.get key swept.buckets) in
      let (same_capacity, same_refill) = evict-rates l now in
      let (kept, told) = decide-refused swept key now tokens refused in
      let after : LoginRateLimiter = record swept {
        buckets = Dict.put key (tokens, now) swept.buckets;
      } in
      let found : Dict.get key after.buckets ≡ some (tokens, now) =
        rw (Dict.get-put key key (tokens, now) swept.buckets, same_refl key) refl in
      let size = ap (λ (m : LoginRateLimiter). length m.buckets) kept in
      let rate = ap (λ (r : ℕ). (later - now) * r) same_refill in
      rw kept (
        found-allowed after key tokens now later
          (omega (arith, size, evict-max_buckets l now, small)) found
          (omega (arith, same_capacity, room)) (omega (arith, rate, told, waited)))
