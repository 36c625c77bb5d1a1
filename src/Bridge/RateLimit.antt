-- ===== src/Bridge/RateLimit.antt =====
-- src/anglerfish/bridge/rate_limit.py: a token bucket for each session, and a cap on the requests in
-- flight. A clock reading is a number of ticks. Tokens are counted in units, `unit` of them to one
-- token, so that a tick refills a whole number of units: with h ticks a second and `unit = 60 * h`,
-- that number is `requests_per_session_per_minute`.
pub mod Bucket
pub mod Slots
mod Tests
use anglerfish_ai.Base.{
  ℕ, ◌+◌, ◌-◌, ◌*◌, min, Bool, true, false, not, List, ltb, leb, if◌then◌else◌, select, length,
  Option, none, some,
}
use anglerfish_ai.Base.{number_key}
use anglerfish_ai.Base.Dict
use anglerfish_ai.Base.Dict.{Dict}
use anglerfish_ai.Base.Result.{
  Result, ok, raise, Exception, value_error, session_rate_limited, global_queue_timeout, ◌>>=◌,
}

pub record TokenBucket : Type 0 where
  pub capacity : ℕ
  pub refill : ℕ
  pub tokens : ℕ
  pub last : ℕ

pub record RateLimitConfig : Type 0 where
  pub max_concurrent_requests : ℕ
  pub requests_per_session_per_minute : ℕ
  pub session_burst : ℕ
  pub bucket_idle_eviction : ℕ

abbrev pub Uuid : Type 0
Uuid = ℕ

-- `free` is what is left of the semaphore.
pub record RateLimiter : Type 0 where
  pub buckets : Dict Uuid (TokenBucket × ℕ)
  pub free : ℕ

-- How `wait_for(semaphore.acquire(), queue_timeout_s)` ends.
pub data Wait : Type 0 where
  granted timed_out : Wait

module _ (unit : ℕ) where
  unfoldable pub make_bucket : ℕ → ℕ → ℕ → Result TokenBucket
  make_bucket capacity refill now =
      if leb capacity 0
      then raise value_error
      else if leb refill 0
      then raise value_error
      else ok
          (record { capacity = capacity; refill = refill; tokens = capacity * unit; last = now })

  unfoldable pub refill_locked : TokenBucket → ℕ → TokenBucket
  refill_locked b now = record b {
    tokens = min (b.capacity * unit) (b.tokens + (now - b.last) * b.refill);
    last = now;
  }

  unfoldable pub take_units : TokenBucket → ℕ → TokenBucket × Bool
  take_units b n = if leb n b.tokens then (record b { tokens = b.tokens - n }, true) else (b, false)

  unfoldable pub try_consume : TokenBucket → ℕ → ℕ → Result (TokenBucket × Bool)
  unfolding refill_locked take_units
  try_consume b n now =
      if leb n 0 then raise value_error else ok (take_units (refill_locked b now) n)

  unfoldable pub evict_idle : RateLimitConfig → RateLimiter → ℕ → RateLimiter
  evict_idle c s now = record s {
    buckets = select (λ entry. not (ltb entry.1.1 (now - c.bucket_idle_eviction))) s.buckets;
  }

  -- The bucket of a session that is known, or a full one.
  unfoldable pub find_or_make : RateLimitConfig → Option (TokenBucket × ℕ) → ℕ → Result TokenBucket
  unfolding make_bucket
  find_or_make c (some (bucket, _)) now = ok bucket
  find_or_make c none now = make_bucket c.session_burst c.requests_per_session_per_minute now

  unfoldable pub bucket_for :
      RateLimitConfig → RateLimiter → Uuid → ℕ → Result (RateLimiter × TokenBucket)
  unfolding evict_idle find_or_make
  bucket_for c s session_id now = do
    let live = evict_idle c s now
    bucket ← find_or_make c (Dict.get session_id live.buckets) now
    ok (record live { buckets = Dict.put session_id (bucket, now) live.buckets }, bucket)

  -- The bucket is shared by reference: what `try_consume` does to it is seen in the table.
  unfoldable pub admit : RateLimitConfig → RateLimiter → Uuid → ℕ → Result (RateLimiter × Bool)
  unfolding bucket_for try_consume
  admit c s session_id now = do
    (s', bucket) ← bucket_for c s session_id now
    (bucket', taken) ← try_consume bucket unit now
    ok (record s' { buckets = Dict.put session_id (bucket', now) s'.buckets }, taken)

  -- The semaphore, around the body of the `async with`.
  unfoldable pub hold {ℓ} :
      {A : Type ℓ}
      → Wait
      → RateLimiter
      → (RateLimiter → Result A × RateLimiter)
      → Result A × RateLimiter
  hold timed_out s body = (raise global_queue_timeout, s)
  hold granted s body =
      let (r, s') = body (record s { free = s.free - 1 }) in (r, record s' { free = s'.free + 1 })

  unfoldable pub slot_after {ℓ} :
      {A : Type ℓ}
      → Result (RateLimiter × Bool)
      → RateLimiter
      → Wait
      → (RateLimiter → Result A × RateLimiter)
      → Result A × RateLimiter
  unfolding hold
  slot_after (raise x) s wait body = (raise x, s)
  slot_after (ok (s', false)) s wait body = (raise session_rate_limited, s')
  slot_after (ok (s', true)) s wait body = hold wait s' body

  unfoldable pub slot {ℓ} :
      {A : Type ℓ}
      → RateLimitConfig
      → RateLimiter
      → Uuid
      → ℕ
      → Wait
      → (RateLimiter → Result A × RateLimiter)
      → Result A × RateLimiter
  unfolding admit slot_after
  slot c s session_id now wait body = slot_after (admit c s session_id now) s wait body

unfoldable pub active_session_count : RateLimiter → ℕ
active_session_count s = length s.buckets
