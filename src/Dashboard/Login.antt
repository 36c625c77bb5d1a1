-- ===== src/Dashboard/Login.antt =====
-- `LoginRateLimiter` of src/anglerfish/dashboard/rate_limit.py, which also fronts the callback
-- receiver. As in the bridge's limiter, tokens are counted in units, `unit` of them to one token, and
-- `refill` of them to one tick of the clock.
pub mod Promise
mod Tests
use anglerfish_ai.Base.{
  ℕ, ◌+◌, ◌-◌, ◌*◌, min, Bool, true, false, not, List, [], ◌∷◌, Option, none, some, leb, ltb,
  if◌then◌else◌, select, length, text_key,
}
use anglerfish_ai.Base.Dict
use anglerfish_ai.Base.Dict.{Dict}
use anglerfish_ai.Base.Text.{Text}
use anglerfish_ai.Base.Result.{Result, ok, raise, value_error}

-- A refusal tells how many units are missing; the source divides them by the refill rate.
pub record RateLimitDecision : Type 0 where
  pub allowed : Bool
  pub missing : ℕ

pub record LoginRateLimiter : Type 0 where
  pub capacity : ℕ
  pub refill : ℕ
  pub max_buckets : ℕ
  pub buckets : Dict Text (ℕ × ℕ)

unfoldable pub make_login_limiter : ℕ → ℕ → ℕ → Result LoginRateLimiter
make_login_limiter capacity refill max_buckets =
    if ltb capacity 1
    then raise value_error
    else if leb refill 0
    then raise value_error
    else ok
        (record { capacity = capacity; refill = refill; max_buckets = max_buckets; buckets = [] })

module _ (unit : ℕ) where
  unfoldable pub refilled : LoginRateLimiter → ℕ → ℕ → ℕ → ℕ
  refilled l tokens last now = min (l.capacity * unit) (tokens + (now - last) * l.refill)

  unfoldable pub clear_if_over : LoginRateLimiter → LoginRateLimiter
  clear_if_over l = if ltb l.max_buckets (length l.buckets) then record l { buckets = [] } else l

  -- `_evict_locked`
  unfoldable pub evict : LoginRateLimiter → ℕ → LoginRateLimiter
  unfolding refilled clear_if_over
  evict l now =
      if leb (length l.buckets) l.max_buckets
      then l
      else clear_if_over (record l {
        buckets =
            select (λ e. not (leb (l.capacity * unit) (refilled l e.1.0 e.1.1 now))) l.buckets;
      })

  unfoldable pub tokens_at : LoginRateLimiter → ℕ → Option (ℕ × ℕ) → ℕ
  unfolding refilled
  tokens_at l now none = refilled l (l.capacity * unit) now now
  tokens_at l now (some (tokens, last)) = refilled l tokens last now

  unfoldable pub decide : LoginRateLimiter → Text → ℕ → ℕ → LoginRateLimiter × RateLimitDecision
  decide l key now tokens =
      if leb unit tokens
      then (
        record l { buckets = Dict.put key (tokens - unit, now) l.buckets },
        record { allowed = true; missing = 0 },
      )
      else (
        record l { buckets = Dict.put key (tokens, now) l.buckets },
        record { allowed = false; missing = unit - tokens },
      )

  unfoldable pub consume_login : LoginRateLimiter → Text → ℕ → LoginRateLimiter × RateLimitDecision
  unfolding evict tokens_at decide
  consume_login l key now =
      let swept = evict l now in
      decide swept key now (tokens_at swept now (Dict.get key swept.buckets))

unfoldable pub reset : LoginRateLimiter → Text → LoginRateLimiter
reset l key = record l { buckets = Dict.remove key l.buckets }
