-- ===== src/Bridge/RateLimit/Tests.antt =====
-- Runs of bridge/rate_limit.py and its theorems at concrete inputs.
use anglerfish_ai.Base.{ℕ, ◌+◌, ◌-◌, ◌*◌, ◌≤◌, ◌≡◌, refl, true, List, [], ◌∷◌, number_key, arith}
use anglerfish_ai.Base.Result.{ok}
use anglerfish_ai.Bridge.RateLimit.{
  TokenBucket, RateLimitConfig, RateLimiter, make_bucket, refill_locked, take_units, try_consume,
  admit, granted, hold,
}
use anglerfish_ai.Bridge.RateLimit.Bucket.{let_through, let_through-bound}
use anglerfish_ai.Bridge.RateLimit.Slots.{
  System, start, Reach, here, next, arrive, grant, leave, holding-le-max,
}

program : Unit {0}
unfolding make_bucket refill_locked take_units try_consume admit let_through
program = tt

-- One tick a second: 60 units to a token, and a burst of two at one token a minute.
abbrev config : RateLimitConfig
config = record {
  max_concurrent_requests = 1;
  requests_per_session_per_minute = 1;
  session_burst = 2;
  bucket_idle_eviction = 600;
}

abbrev full : TokenBucket
full = record { capacity = 2; refill = 1; tokens = 120; last = 10 }

abbrev moments : List ℕ
moments = 10 ∷ 11 ∷ 12 ∷ 80 ∷ []

three_pass : let_through 60 full moments ≡ 3
unfolding program
three_pass = refl

make_bucket_runs : make_bucket 60 2 1 10 ≡ ok full
unfolding program
make_bucket_runs = refl

let_through-bound_example :
    let_through 60 full (10 ∷ 11 ∷ 12 ∷ 80 ∷ []) * 60 ≤ 2 * 60 + (80 - 10) * 1
let_through-bound_example = let_through-bound 60 full 10 (11 ∷ 12 ∷ 80 ∷ []) (omega arith)

abbrev spent : TokenBucket
spent = record full { tokens = 0 }

abbrev idle : RateLimiter
idle = record { buckets = []; free = 1 }

abbrev one_in : RateLimiter
one_in = record { buckets = (7, (record full { tokens = 60 }, 10)) ∷ []; free = 1 }

admit_runs : admit 60 config idle 7 10 ≡ ok (one_in, true)
unfolding program
admit_runs = refl

abbrev running : System
running = record { limiter = record one_in { free = 0 }; waiting = 0; holding = 1 }

-- One call arrives, is granted the slot and gives it back; it is granted to a second call.
abbrev done : System
done = record { limiter = one_in; waiting = 0; holding = 0 }

abbrev two_in : RateLimiter
two_in = record {
  buckets =
      (7, (record full { tokens = 60 }, 10))
      ∷ (8, (record full { tokens = 60; last = 20 }, 20))
      ∷ [];
  free = 1;
}

second_runs : admit 60 config one_in 8 20 ≡ ok (two_in, true)
unfolding program
second_runs = refl

abbrev again : System
again = record { limiter = record two_in { free = 0 }; waiting = 0; holding = 1 }

entered :
    (l : RateLimiter)
    → (hold 60 granted l (λ inside. (ok inside, inside))).0 ≡ ok (record l { free = l.free - 1 })
unfolding hold
entered l = refl

reached : Reach 60 config (start 60 config) running
reached =
    next (next here (arrive 7 10 one_in admit_runs refl))
      (grant (record one_in { free = 0 }) (omega arith) (omega arith) (entered one_in) refl)

reached_again : Reach 60 config (start 60 config) again
unfolding hold
reached_again =
    next
      (next (next {u = done} reached (leave one_in (ok tt) (omega arith) refl))
        (arrive 8 20 two_in second_runs refl))
      (grant (record two_in { free = 0 }) (omega arith) (omega arith) (entered two_in) refl)

holding-le-max_example : (again.holding ≤ 1) × (again.limiter.free ≡ 1 - again.holding)
holding-le-max_example = holding-le-max 60 config reached_again
