-- ===== src/Bridge/RateLimit/Slots.antt =====
-- `BridgeRateLimiter` of bridge/rate_limit.py: the cap on requests in flight under every
-- interleaving of sessions, what a slot gives back, and which sessions a call can touch.
use anglerfish_ai.Base.{
  ◌∙◌, ℕ, ◌+◌, ◌-◌, ◌≤◌, ◌<◌, ◌≡◌, ◌≢◌, refl, Bool, true, false, [], arith, some, number_key,
  number_iff,
}
use anglerfish_ai.Base.Dict
use anglerfish_ai.Base.Dict.{Dict}
use anglerfish_ai.Base.Result.{
  Result, ok, raise, session_rate_limited, global_queue_timeout, bind_returned,
}
use anglerfish_ai.Bridge.RateLimit.{
  TokenBucket, RateLimitConfig, RateLimiter, Uuid, Wait, granted, timed_out, make_bucket,
  evict_idle, find_or_make, bucket_for, try_consume, admit, hold, slot_after, slot,
}

-- The limiter with the calls that wait for the semaphore and those that hold it.
pub record System : Type 0 where
  pub limiter : RateLimiter
  pub waiting : ℕ
  pub holding : ℕ

module _ (unit : ℕ) (c : RateLimitConfig) where
  abbrev pub start : System
  start = record {
    limiter = record { buckets = []; free = c.max_concurrent_requests };
    waiting = 0;
    holding = 0;
  }

  -- The event loop runs one session's `slot` from one `await` to the next. What a granted call does
  -- is read off `hold`: the limiter its body starts with, and the one it leaves when its body has
  -- ended in a given limiter. That a slot is granted only while one is free is the semaphore's.
  pub data Step (s t : System) : Type 0 where
    arrive :
        (sid : Uuid) (now : ℕ) (l : RateLimiter)
        → admit unit c s.limiter sid now ≡ ok (l, true)
        → t ≡ record s { limiter = l; waiting = s.waiting + 1 }
        → Step s t
    refuse :
        (sid : Uuid) (now : ℕ) (l : RateLimiter)
        → admit unit c s.limiter sid now ≡ ok (l, false)
        → t ≡ record s { limiter = l }
        → Step s t
    grant :
        (l : RateLimiter)
        → 0 < s.waiting
        → 0 < s.limiter.free
        → (hold unit granted s.limiter (λ inside. (ok inside, inside))).0 ≡ ok l
        → t ≡ record s { limiter = l; waiting = s.waiting - 1; holding = s.holding + 1 }
        → Step s t
    time_out :
        (l : RateLimiter)
        → 0 < s.waiting
        → hold unit timed_out s.limiter (λ inside. (ok inside, inside))
          ≡ (raise global_queue_timeout, l)
        → t ≡ record s { limiter = l; waiting = s.waiting - 1 }
        → Step s t
    leave :
        (entered : RateLimiter) (result : Result (Unit {0}))
        → 0 < s.holding
        → t ≡ record s {
          limiter = (hold unit granted entered (λ inside. (result, s.limiter))).1;
          holding = s.holding - 1;
        }
        → Step s t

  pub data Reach (s : System) : System → Type 0 where
    here : Reach s s
    next : {t u : System} → Reach s t → Step t u → Reach s u

  find-free :
      (s : RateLimiter) (sid : Uuid) (now : ℕ) {l : RateLimiter} {b : TokenBucket}
      → bucket_for unit c s sid now ≡ ok (l, b)
      → l.free ≡ s.free
  unfolding bucket_for make_bucket
  find-free s sid now h = ground arith

  -- Admission never touches the semaphore.
  admit-free :
      (s : RateLimiter) (sid : Uuid) (now : ℕ) {l : RateLimiter} {taken : Bool}
      → admit unit c s sid now ≡ ok (l, taken)
      → l.free ≡ s.free
  unfolding admit make_bucket
  admit-free s sid now h = ground arith

  abbrev pub IsBalanced : System → Type 0
  IsBalanced s = s.limiter.free + s.holding ≡ c.max_concurrent_requests

  Step-IsBalanced : {s t : System} → Step s t → IsBalanced s → IsBalanced t
  unfolding hold
  Step-IsBalanced {s} {t} (arrive sid now l e p) h = ground (arith, admit-free s.limiter sid now e)
  Step-IsBalanced {s} {t} (refuse sid now l e p) h = ground (arith, admit-free s.limiter sid now e)
  Step-IsBalanced {s} {t} (grant l w f e p) h = ground arith
  Step-IsBalanced {s} {t} (time_out l w e p) h = ground arith
  Step-IsBalanced {s} {t} (leave entered result b p) h = ground arith

  Reach-IsBalanced : {s t : System} → IsBalanced s → Reach s t → IsBalanced t
  Reach-IsBalanced h here = h
  Reach-IsBalanced h (next r st) = Step-IsBalanced st (Reach-IsBalanced h r)

  -- However the sessions interleave, from one `await` of `slot` to the next, never more than
  -- `max_concurrent_requests` calls hold a slot, and a slot that no call holds is free: calls that
  -- are refused or time out take none, and a call whose body has ended, with a result or an
  -- exception, has given its slot back. The semaphore grants a slot only while one is free.
  pub holding-le-max :
      {s : System}
      → Reach start s
      → (s.holding ≤ c.max_concurrent_requests)
        × (s.limiter.free ≡ c.max_concurrent_requests - s.holding)
  holding-le-max {s} r = omega (arith, Reach-IsBalanced {s = start} {t = s} (omega arith) r)

  module _ {ℓ} {A : Type ℓ} (s : RateLimiter) (sid : Uuid) (now : ℕ) (wait : Wait)
      (body : RateLimiter → Result A × RateLimiter) where
    slot-admit :
        slot unit c s sid now wait body ≡ slot_after unit (admit unit c s sid now) s wait body
    unfolding slot
    slot-admit = refl

    -- What `slot` returns: its body runs only with a token and a slot.
    abbrev pub outcome : RateLimiter → Bool → Wait → Result A
    outcome l false w = raise session_rate_limited
    outcome l true timed_out = raise global_queue_timeout
    outcome l true granted = (body (record l { free = l.free - 1 })).0

    slot_after-outcome :
        (l : RateLimiter) (taken : Bool) (w : Wait)
        → 0 < l.free
        → (body (record l { free = l.free - 1 })).1.free ≡ l.free - 1
        → ((slot_after unit (ok (l, taken)) s w body).0 ≡ outcome l taken w)
          × ((slot_after unit (ok (l, taken)) s w body).1.free ≡ l.free)
    unfolding slot_after hold
    slot_after-outcome l false w p q = (refl, refl)
    slot_after-outcome l true timed_out p q = (refl, refl)
    slot_after-outcome l true granted p q = (refl, omega (arith, q))

    -- A call with no token left is refused, one that waits too long times out, and neither runs the
    -- body; on every branch the semaphore is in the end as it was, if the body gives back what it
    -- takes.
    pub slot-outcome :
        {l : RateLimiter} {taken : Bool}
        → admit unit c s sid now ≡ ok (l, taken)
        → 0 < s.free
        → (body (record l { free = l.free - 1 })).1.free ≡ l.free - 1
        → ((slot unit c s sid now wait body).0 ≡ outcome l taken wait)
          × ((slot unit c s sid now wait body).1.free ≡ s.free)
    slot-outcome {l} {taken} e p q =
        let f : l.free ≡ s.free = admit-free s sid now e in
        let (result, balance) = slot_after-outcome l taken wait (omega (arith, f)) q in
        rw (slot-admit, e) (result, balance ∙ f)

  evict_idle-keeps :
      (s : RateLimiter) (sid : Uuid) (now seen : ℕ) (bucket : TokenBucket)
      → Dict.get sid s.buckets ≡ some (bucket, seen)
      → now ≤ seen + c.bucket_idle_eviction
      → Dict.get sid (evict_idle unit c s now).buckets ≡ some (bucket, seen)
  unfolding evict_idle
  evict_idle-keeps s sid now seen bucket found live =
      Dict.get-select _ sid (bucket, seen) s.buckets found (λ j same. ground arith)

  admit_shape :
      (s : RateLimiter) (sid : Uuid) (now : ℕ) {l : RateLimiter} {taken : Bool}
      → admit unit c s sid now ≡ ok (l, taken)
      → (old new : TokenBucket × ℕ) × (l.buckets
          ≡ Dict.put sid new (Dict.put sid old (evict_idle unit c s now).buckets))
  unfolding admit
  admit_shape s sid now e =
      let known = Dict.get sid (evict_idle unit c s now).buckets in
      let (found, looked_up, rest) = bind_returned (bucket_for unit c s sid now) _ e in
      let (bucket, made, table) = bind_returned (find_or_make unit c known now) _ looked_up in
      let (spent, consumed, finished) = bind_returned (try_consume unit found.1 unit now) _ rest in
      ((bucket, now), (spent.0, now), ground arith)

  -- A session whose bucket was used within the eviction time keeps it, untouched, through a call of
  -- another session.
  pub admit-keeps-live :
      (s : RateLimiter) (sid other : Uuid) (now seen : ℕ) (bucket : TokenBucket) {l : RateLimiter}
      {taken : Bool}
      → admit unit c s sid now ≡ ok (l, taken)
      → sid ≢ other
      → Dict.get other s.buckets ≡ some (bucket, seen)
      → now ≤ seen + c.bucket_idle_eviction
      → Dict.get other l.buckets ≡ some (bucket, seen)
  admit-keeps-live s sid other now seen bucket e ne found live =
      let (old, new, shape) = admit_shape s sid now e in
      let kept = evict_idle-keeps s other now seen bucket found live in
      rw shape (
        ground (
          arith,
          number_iff sid other,
          Dict.get-put sid other new (Dict.put sid old (evict_idle unit c s now).buckets),
          Dict.get-put sid other old (evict_idle unit c s now).buckets,
        ))
