-- ===== src/Lure/Limiter/Bounded.antt =====
-- The bounds that the operations of `_PerIPLimiter` keep, and what an admission and a release do.
use anglerfish_ai.Base.{
  ℕ, ◌+◌, ◌-◌, ◌≤◌, ◌<◌, ◌≡◌, refl, [], ◌∷◌, ◌++◌, inl, inr, leb, Bool-cases, length, length-append,
  ◌≢◌, ◌↔◌, text_iff, same_refl, text_key, arith,
}
use anglerfish_ai.Base.Dict
use anglerfish_ai.Base.Dict.{Dict}
use anglerfish_ai.Base.Text.{Text}
use anglerfish_ai.Lure.Limiter.{
  PerIpLimiter, accepted, global_concurrent, recent_sweep_threshold, make_limiter, count_in,
  concurrent_for, maybe_sweep, drop_expired, window_of, admit_window, admit, release,
}
use anglerfish_ai.Lure.Limiter.Windows.{
  Short, Short-put, Short-maybe_sweep, length-maybe_sweep, length-window-le,
}
use anglerfish_ai.Lure.Limiter.Counts.{Capped, Capped-put, Capped-remove, Capped-get}

pub record IsBounded (max_concurrent max_rpm max_total : ℕ) (l : PerIpLimiter) : Type 0 where
  pub same_concurrent : l.max_concurrent ≡ max_concurrent
  pub same_rpm : l.max_rpm ≡ max_rpm
  pub same_total : l.max_total ≡ max_total
  pub total_le : l.total ≤ max_total
  pub each_le : Capped max_concurrent l.concurrent
  pub windows_le : Short max_rpm l.recent
  pub recent_le : length l.recent ≤ recent_sweep_threshold + 1

module _ (window max_concurrent max_rpm max_total : ℕ) where
  abbrev Bounded : PerIpLimiter → Type 0
  Bounded = IsBounded max_concurrent max_rpm max_total

  pub make_limiter-IsBounded : Bounded (make_limiter max_concurrent max_rpm max_total)
  unfolding make_limiter
  make_limiter-IsBounded = record {
    same_concurrent = refl;
    same_rpm = refl;
    same_total = refl;
    total_le = omega arith;
    each_le = tt;
    windows_le = tt;
    recent_le = omega arith;
  }

  admit_window-IsBounded :
      (l : PerIpLimiter) (ip : Text) (ts : ℕ)
      → l.total < max_total
      → concurrent_for l ip < max_concurrent
      → Bounded l
      → Bounded (admit_window window l ip ts).0
  unfolding admit_window concurrent_for
  admit_window-IsBounded l ip ts t c h =
      let cutoff = ts - window in
      let swept = maybe_sweep cutoff l.recent in
      let kept = Short-maybe_sweep max_rpm cutoff l.recent h.windows_le in
      let found = drop_expired cutoff (window_of (Dict.get ip swept)) in
      let shorter = length-window-le max_rpm cutoff ip swept kept in
      let count = count_in (Dict.get ip l.concurrent) in
      elim (Bool-cases (leb l.max_rpm (length found))) [
        | inl full ↦ rw full (record {
          same_concurrent = h.same_concurrent;
          same_rpm = h.same_rpm;
          same_total = h.same_total;
          total_le = h.total_le;
          each_le = h.each_le;
          windows_le = Short-put max_rpm ip found swept shorter kept;
          recent_le =
              omega (arith, length-maybe_sweep cutoff l.recent, Dict.length-put-le ip found swept);
        })
        | inr room ↦ rw room (record {
          same_concurrent = h.same_concurrent;
          same_rpm = h.same_rpm;
          same_total = h.same_total;
          total_le = omega arith;
          each_le = Capped-put max_concurrent ip (count + 1) l.concurrent (omega arith) h.each_le;
          windows_le =
              Short-put max_rpm ip (found ++ ts ∷ []) swept
                (ground (arith, length-append found (ts ∷ []), h.same_rpm)) kept;
          recent_le = omega (
            arith,
            length-maybe_sweep cutoff l.recent,
            Dict.length-put-le ip (found ++ ts ∷ []) swept,
          );
        })
      ]

  pub admit-IsBounded :
      (l : PerIpLimiter) (ip : Text) (ts : ℕ) → Bounded l → Bounded (admit window l ip ts).0
  unfolding admit
  admit-IsBounded l ip ts h = elim (Bool-cases (leb l.max_total l.total)) [
    | inl full ↦ rw full h
    | inr some_left ↦ elim (Bool-cases (leb l.max_concurrent (concurrent_for l ip))) [
      | inl many ↦ rw (some_left, many) h
      | inr few ↦
          rw (some_left, few)
            (admit_window-IsBounded l ip ts (ground (arith, h.same_total))
              (ground (arith, h.same_concurrent)) h)
    ]
  ]

  pub release-IsBounded :
      (l : PerIpLimiter) (ip : Text) → 0 < concurrent_for l ip → Bounded l → Bounded (release l ip)
  unfolding release concurrent_for
  release-IsBounded l ip live h =
      let count = count_in (Dict.get ip l.concurrent) in
      elim (Bool-cases (leb count 1)) [
        | inl one ↦ rw one (record {
          same_concurrent = h.same_concurrent;
          same_rpm = h.same_rpm;
          same_total = h.same_total;
          total_le = omega (arith, h.total_le);
          each_le = Capped-remove max_concurrent ip l.concurrent h.each_le;
          windows_le = h.windows_le;
          recent_le = h.recent_le;
        })
        | inr more ↦ rw more (record {
          same_concurrent = h.same_concurrent;
          same_rpm = h.same_rpm;
          same_total = h.same_total;
          total_le = omega (arith, h.total_le);
          each_le =
              Capped-put max_concurrent ip (count - 1) l.concurrent
                (omega (arith, Capped-get max_concurrent ip l.concurrent h.each_le)) h.each_le;
          windows_le = h.windows_le;
          recent_le = h.recent_le;
        })
      ]

module _ (window : ℕ) (l : PerIpLimiter) (ip : Text) (ts : ℕ) where
  -- What an admission did to the counts.
  pub admit-counts :
      (admit window l ip ts).1 ≡ accepted
      → ((admit window l ip ts).0.total ≡ l.total + 1)
        × ((admit window l ip ts).0.concurrent ≡ Dict.put ip (concurrent_for l ip + 1) l.concurrent)
  unfolding admit admit_window
  admit-counts h = ground arith

  -- A connection that was admitted and then ends leaves the total and the count of every address as
  -- they were.
  pub release-admit :
      (j : Text)
      → (admit window l ip ts).1 ≡ accepted
      → ((release (admit window l ip ts).0 ip).total ≡ l.total)
        × (concurrent_for (release (admit window l ip ts).0 ip) j ≡ concurrent_for l j)
  unfolding release concurrent_for
  release-admit j h =
      let (sum, table) = admit-counts h in
      let count = count_in (Dict.get ip l.concurrent) in
      let bumped = Dict.put ip (count + 1) l.concurrent in
      (
        omega (arith, sum),
        rw table (
            ground (
              arith,
              text_iff ip j,
              same_refl ip,
              Dict.get-put ip ip (count + 1) l.concurrent,
              Dict.get-put ip j (count + 1) l.concurrent,
              Dict.get-put ip j (count + 1 - 1) bumped,
              Dict.get-remove ip j bumped,
            )),
      )

  -- A refused connection changes neither the total nor any address's count, and the reason is the
  -- global cap exactly when the total has reached it.
  pub admit-refusal :
      (admit window l ip ts).1 ≢ accepted
      → ((admit window l ip ts).0.total ≡ l.total)
        × ((admit window l ip ts).0.concurrent ≡ l.concurrent)
        × (((admit window l ip ts).1 ≡ global_concurrent) ↔ (l.max_total ≤ l.total))
  unfolding admit admit_window
  admit-refusal h = ground arith
