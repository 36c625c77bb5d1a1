-- ===== src/Lure/Limiter/Live.antt =====
-- The caps of `_PerIPLimiter` over every order of connections and disconnections, against the
-- connections that are live.
use anglerfish_ai.Base.{
  ℕ, suc, ◌+◌, ◌-◌, ◌≤◌, ◌<◌, ◌≡◌, ◌≢◌, refl, ap, ◌∙◌, max, Option, some, List, [], ◌∷◌, length,
  if◌then◌else◌, text_same, text_iff, text_key, arith,
}
use anglerfish_ai.Base.Dict
use anglerfish_ai.Base.Text.{Text}
use anglerfish_ai.Lure.Limiter.{
  PerIpLimiter, Verdict, accepted, global_concurrent, per_ip_concurrent, per_ip_rpm,
  recent_sweep_threshold, make_limiter, count_in, concurrent_for, admit, release,
}
use anglerfish_ai.Lure.Limiter.Windows.{Short}
use anglerfish_ai.Lure.Limiter.Counts.{Capped-get}
use anglerfish_ai.Lure.Limiter.Bounded.{
  IsBounded, make_limiter-IsBounded, admit-IsBounded, release-IsBounded, admit-counts,
  admit-refusal,
}

-- How many of the live connections an address has.
abbrev pub count : Text → List Text → ℕ
count ip [] = 0
count ip (j ∷ live) = if text_same j ip then suc (count ip live) else count ip live

-- The connections that are left when one of an address ends.
abbrev pub without_one : Text → List Text → List Text
without_one ip [] = []
without_one ip (j ∷ live) =
    let rest = without_one ip live in if text_same j ip then live else j ∷ rest

abbrev pub after_verdict : Verdict → Text → List Text → List Text
after_verdict accepted ip live = ip ∷ live
after_verdict global_concurrent ip live = live
after_verdict per_ip_concurrent ip live = live
after_verdict per_ip_rpm ip live = live

count-without_one :
    (ip j : Text) (live : List Text)
    → 0 < count ip live
    → count j (without_one ip live) + (if text_same ip j then 1 else 0) ≡ count j live
count-without_one ip j [] h = absurd (omega arith)
count-without_one ip j (k ∷ live) h =
    ground (arith, text_iff k ip, text_iff k j, text_iff ip j, count-without_one ip j live)

length-without_one :
    (ip : Text) (live : List Text)
    → 0 < count ip live
    → length (without_one ip live) + 1 ≡ length live
length-without_one ip [] h = absurd (omega arith)
length-without_one ip (k ∷ live) h = ground (arith, length-without_one ip live)

-- The limiter with the addresses of the connections that were accepted and have not ended.
pub record System : Type 0 where
  pub limiter : PerIpLimiter
  pub live : List Text

module _ (window max_concurrent max_rpm max_total : ℕ) where
  -- A connection is accepted and is live, or is refused and is not; a live connection ends.
  pub data Step (s t : System) : Type 0 where
    connect :
        (ip : Text) (ts : ℕ)
        → t ≡ record {
          limiter = (admit window s.limiter ip ts).0;
          live = after_verdict (admit window s.limiter ip ts).1 ip s.live;
        }
        → Step s t
    disconnect :
        (ip : Text)
        → 0 < count ip s.live
        → t ≡ record { limiter = release s.limiter ip; live = without_one ip s.live }
        → Step s t

  abbrev pub opened : System
  opened = record { limiter = make_limiter max_concurrent max_rpm max_total; live = [] }

  pub data Reach : System → Type 0 where
    start : Reach opened
    next : {s t : System} → Reach s → Step s t → Reach t

  -- The limiter counts the live connections, and its own bounds hold.
  record IsCounted (s : System) : Type 0 where
    same_total : s.limiter.total ≡ length s.live
    same_count : (ip : Text) → concurrent_for s.limiter ip ≡ count ip s.live
    bounds : IsBounded max_concurrent max_rpm max_total s.limiter

  opened-IsCounted : IsCounted opened
  unfolding make_limiter concurrent_for
  opened-IsCounted = record {
    same_total = refl;
    same_count = λ ip. refl;
    bounds = make_limiter-IsBounded window max_concurrent max_rpm max_total;
  }

  accepted-IsCounted :
      (s : System) (ip : Text) (ts : ℕ)
      → (admit window s.limiter ip ts).1 ≡ accepted
      → IsCounted s
      → IsCounted (record { limiter = (admit window s.limiter ip ts).0; live = ip ∷ s.live })
  unfolding concurrent_for
  accepted-IsCounted s ip ts let_in h =
      let (total, table) = admit-counts window s.limiter ip ts let_in in
      record {
        same_total = omega (arith, total, h.same_total);
        same_count = λ j.
            ap (λ d. count_in (Dict.get j d)) table
            ∙ counted j (Dict.get-put ip j (concurrent_for s.limiter ip + 1) s.limiter.concurrent)
                (h.same_count ip) (h.same_count j);
        bounds = admit-IsBounded window max_concurrent max_rpm max_total s.limiter ip ts h.bounds;
      }
    where
      counted :
          (j : Text) {n : ℕ} {found : Option ℕ}
          → found ≡ (if text_same ip j then some (n + 1) else Dict.get j s.limiter.concurrent)
          → n ≡ count ip s.live
          → count_in (Dict.get j s.limiter.concurrent) ≡ count j s.live
          → count_in found ≡ count j (ip ∷ s.live)
      counted j e here there = ground (arith, text_iff ip j)

  refused-IsCounted :
      (s : System) (ip : Text) (ts : ℕ)
      → (admit window s.limiter ip ts).1 ≢ accepted
      → IsCounted s
      → IsCounted (record { limiter = (admit window s.limiter ip ts).0; live = s.live })
  unfolding concurrent_for
  refused-IsCounted s ip ts turned_away h =
      let (total, table, _) = admit-refusal window s.limiter ip ts turned_away in
      record {
        same_total = total ∙ h.same_total;
        same_count = λ j. ap (λ d. count_in (Dict.get j d)) table ∙ h.same_count j;
        bounds = admit-IsBounded window max_concurrent max_rpm max_total s.limiter ip ts h.bounds;
      }

  connect-IsCounted :
      (s : System) (ip : Text) (ts : ℕ) (verdict : Verdict)
      → (admit window s.limiter ip ts).1 ≡ verdict
      → IsCounted s
      → IsCounted (record {
        limiter = (admit window s.limiter ip ts).0;
        live = after_verdict verdict ip s.live;
      })
  connect-IsCounted s ip ts accepted e h = accepted-IsCounted s ip ts e h
  connect-IsCounted s ip ts global_concurrent e h = refused-IsCounted s ip ts (λ let_in. cc) h
  connect-IsCounted s ip ts per_ip_concurrent e h = refused-IsCounted s ip ts (λ let_in. cc) h
  connect-IsCounted s ip ts per_ip_rpm e h = refused-IsCounted s ip ts (λ let_in. cc) h

  release-count :
      (l : PerIpLimiter) (ip j : Text)
      → concurrent_for (release l ip) j + (if text_same ip j then 1 else 0)
        ≡ (if text_same ip j then max 1 (concurrent_for l j) else concurrent_for l j)
  unfolding release concurrent_for
  release-count l ip j =
      let count_here = count_in (Dict.get ip l.concurrent) in
      ground (
        arith,
        text_iff ip j,
        Dict.get-put ip j (count_here - 1) l.concurrent,
        Dict.get-remove ip j l.concurrent,
      )

  release-total : (l : PerIpLimiter) (ip : Text) → (release l ip).total ≡ l.total - 1
  unfolding release
  release-total l ip = refl

  disconnect-IsCounted :
      (s : System) (ip : Text)
      → 0 < count ip s.live
      → IsCounted s
      → IsCounted (record { limiter = release s.limiter ip; live = without_one ip s.live })
  disconnect-IsCounted s ip some_live h = record {
    same_total =
        omega
          (arith, release-total s.limiter ip, h.same_total, length-without_one ip s.live some_live);
    same_count = λ j. ground (
      arith,
      text_iff ip j,
      release-count s.limiter ip j,
      h.same_count j,
      h.same_count ip,
      count-without_one ip j s.live some_live,
    );
    bounds =
        release-IsBounded window max_concurrent max_rpm max_total s.limiter ip
          (omega (arith, h.same_count ip)) h.bounds;
  }

  Reach-IsCounted : {s : System} → Reach s → IsCounted s
  Reach-IsCounted start = opened-IsCounted
  Reach-IsCounted (next {s} {t} r (connect ip ts e)) =
      rw e (connect-IsCounted s ip ts (admit window s.limiter ip ts).1 refl (Reach-IsCounted r))
  Reach-IsCounted (next {s} {t} r (disconnect ip some_live e)) =
      rw e (disconnect-IsCounted s ip some_live (Reach-IsCounted r))

  -- Whatever the order in which addresses connect and live connections end, at most `max_total`
  -- connections are live, at most `max_concurrent` of one address, and the limiter's counters are
  -- the numbers of the live connections. No more than one address above the sweep threshold has a
  -- rate window, and none of them is longer than `max_rpm`. A connection is live from its acceptance
  -- to its one release.
  pub limits_hold :
      {s : System} (ip : Text)
      → Reach s
      → (length s.live ≤ max_total)
        × (count ip s.live ≤ max_concurrent)
        × (s.limiter.total ≡ length s.live)
        × (concurrent_for s.limiter ip ≡ count ip s.live)
        × (length s.limiter.recent ≤ recent_sweep_threshold + 1)
        × Short max_rpm s.limiter.recent
  unfolding concurrent_for
  limits_hold {s} ip r =
      let h = Reach-IsCounted r in
      let capped = Capped-get max_concurrent ip s.limiter.concurrent h.bounds.each_le in
      (
        omega (arith, h.same_total, h.bounds.total_le),
        omega (arith, h.same_count ip, capped),
        h.same_total,
        h.same_count ip,
        h.bounds.recent_le,
        h.bounds.windows_le,
      )
