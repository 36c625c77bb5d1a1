-- ===== src/Lure/Limiter.antt =====
-- `_PerIPLimiter` of src/anglerfish/lure/server.py: a cap on the live sessions, a cap for each source
-- address, and a sliding window of connections for each address. A clock reading is a number of
-- ticks, `window` of them to `_RATE_WINDOW_SECONDS`.
pub mod Windows
pub mod Counts
pub mod Bounded
pub mod Live
mod Tests
use anglerfish_ai.Base.{
  ℕ, ◌+◌, ◌-◌, Bool, true, false, not, ◌||◌, List, [], ◌∷◌, ◌++◌, map, Option, none, some, ltb, leb,
  if◌then◌else◌, select, any, length, take, text_same, text_key,
}
use anglerfish_ai.Base.Dict
use anglerfish_ai.Base.Dict.{Dict}
use anglerfish_ai.Base.Text.{Text}

abbrev pub Deque : Type 0
Deque = List ℕ

pub record PerIpLimiter : Type 0 where
  pub max_concurrent : ℕ
  pub max_rpm : ℕ
  pub max_total : ℕ
  pub total : ℕ
  pub concurrent : Dict Text ℕ
  pub recent : Dict Text Deque

-- What `admit` answers: the reason of a refusal, if any.
pub data Verdict : Type 0 where
  accepted global_concurrent per_ip_concurrent per_ip_rpm : Verdict

abbrev pub recent_sweep_threshold : ℕ
recent_sweep_threshold = 10000

abbrev pub recent_evict_target : ℕ
recent_evict_target = 7500

unfoldable pub make_limiter : ℕ → ℕ → ℕ → PerIpLimiter
make_limiter max_concurrent max_rpm max_total = record {
  max_concurrent = max_concurrent;
  max_rpm = max_rpm;
  max_total = max_total;
  total = 0;
  concurrent = [];
  recent = [];
}

abbrev pub count_in : Option ℕ → ℕ
count_in none = 0
count_in (some n) = n

unfoldable pub concurrent_for : PerIpLimiter → Text → ℕ
concurrent_for l ip = count_in (Dict.get ip l.concurrent)

-- The newest moment of a window; an empty window has none, and is dropped before it is asked for.
abbrev pub newest : Deque → ℕ
newest [] = 0
newest (t ∷ []) = t
newest (t ∷ u ∷ ts) = newest (u ∷ ts)

abbrev pub is_stale : ℕ → Text × Deque → Bool
is_stale cutoff (ip, []) = true
is_stale cutoff (ip, t ∷ ts) = ltb (newest (t ∷ ts)) cutoff

-- `sorted(..., key=lambda kv: kv[1][-1])`, which is stable.
abbrev pub insert_by_recency : Text × Deque → Dict Text Deque → Dict Text Deque
insert_by_recency e [] = e ∷ []
insert_by_recency e (f ∷ d) =
    if leb (newest e.1) (newest f.1) then e ∷ f ∷ d else f ∷ insert_by_recency e d

abbrev pub sorted_by_recency : Dict Text Deque → Dict Text Deque
sorted_by_recency [] = []
sorted_by_recency (e ∷ d) = insert_by_recency e (sorted_by_recency d)

-- `del` of every listed entry.
abbrev pub delete_all : Dict Text Deque → Dict Text Deque → Dict Text Deque
delete_all gone d = select (λ e. not (any (λ g. text_same g.0 e.0) gone)) d

unfoldable pub cap_recent : Dict Text Deque → Dict Text Deque
cap_recent d =
    if ltb recent_sweep_threshold (length d)
    then delete_all (take (length d - recent_evict_target) (sorted_by_recency d)) d
    else d

unfoldable pub sweep_recent : ℕ → Dict Text Deque → Dict Text Deque
unfolding cap_recent
sweep_recent cutoff d = cap_recent (select (λ e. not (is_stale cutoff e)) d)

unfoldable pub maybe_sweep : ℕ → Dict Text Deque → Dict Text Deque
unfolding sweep_recent
maybe_sweep cutoff d = if ltb recent_sweep_threshold (length d) then sweep_recent cutoff d else d

-- `while recent and recent[0] < cutoff: recent.popleft()`
abbrev pub drop_expired : ℕ → Deque → Deque
drop_expired cutoff [] = []
drop_expired cutoff (t ∷ ts) = if ltb t cutoff then drop_expired cutoff ts else t ∷ ts

abbrev pub window_of : Option Deque → Deque
window_of none = []
window_of (some ts) = ts

module _ (window : ℕ) where
  -- The part of `admit` after the two caps.
  unfoldable pub admit_window : PerIpLimiter → Text → ℕ → PerIpLimiter × Verdict
  unfolding maybe_sweep concurrent_for
  admit_window l ip ts =
      let cutoff = ts - window in
      let swept = maybe_sweep cutoff l.recent in
      let recent = drop_expired cutoff (window_of (Dict.get ip swept)) in
      if leb l.max_rpm (length recent)
      then (record l { recent = Dict.put ip recent swept }, per_ip_rpm)
      else (
        record l {
          concurrent = Dict.put ip (concurrent_for l ip + 1) l.concurrent;
          total = l.total + 1;
          recent = Dict.put ip (recent ++ ts ∷ []) swept;
        },
        accepted,
      )

  unfoldable pub admit : PerIpLimiter → Text → ℕ → PerIpLimiter × Verdict
  unfolding admit_window concurrent_for
  admit l ip ts =
      if leb l.max_total l.total
      then (l, global_concurrent)
      else if leb l.max_concurrent (concurrent_for l ip)
      then (l, per_ip_concurrent)
      else admit_window l ip ts

unfoldable pub release : PerIpLimiter → Text → PerIpLimiter
unfolding concurrent_for
release l ip = record l {
  concurrent =
      if leb (concurrent_for l ip) 1
      then Dict.remove ip l.concurrent
      else Dict.put ip (concurrent_for l ip - 1) l.concurrent;
  total = l.total - 1;
}
